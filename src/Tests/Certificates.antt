-- ===== src/Tests/Certificates.antt =====
-- The certificate of the first routing of the system of two sources and two brokers.
use traffic_emulator.Num.Integers.{integers}
use traffic_emulator.Tests.Systems.{whole_functions}
