-- ===== src/Distributed/Controller/Connections.antt =====
-- Every history of connections is handled: no index or address is missing.
use traffic_emulator.Common.Dict.{Dict}
use traffic_emulator.Model.Topology.{Topology}
