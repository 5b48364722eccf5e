-- ===== src/Tests/Algorithms.antt =====
-- A run of Algorithm 1 on the system of two sources and two brokers.
use traffic_emulator.Common.{Option, none, List, true}
use traffic_emulator.Num.Integers.{ℤ, pos, integers}
use traffic_emulator.Control.Synchronous.{paper}
use traffic_emulator.Control.Feasibility.{LinearProgram}
use traffic_emulator.Control.Algorithm.{Settings}
use traffic_emulator.Tests.Systems.{whole_functions}

abbrev strict : Settings ℤ
strict = record {
  eta = pos 1;
  gamma = pos 1;
  tol = pos 2;
  eps = pos 1;
  delta_s = pos 1;
  require_certificate = true;
  variant = paper;
}

abbrev no_solver : LinearProgram ℤ → Option (List ℤ)
no_solver program = none
