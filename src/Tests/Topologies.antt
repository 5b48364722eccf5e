-- ===== src/Tests/Topologies.antt =====
-- The construction of the system of two sources and two brokers.
use traffic_emulator.Common.{Checked, some, [], ◌∷◌}
use traffic_emulator.Num.Integers.{pos, integers, integers-IsOrdered}
use traffic_emulator.Model.Topology.{make}
use traffic_emulator.Model.Topology.Valid.{IsValid}
use traffic_emulator.Model.Topology.Construction.{make-Checked}
use traffic_emulator.Tests.Systems.{whole_functions, two_by_two}

make-Checked_example : Checked IsValid (
    make
      (pos 2 ∷ pos 2 ∷ [])
      ((pos 10 ∷ pos 10 ∷ []) ∷ (pos 10 ∷ pos 7 ∷ []) ∷ [])
      (pos 20 ∷ pos 20 ∷ [])
      ("S1" ∷ "S2" ∷ [])
      ("B1" ∷ "B2" ∷ [])
      (some two_by_two.route_mask))
make-Checked_example =
    make-Checked integers-IsOrdered (pos 2 ∷ pos 2 ∷ [])
      ((pos 10 ∷ pos 10 ∷ []) ∷ (pos 10 ∷ pos 7 ∷ []) ∷ []) (pos 20 ∷ pos 20 ∷ [])
      ("S1" ∷ "S2" ∷ []) ("B1" ∷ "B2" ∷ []) (some two_by_two.route_mask)
