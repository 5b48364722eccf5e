-- ===== src/Tests/Capacities.antt =====
-- Varying capacities, the symmetric closed form and the linear program on small systems.
use traffic_emulator.Common.{Option, none, some, [], ◌∷◌, List, refl, Checked}
use traffic_emulator.Num.{◌⊗◌}
use traffic_emulator.Num.Integers.{ℤ, pos, integers, integers-IsOrdered}
use traffic_emulator.Model.Dynamics.{CapacityVariation, Swing, topology_at}
use traffic_emulator.Model.Dynamics.Floors.{IsVaried, topology_at-Checked}
use traffic_emulator.Model.Symmetric.{symmetric_solution, IsSymmetric, symmetric_solution-Checked}
use traffic_emulator.Control.Feasibility.{LinearProgram, mask_of, transportation_feasibility}
use traffic_emulator.Control.Feasibility.Headroom.{IsRoomy, transportation_feasibility-Checked}
use traffic_emulator.Tests.Systems.{whole_functions, two_by_two, two_by_two-IsValid}

abbrev calm : Swing ℤ
calm = record { amp = pos 2; period = pos 60; noise = pos 1 }

abbrev noughts : List (List ℤ)
noughts = (pos 0 ∷ pos 0 ∷ []) ∷ (pos 0 ∷ pos 0 ∷ []) ∷ []

abbrev variation : CapacityVariation ℤ
variation = record {
  base_topology = two_by_two;
  link = calm;
  broker = calm;
  link_phase = noughts;
  broker_phase = pos 1 ∷ pos 0 ∷ [];
}

topology_at-Checked_example :
    Checked (IsVaried two_by_two) (topology_at variation (pos 30) noughts (pos 1 ∷ pos 2 ∷ []))
topology_at-Checked_example =
    topology_at-Checked integers-IsOrdered variation (pos 30) noughts (pos 1 ∷ pos 2 ∷ [])
      two_by_two-IsValid (refl, (refl, tt)) (refl, (refl, tt)) refl refl

symmetric_solution-Checked_example :
    Checked
      (IsSymmetric 2 2 (pos 4) (pos 10) (pos 20) (pos 1))
      (symmetric_solution 2 2 (pos 4) (pos 10) (pos 20))
symmetric_solution-Checked_example =
    symmetric_solution-Checked integers-IsOrdered 2 2 (pos 4) (pos 10) (pos 20) (pos 1)

-- a solver that always gives the same routing and headroom
abbrev solver : LinearProgram ℤ → Option (List ℤ)
solver program = some (pos 1 ∷ pos 1 ∷ pos 2 ∷ pos 0 ∷ pos 8 ∷ [])

transportation_feasibility-Checked_example :
    Checked
      (IsRoomy
        (pos 0 ⊗ pos 1)
        (mask_of none two_by_two.mu_links)
        two_by_two.mu_links
        two_by_two.mu_brokers)
      (transportation_feasibility solver two_by_two.lambdas_total two_by_two.mu_links
        two_by_two.mu_brokers
        (pos 1)
        none)
transportation_feasibility-Checked_example =
    transportation_feasibility-Checked solver integers-IsOrdered two_by_two.lambdas_total
      two_by_two.mu_links two_by_two.mu_brokers (pos 1) none
