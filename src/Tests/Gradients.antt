-- ===== src/Tests/Gradients.antt =====
-- The gradient of the central solver's objective on two sources and two brokers.
use traffic_emulator.Common.{refl, List, [], ◌∷◌, ◌≡◌}
use traffic_emulator.Num.Integers.{ℤ, pos, integers, integers-IsOrdered, ◌-ℤ◌, ◌+ℤ◌}
use traffic_emulator.Control.Diagnostics.{marginal_costs}
use traffic_emulator.Control.Central.{objective_gradient, objective_gradient-marginal_costs}

abbrev routed : List (List ℤ)
routed = (pos 1 ∷ pos 2 ∷ []) ∷ (pos 2 ∷ pos 1 ∷ []) ∷ []

abbrev links : List (List ℤ)
links = (pos 4 ∷ pos 8 ∷ []) ∷ (pos 5 ∷ pos 9 ∷ []) ∷ []

abbrev capacities : List ℤ
capacities = pos 20 ∷ pos 8 ∷ []

objective_gradient-marginal_costs_example :
    objective_gradient routed links capacities
    ≡ (marginal_costs routed links capacities (pos 1)).m_links
unfolding ◌-ℤ◌ ◌+ℤ◌
objective_gradient-marginal_costs_example =
    objective_gradient-marginal_costs integers-IsOrdered (pos 1) routed links capacities refl
      ((refl, (refl, tt)), ((refl, (refl, tt)), tt)) (refl, (refl, tt))
