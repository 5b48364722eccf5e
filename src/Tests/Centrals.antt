-- ===== src/Tests/Centrals.antt =====
-- The central solver on two sources and two brokers, with solvers of which the second moves a flow.
use traffic_emulator.Common.{Option, none, some, List, [], ◌∷◌, ◌≡◌, refl, true, Result, ok, err}
use traffic_emulator.Num.Elementary.{Elementary}
use traffic_emulator.Num.Integers.{ℤ, pos, integers, integers-IsOrdered, ◌-ℤ◌, ◌+ℤ◌, ◌*ℤ◌}
use traffic_emulator.Tests.Systems.{whole_functions}
use traffic_emulator.Control.BestResponse.Outcome.{Ends}
use traffic_emulator.Control.Feasibility.{LinearProgram, transportation_feasibility}
use traffic_emulator.Control.Central.Solver.{
  MinimizeProblem, LeastSquaresProblem, Found, CentralInfo, solve_central,
}
use traffic_emulator.Control.Central.Outcome.{IsSolved, solve_central-IsSolved}

abbrev coarse : Elementary ℤ
coarse = record whole_functions { literal = λ m k. pos m }

abbrev central_rates : List ℤ
central_rates = pos 2 ∷ pos 2 ∷ []

abbrev central_links : List (List ℤ)
central_links = (pos 10 ∷ pos 10 ∷ []) ∷ (pos 10 ∷ pos 0 ∷ []) ∷ []

abbrev central_brokers : List ℤ
central_brokers = pos 20 ∷ pos 20 ∷ []

abbrev max_headroom : LinearProgram ℤ → Option (List ℤ)
max_headroom program = some (pos 1 ∷ pos 1 ∷ pos 2 ∷ pos 0 ∷ pos 8 ∷ [])

abbrev descend : MinimizeProblem ℤ → Found ℤ
descend problem = record { success = true; x = pos 1 ∷ pos 1 ∷ pos 2 ∷ pos 0 ∷ [] }

abbrev polish : LeastSquaresProblem ℤ → Option (Found ℤ)
polish problem = some (record { success = true; x = pos 0 ∷ pos 2 ∷ pos 2 ∷ pos 1 ∷ pos 1 ∷ [] })

abbrev solution_of : Result (List (List ℤ) × CentralInfo ℤ) → Option (List (List ℤ))
solution_of (ok out) = some out.0
solution_of (err e) = none

solve_central_polished :
    solution_of (
      solve_central ⦃e = coarse⦄ max_headroom descend polish central_rates central_links
        central_brokers
        (pos 0)
        (pos 0))
    ≡ some ((pos 0 ∷ pos 2 ∷ []) ∷ (pos 2 ∷ pos 0 ∷ []) ∷ [])
unfolding solve_central transportation_feasibility ◌-ℤ◌ ◌+ℤ◌ ◌*ℤ◌
solve_central_polished = refl

solve_central-IsSolved_example :
    Ends
      (IsSolved ⦃e = coarse⦄ central_rates central_links central_brokers descend polish
        (pos 0)
        (pos 0))
      (solve_central ⦃e = coarse⦄ max_headroom descend polish central_rates central_links
        central_brokers
        (pos 0)
        (pos 0))
solve_central-IsSolved_example =
    solve_central-IsSolved ⦃e = coarse⦄ max_headroom descend polish integers-IsOrdered central_rates
      central_links central_brokers (pos 0) (pos 0)
