-- ===== src/Tests/Iterations.antt =====
-- Algorithm 1 on the system of two sources and two brokers.
use traffic_emulator.Common.{◌≡◌, refl, Returns, [], ◌∷◌}
use traffic_emulator.Common.{true}
use traffic_emulator.Num.Integers.{
  le_ℤ, ℤ, pos, integers, integers-IsOrdered, ◌+ℤ◌, ◌-ℤ◌, ◌*ℤ◌, div_ℤ,
}
use traffic_emulator.Control.Synchronous.{
  SystemState, iteration_step, paper, holds, initial_state, compute_broker_loads,
}
use traffic_emulator.Model.MarginalCosts.{mm1_marginal_cost_vectorized}
use traffic_emulator.Control.Synchronous.Rows.{no_rows, good_row}
use traffic_emulator.Control.Synchronous.Capacity.{IsFeasible}
use traffic_emulator.Control.Synchronous.Responses.{br_tolerance}
use traffic_emulator.Control.Synchronous.Iteration.{IsIterated, iteration_step-IsFeasible}
use traffic_emulator.Num.{max}
use traffic_emulator.Num.Mix.{mix}
use traffic_emulator.Num.Elementary.{abs}
use traffic_emulator.Control.BestResponse.{best_response_available}
use traffic_emulator.Control.BestResponse.Bounds.{InBox, Carries}
use traffic_emulator.Control.BestResponse.Outcome.{Ends, best_response_available-Ends}
use traffic_emulator.Control.Synchronous.Step.{safe_bound-KeepsMargin}
use traffic_emulator.Control.Synchronous.{safe_bound, step_scale}
use traffic_emulator.Tests.Systems.{
  whole_functions, whole_functions-IsElementary, two_by_two, two_by_two-IsValid, two_rows,
}

abbrev pub first_state : SystemState ℤ
unfolding initial_state
first_state = initial_state two_by_two (pos 1) two_rows

pub two_rows-IsFeasible : IsFeasible br_tolerance (pos 1) two_by_two two_rows
unfolding compute_broker_loads ◌+ℤ◌ ◌-ℤ◌ ◌*ℤ◌
two_rows-IsFeasible = record {
  rows_good =
      good_row ((refl, refl), ((refl, refl), tt)) refl
        (good_row ((refl, refl), ((refl, refl), tt)) refl no_rows);
  margin = (refl, (refl, tt));
}

iteration_step-IsFeasible_example :
    Returns
      (IsIterated (pos 1) two_by_two first_state)
      (iteration_step first_state two_by_two (pos 1) (pos 1) (pos 1) (pos 1) holds paper)
unfolding initial_state mm1_marginal_cost_vectorized compute_broker_loads
iteration_step-IsFeasible_example =
    iteration_step-IsFeasible integers-IsOrdered whole_functions-IsElementary first_state two_by_two
      (pos 1) (pos 1) (pos 1) (pos 1) paper two_by_two-IsValid two_rows-IsFeasible refl refl refl
      (λ h. cc h)

best_response_available-Ends_example :
    Ends
      (λ x. InBox x (pos 10 ∷ pos 0 ∷ []) × Carries (pos 1 *ℤ max (pos 1) (abs (pos 2))) (pos 2) x)
      (best_response_available (pos 10 ∷ pos 0 ∷ []) (pos 1 ∷ pos 3 ∷ []) (pos 2) (pos 1) 320)
best_response_available-Ends_example =
    best_response_available-Ends integers-IsOrdered whole_functions-IsElementary
      (pos 10 ∷ pos 0 ∷ []) (pos 1 ∷ pos 3 ∷ []) (pos 2) (pos 1) 320 (refl, (refl, tt)) refl

safe_bound-KeepsMargin_example :
    le_ℤ (mix (pos 1 *ℤ pos 1) (pos 3) (pos 7)) (pos 20 -ℤ pos 1) ≡ true
unfolding safe_bound step_scale ◌+ℤ◌ ◌-ℤ◌ ◌*ℤ◌ div_ℤ
safe_bound-KeepsMargin_example =
    safe_bound-KeepsMargin integers-IsOrdered paper (pos 1) (pos 1) (pos 20) (pos 3) (pos 7) (pos 1)
      refl refl refl refl refl refl refl
