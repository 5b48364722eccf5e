-- ===== src/Control/Algorithm.antt =====
-- src/controller/synchronous.py: `algorithm1_initial_state` with the routing of the linear program, and
-- the loop of `run_algorithm1`.
pub mod Run
use traffic_emulator.Common.{
  ℕ, zero, suc, Bool, true, false, ◌&&◌, ◌||◌, not, Option, none, some, List, if◌then◌else◌, Result,
  ok, err, ◌>>=◌,
}
use traffic_emulator.Num.{Num}
use traffic_emulator.Num.Elementary.{Elementary}
use traffic_emulator.Model.Topology.{Topology}
use traffic_emulator.Control.Synchronous.{
  SystemState, Variant, raises, initial_state, iteration_step,
}
use traffic_emulator.Control.Feasibility.{LinearProgram, transportation_feasibility}
use traffic_emulator.Control.Diagnostics.{compute_diagnostics, certified}

-- the parameters of a run
pub record Settings (R : Type 0) : Type 0 where
  pub eta : R
  pub gamma : R
  pub tol : R
  pub eps : R
  pub delta_s : R
  pub require_certificate : Bool
  pub variant : Variant

module _ {R : Type 0} ⦃n : Num R⦄ ⦃e : Elementary R⦄ where
  -- `algorithm1_initial_state`
  unfoldable pub algorithm1_initial_state :
      (LinearProgram R → Option (List R))
      → Topology R
      → R
      → R
      → Option (List (List R))
      → Result (SystemState R)
  algorithm1_initial_state linprog topo delta_s eps initial_lambda = elim initial_lambda [
    | some rows ↦ ok (initial_state topo eps rows)
    | none ↦ do
      rows ←
          transportation_feasibility linprog topo.lambdas_total topo.mu_links topo.mu_brokers
            delta_s none
      ok (initial_state topo eps rows)
  ]

  -- whether the loop stops after an iteration with this residual; the certificate is only asked for
  -- when it is required
  unfoldable pub stops_at : Settings R → Topology R → SystemState R → R → Result Bool
  stops_at settings topo state residual =
      if n.lt residual settings.tol
      then (if settings.require_certificate
          then (do
            r ← compute_diagnostics state.lambda_ij state.prices topo (e.literal 1 7) settings.eps
            ok (certified r))
          else ok true)
      else ok false

  -- the loop of `run_algorithm1`, with the iterations that are left
  unfoldable pub iterate : Settings R → Topology R → ℕ → SystemState R → Result (SystemState R)
  unfolding stops_at
  iterate settings topo zero state = ok state
  iterate settings topo (suc left) state = do
    (next, step, residual) ←
        iteration_step state topo settings.eta settings.gamma settings.eps settings.delta_s raises
          settings.variant
    stop ← stops_at settings topo next residual
    if stop then ok next else iterate settings topo left next

  unfoldable pub run_algorithm1 :
      (LinearProgram R → Option (List R))
      → Settings R
      → Topology R
      → ℕ
      → Option (List (List R))
      → Result (SystemState R)
  unfolding iterate algorithm1_initial_state
  run_algorithm1 linprog settings topo max_iter initial_lambda = do
    state ← algorithm1_initial_state linprog topo settings.delta_s settings.eps initial_lambda
    iterate settings topo max_iter state
