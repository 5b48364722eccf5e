-- ===== src/Control/Algorithm/Run.antt =====
-- A run of Algorithm 1 from a feasible routing.
use traffic_emulator.Common.{ℕ, zero, suc, ◌+◌, ◌≤◌, ◌≡◌, Bool, true, false, ◌⊎◌, some, ok}
use traffic_emulator.Num.{Num, ◌≺◌, max}
use traffic_emulator.Num.Elementary.{Elementary}
use traffic_emulator.Model.Topology.{Topology}
use traffic_emulator.Control.Synchronous.{SystemState, raises, iteration_step}
use traffic_emulator.Control.Synchronous.Capacity.{IsFeasible}
use traffic_emulator.Control.Synchronous.Responses.{br_tolerance}
use traffic_emulator.Control.Diagnostics.{Residuals, compute_diagnostics, certified}
use traffic_emulator.Control.Algorithm.{Settings, stops_at}

module _ {R : Type 0} ⦃n : Num R⦄ ⦃e : Elementary R⦄ where
  -- The last step changed the routing and the prices by less than the tolerance, and the state is
  -- certified if that is required.
  pub record HasConverged (settings : Settings R) (topo : Topology R) (state : SystemState R)
      : Type 0 where
    pub route_change : R
    pub price_change : R
    pub route_measured : state.route_rel ≡ some route_change
    pub price_measured : state.price_rel ≡ some price_change
    pub changes_small : max route_change price_change ≺ settings.tol
    pub certificate :
        (settings.require_certificate ≡ false)
        ⊎ ((r : Residuals R) × (compute_diagnostics state.lambda_ij state.prices topo
                (e.literal 1 7)
                settings.eps
              ≡ ok r)
            × (certified r ≡ true))

  -- After at most `left` iterations.
  pub record IsFinal (settings : Settings R) (topo : Topology R) (left : ℕ)
      (before state : SystemState R) : Type 0 where
    pub feasible : IsFeasible br_tolerance settings.delta_s topo state.lambda_ij
    pub ends :
        (state.iteration ≡ before.iteration + left)
        ⊎ ((state.iteration ≤ before.iteration + left) × HasConverged settings topo state)

  -- The iterations that a run made: each follows the one before, and the run goes on as long as
  -- iterations are left and the test of the last one does not stop it.
  pub data Trace (settings : Settings R) (topo : Topology R)
      : ℕ → SystemState R → SystemState R → Type 0 where
    used_up : {state : SystemState R} → Trace settings topo zero state state
    stopped_after :
        {left : ℕ} {state : SystemState R} {r : SystemState R × R × R}
        → iteration_step state topo settings.eta settings.gamma settings.eps settings.delta_s raises
            settings.variant
          ≡ ok r
        → stops_at settings topo r.0 r.2 ≡ ok true
        → Trace settings topo (suc left) state r.0
    went_on :
        {left : ℕ} {state final : SystemState R} {r : SystemState R × R × R}
        → iteration_step state topo settings.eta settings.gamma settings.eps settings.delta_s raises
            settings.variant
          ≡ ok r
        → stops_at settings topo r.0 r.2 ≡ ok false
        → Trace settings topo left r.0 final
        → Trace settings topo (suc left) state final

  -- What a test to stop says when it says so.
  MayStop : Settings R → Topology R → SystemState R → R → Bool → Type 0
  MayStop settings topo state residual stop =
      (stop ≡ false)
      ⊎ ((residual ≺ settings.tol)
          × ((settings.require_certificate ≡ false)
              ⊎ ((r : Residuals R) × (compute_diagnostics state.lambda_ij state.prices topo
                      (e.literal 1 7) settings.eps
                    ≡ ok r)
                  × (certified r ≡ true))))

  -- What a step measures of itself.
  record IsMeasured (r : SystemState R × R × R) : Type 0 where
    route : R
    price : R
    route_is : (r.0).route_rel ≡ some route
    price_is : (r.0).price_rel ≡ some price
    residual_is : r.2 ≡ max route price

  -- What an iteration leaves, whichever way failures are treated.
  record IsStepped (settings : Settings R) (topo : Topology R) (before : SystemState R)
      (r : SystemState R × R × R) : Type 0 where
    still_feasible : IsFeasible br_tolerance settings.delta_s topo (r.0).lambda_ij
    measured : IsMeasured r
    counted : (r.0).iteration ≡ before.iteration + 1
