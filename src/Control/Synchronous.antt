-- ===== src/Control/Synchronous.antt =====
-- src/controller/synchronous.py, and the state of src/simulation/state.py. The state that the source
-- updates in place is returned anew. A field that starts as None or NaN is an `Option`.
pub mod Step
pub mod Capacity
pub mod Rows
pub mod Responses
pub mod Iteration
use traffic_emulator.Common.{
  ℕ, ◌+◌, Bool, true, false, Option, none, some, List, [], ◌∷◌, ◌++◌, zip_with, if◌then◌else◌,
  Result, ok, err, Error, value_error, runtime_error, ◌>>=◌, ◌>>◌,
}
use traffic_emulator.Num.{Num, ◌⊖◌, ◌⊗◌, ◌⊘◌, min, max}
use traffic_emulator.Num.Elementary.{Elementary}
use traffic_emulator.Num.Vectors.{column_sums, mix_row, mix_rows, sub_rows}
use traffic_emulator.Model.MarginalCosts.{mm1_marginal_cost_vectorized}
use traffic_emulator.Model.Topology.{Topology}
use traffic_emulator.Control.BestResponse.{best_response_available}

pub record SystemState (R : Type 0) : Type 0 where
  pub lambda_ij : List (List R)
  pub prices : List R
  pub iteration : ℕ
  pub s_j : Option (List R)
  pub s_t : Option R
  pub route_rel : Option R
  pub price_rel : Option R
  pub br_failures : List ℕ

-- `safe_step_variant`: a string, of which two are known
pub data Variant : Type 0 where
  paper notebook unknown : Variant

-- `on_best_response_failure`
pub data OnFailure : Type 0 where
  raises holds other : OnFailure

-- `except (RuntimeError, ValueError)` in `iteration_step`; any other exception passes through
abbrev pub on_failure {ℓ} : {A : Type ℓ} → OnFailure → Error → A → Result (A × Bool)
on_failure holds value_error held = ok (held, true)
on_failure holds runtime_error held = ok (held, true)
on_failure _ e held = err e

-- the row that the `try` statement leaves in `lambda_br[i]`
abbrev pub answer {ℓ} : {A : Type ℓ} → OnFailure → A → Result A → Result (A × Bool)
answer policy held (ok row) = ok (row, false)
answer policy held (err e) = on_failure policy e held

module _ {R : Type 0} ⦃n : Num R⦄ where
  unfoldable pub compute_broker_loads : List (List R) → List R
  compute_broker_loads = column_sums

  unfoldable pub update_prices : List R → List R → List R → R → R → List R
  update_prices current_prices loads mu_brokers gamma eps =
      mix_row gamma current_prices (mm1_marginal_cost_vectorized loads mu_brokers eps)

  -- `scale = eta if variant == "paper" else 1.0`, after the check of the variant
  unfoldable pub step_scale : Variant → R → Result R
  step_scale paper eta = ok eta
  step_scale notebook eta = ok n.unit
  step_scale unknown eta = err value_error

  -- one component of `s_j`
  unfoldable pub safe_bound : R → R → R → R → R → R
  safe_bound scale delta_s mu load direction =
      if n.lt n.nought direction
      then min n.unit ((mu ⊖ delta_s ⊖ load) ⊘ (scale ⊗ direction))
      else n.unit

  abbrev pub safe_bounds : R → R → List R → List R → List R → List R
  safe_bounds scale delta_s [] loads directions = []
  safe_bounds scale delta_s (mu ∷ mus) [] directions = []
  safe_bounds scale delta_s (mu ∷ mus) (load ∷ loads) [] = []
  safe_bounds scale delta_s (mu ∷ mus) (load ∷ loads) (direction ∷ directions) =
      safe_bound scale delta_s mu load direction ∷ safe_bounds scale delta_s mus loads directions

  unfoldable pub safe_step_bounds :
      List (List R) → List (List R) → List R → List R → R → R → Variant → Result (List R)
  unfolding step_scale
  safe_step_bounds lambda_ij lambda_br loads mu_brokers eta delta_s variant = do
    scale ← step_scale variant eta
    ok (safe_bounds scale delta_s mu_brokers loads (column_sums (sub_rows lambda_br lambda_ij)))

  -- `np.min`: an error on the empty array
  abbrev pub minimum : List R → Result R
  minimum [] = err value_error
  minimum (x ∷ []) = ok x
  minimum (x ∷ y ∷ ys) = minimum (y ∷ ys) >>= λ m. ok (min x m)

  -- `max(0.0, float(np.min(s_j)))`
  unfoldable pub common_step : List R → Result R
  common_step s_j = minimum s_j >>= λ m. ok (max n.nought m)

  unfoldable pub compute_safe_step :
      List (List R) → List (List R) → List R → List R → R → R → Variant → Result R
  compute_safe_step lambda_ij lambda_br loads mu_brokers eta delta_s variant =
      safe_step_bounds lambda_ij lambda_br loads mu_brokers eta delta_s variant >>= common_step

  unfoldable pub broker_price : R → R → R → R → R → Result R
  broker_price price load mu_j gamma eps =
      elim (update_prices (price ∷ []) (load ∷ []) (mu_j ∷ []) gamma eps) [
        | [] ↦ err Error.index_error
        | p ∷ _ ↦ ok p
      ]

  module _ ⦃e : Elementary R⦄ where
    unfoldable pub source_best_response : List R → List R → R → Result (List R)
    source_best_response mu_row prices lam_i =
        best_response_available mu_row prices lam_i (e.literal 1 12) 320

    -- `np.linalg.norm(new - old) / max(np.linalg.norm(old), eps)`, on the elements in row order
    abbrev pub relative_change : R → List R → List R → R
    relative_change eps new old = e.norm (zip_with ◌⊖◌ new old) ⊘ max (e.norm old) eps

    abbrev pub ravel : List (List R) → List R
    ravel [] = []
    ravel (row ∷ rows) = row ++ ravel rows

    -- the state after a step of length `step`, and the residual
    unfoldable pub stepped :
        SystemState R → List (List R) → List R → R → R → List R → R → List ℕ → SystemState R × R × R
    stepped state lambda_br new_prices eta eps s_j s_t failures =
        let new_lambda_ij = mix_rows (eta ⊗ s_t) state.lambda_ij lambda_br in
        let route_rel = relative_change eps (ravel new_lambda_ij) (ravel state.lambda_ij) in
        let price_rel = relative_change eps new_prices state.prices in
        (
          record {
            lambda_ij = new_lambda_ij;
            prices = new_prices;
            iteration = state.iteration + 1;
            s_j = some s_j;
            s_t = some s_t;
            route_rel = some route_rel;
            price_rel = some price_rel;
            br_failures = failures;
          },
          s_t,
          max route_rel price_rel,
        )

    unfoldable pub apply_common_step :
        SystemState R
        → Topology R
        → List (List R)
        → List R
        → R
        → R
        → R
        → Variant
        → List ℕ
        → Result (SystemState R × R × R)
    unfolding stepped
    apply_common_step state topology lambda_br new_prices eta eps delta_s variant failures = do
      s_j ←
          safe_step_bounds state.lambda_ij lambda_br (compute_broker_loads state.lambda_ij)
            topology.mu_brokers eta delta_s variant
      s_t ← common_step s_j
      ok (stepped state lambda_br new_prices eta eps s_j s_t failures)

    -- one source of the loop in `iteration_step`: its new row, and whether it was held
    unfoldable pub respond : OnFailure → List R → List R → R → List R → Result (List R × Bool)
    respond policy mu_row prices lam_i held_row =
        answer policy held_row (source_best_response mu_row prices lam_i)

    abbrev pub respond_all :
        OnFailure
        → List R
        → ℕ
        → List (List R)
        → List R
        → List (List R)
        → Result (List (List R) × List ℕ)
    respond_all policy prices i [] lambdas rows = ok ([], [])
    respond_all policy prices i (mu_row ∷ mu_rows) [] rows = err Error.index_error
    respond_all policy prices i (mu_row ∷ mu_rows) (lam ∷ lambdas) [] = err Error.index_error
    respond_all policy prices i (mu_row ∷ mu_rows) (lam ∷ lambdas) (row ∷ rows) = do
      (first, held) ← respond policy mu_row prices lam row
      (rest, failures) ← respond_all policy prices (i + 1) mu_rows lambdas rows
      ok (first ∷ rest, if held then i ∷ failures else failures)

    unfoldable pub iteration_step :
        SystemState R
        → Topology R
        → R
        → R
        → R
        → R
        → OnFailure
        → Variant
        → Result (SystemState R × R × R)
    iteration_step state topology eta gamma eps delta_s policy variant = do
      elim policy [ other ↦ err value_error | _ ↦ ok tt ]
      let new_prices =
          update_prices state.prices (compute_broker_loads state.lambda_ij) topology.mu_brokers
            gamma eps
      (lambda_br, failures) ←
          respond_all policy new_prices 0 topology.mu_links topology.lambdas_total state.lambda_ij
      apply_common_step state topology lambda_br new_prices eta eps delta_s variant failures

  -- `algorithm1_initial_state` with a given routing
  unfoldable pub initial_state : Topology R → R → List (List R) → SystemState R
  initial_state topology eps initial_lambda = record {
    lambda_ij = initial_lambda;
    prices =
        mm1_marginal_cost_vectorized (compute_broker_loads initial_lambda) topology.mu_brokers eps;
    iteration = 0;
    s_j = none;
    s_t = none;
    route_rel = none;
    price_rel = none;
    br_failures = [];
  }
