-- ===== src/Control/Synchronous/Iteration.antt =====
-- One iteration of Algorithm 1, with every source that fails held: it always succeeds on a valid
-- topology, and leads from a feasible routing to one.
use traffic_emulator.Common.{
  Returns, returns, ℕ, ◌+◌, ◌≡◌, ◌≢◌, refl, sym, ap, subst, ◌∙◌, List, [], ◌∷◌, length, arith, ok,
  length-zip_with, zip_with,
}
use traffic_emulator.Num.{Num, IsOrdered, ◌⊖◌, ◌≼◌, ◌≺◌, min, max}
use traffic_emulator.Num.Elementary.{Elementary, IsElementary}
use traffic_emulator.Model.Topology.{Topology}
use traffic_emulator.Model.Topology.Valid.{
  IsValid, IsWide, IsValid-links_nonneg, IsValid-IsWide, IsValid-links-ne-nil,
  IsValid-brokers-ne-nil,
}
use traffic_emulator.Num.Vectors.{column_sums, column_sums-sub_rows, sub_rows}
use traffic_emulator.Model.MarginalCosts.{mm1_marginal_cost_vectorized, marginal_cost}
use traffic_emulator.Num.Mix.{mix}
use traffic_emulator.Control.Synchronous.{
  SystemState, Variant, holds, iteration_step, update_prices, compute_broker_loads,
  apply_common_step, minimum, safe_bounds, safe_step_bounds, step_scale, common_step, stepped,
  paper, notebook, unknown,
}
use traffic_emulator.Control.Synchronous.Rows.{RowsGood-length}
use traffic_emulator.Control.Synchronous.Capacity.{
  IsFeasible, length-loads, apply_common_step-IsFeasible,
}
use traffic_emulator.Control.Synchronous.Responses.{
  br_tolerance, respond_all-RowsGood, respond_all_total,
}

module _ {R : Type 0} ⦃n : Num R⦄ ⦃e : Elementary R⦄ where
  -- What an iteration leaves: a feasible state, the step that it took and a residual.
  pub record IsIterated (delta_s : R) (topo : Topology R) (state : SystemState R)
      (r : SystemState R × R × R) : Type 0 where
    pub feasible : IsFeasible br_tolerance delta_s topo (r.0).lambda_ij
    pub step_nonneg : n.nought ≼ r.1
    pub step-le-unit : r.1 ≼ n.unit
    pub prices_length : length (r.0).prices ≡ length topo.mu_brokers
    pub iteration_counted : (r.0).iteration ≡ state.iteration + 1

  module _ (laws : IsOrdered R) (elementary : IsElementary R) where
    open n use {nought, unit}

    minimum_total : (xs : List R) → xs ≢ [] → (m : R) × (minimum xs ≡ ok m)
    minimum_total [] ne = absurd (ne refl)
    minimum_total (x ∷ []) ne = (x, refl)
    minimum_total (x ∷ y ∷ ys) ne =
        let (m, found) = minimum_total (y ∷ ys) (λ h. cc h) in (min x m, rw found)

    safe_bounds-ne-nil :
        (scale delta_s : R) (mus loads directions : List R)
        → mus ≢ []
        → length loads ≡ length mus
        → length directions ≡ length mus
        → safe_bounds scale delta_s mus loads directions ≢ []
    safe_bounds-ne-nil scale delta_s [] loads directions ne h k = absurd (ne refl)
    safe_bounds-ne-nil scale delta_s (mu ∷ mus) [] directions ne h k = absurd (omega arith)
    safe_bounds-ne-nil scale delta_s (mu ∷ mus) (l ∷ loads) [] ne h k = absurd (omega arith)
    safe_bounds-ne-nil scale delta_s (mu ∷ mus) (l ∷ loads) (d ∷ directions) ne h k = λ e. cc e

    step_scale_total :
        (variant : Variant) (eta : R)
        → variant ≢ unknown
        → (scale : R) × (step_scale variant eta ≡ ok scale)
    unfolding step_scale
    step_scale_total paper eta ne = (eta, refl)
    step_scale_total notebook eta ne = (unit, refl)
    step_scale_total unknown eta ne = absurd (ne refl)

    pub apply_common_step_total :
        (state : SystemState R) (topo : Topology R) (B : List (List R)) (prices : List R)
        (eta eps delta_s : R) (variant : Variant) (failures : List ℕ)
        → variant ≢ unknown
        → topo.mu_brokers ≢ []
        → length (column_sums state.lambda_ij) ≡ length topo.mu_brokers
        → length (column_sums B) ≡ length topo.mu_brokers
        → length B ≡ length state.lambda_ij
        → (r : SystemState R × R × R) × (apply_common_step state topo B prices eta eps delta_s
              variant failures
            ≡ ok r)
          × ((r.0).prices ≡ prices)
          × ((r.0).iteration ≡ state.iteration + 1)
    unfolding apply_common_step safe_step_bounds compute_broker_loads common_step stepped
    apply_common_step_total state topo B prices eta eps delta_s variant failures known ne h k same =
        let loads = column_sums state.lambda_ij in
        let directions = column_sums (sub_rows B state.lambda_ij) in
        let (scale, scaled) = step_scale_total variant eta known in
        let s_j = safe_bounds scale delta_s topo.mu_brokers loads directions in
        let wide : length directions ≡ length topo.mu_brokers =
          ap length (column_sums-sub_rows laws B state.lambda_ij same)
          ∙ length-zip_with ◌⊖◌ (column_sums B) loads (k ∙ sym h)
          ∙ k in
        let (m, found) =
          minimum_total s_j
            (safe_bounds-ne-nil scale delta_s topo.mu_brokers loads directions ne h wide) in
        (stepped state B prices eta eps s_j (max nought m) failures, rw (scaled, found), refl, refl)

    update_prices-length :
        (ps loads mus : List R) (gamma eps : R)
        → length ps ≡ length mus
        → length loads ≡ length mus
        → length (update_prices ps loads mus gamma eps) ≡ length mus
    unfolding update_prices mm1_marginal_cost_vectorized
    update_prices-length ps loads mus gamma eps h k =
        let costs = length-zip_with (marginal_cost eps) loads mus k ∙ k in
        length-zip_with (mix gamma) ps (zip_with (marginal_cost eps) loads mus) (h ∙ sym costs) ∙ h

    -- On a valid topology, from a feasible routing and with as many prices as brokers, a step size in
    -- (0, 1] and a known variant of the safe step, an iteration that holds the sources whose best
    -- response fails returns: no exception is raised. Its routing is feasible again (each flow within
    -- its link, each demand carried up to the solver's tolerance, each broker's load at least
    -- `delta_s` below its capacity), its common step lies between 0 and 1, there is a price for each
    -- broker, and the iterations are counted.
    pub iteration_step-IsFeasible :
        (state : SystemState R) (topo : Topology R) (eta gamma eps delta_s : R) (variant : Variant)
        → IsValid topo
        → IsFeasible br_tolerance delta_s topo state.lambda_ij
        → length state.prices ≡ length topo.mu_brokers
        → nought ≺ eta
        → eta ≼ unit
        → variant ≢ unknown
        → Returns
            (IsIterated delta_s topo state)
            (iteration_step state topo eta gamma eps delta_s holds variant)
    unfolding iteration_step compute_broker_loads
    iteration_step-IsFeasible state topo eta gamma eps delta_s variant v now hp h0 h1 known =
        let wide = IsValid-IsWide topo v in
        let loads = column_sums state.lambda_ij in
        let loads_wide =
          length-loads laws br_tolerance topo (IsValid-links-ne-nil topo v) wide now.rows_good in
        let prices =
          update_prices state.prices (compute_broker_loads state.lambda_ij) topo.mu_brokers gamma
            eps in
        let prices_wide : length prices ≡ length topo.mu_brokers =
          update_prices-length state.prices loads topo.mu_brokers gamma eps hp loads_wide in
        let (answers, responded) =
          respond_all_total laws elementary prices 0
            (subst (λ w. IsWide w topo.mu_links) (sym prices_wide) wide) now.rows_good in
        let good =
          respond_all-RowsGood laws elementary holds prices 0 (IsValid-links_nonneg laws topo v)
            now.rows_good responded in
        let (r, stepping, priced, counted) =
          apply_common_step_total state topo answers.0 prices eta eps delta_s variant answers.1
            known (IsValid-brokers-ne-nil topo v) loads_wide
            (length-loads laws br_tolerance topo (IsValid-links-ne-nil topo v) wide good)
            (RowsGood-length laws br_tolerance good
              ∙ sym (RowsGood-length laws br_tolerance now.rows_good)) in
        let (feasible, low, high) =
          apply_common_step-IsFeasible laws br_tolerance state topo answers.0 prices eta eps delta_s
            variant answers.1 h0 h1 (IsValid-links-ne-nil topo v) wide now good stepping in
        returns (IsIterated delta_s topo state) r (rw responded stepping) (record {
          feasible = feasible;
          step_nonneg = low;
          step-le-unit = high;
          prices_length = ap length priced ∙ prices_wide;
          iteration_counted = counted;
        })
