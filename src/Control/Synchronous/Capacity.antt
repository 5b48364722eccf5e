-- ===== src/Control/Synchronous/Capacity.antt =====
-- The common step as a whole: from a feasible routing towards feasible rows it leads to one.
use traffic_emulator.Common.{
  ℕ, ◌≡◌, refl, sym, ap, subst, ◌∙◌, ◌≢◌, List, [], ◌∷◌, length, zip_with, arith, ok, >>=-eq-ok,
  length-zip_with,
}
use traffic_emulator.Num.{Num, IsOrdered, ◌⊕◌, ◌⊖◌, ◌⊗◌, ◌≼◌, ◌≺◌}
use traffic_emulator.Num.Order.{le_of_lt, mul_le_of_le_unit}
use traffic_emulator.Num.Elementary.{Elementary}
use traffic_emulator.Num.Vectors.{
  column_sums, column_sums-mix_rows, column_sums-sub_rows, mix_rows, sub_rows,
}
use traffic_emulator.Model.Topology.{Topology}
use traffic_emulator.Model.Topology.Valid.{IsWide}
use traffic_emulator.Control.Synchronous.{
  SystemState, Variant, step_scale, safe_bounds, safe_step_bounds, common_step,
  compute_broker_loads, apply_common_step,
}
use traffic_emulator.Control.Synchronous.Step.{
  KeepsMargin, common_step_nonneg, common_step-below, common_step-le-unit, safe_bounds_range,
  mix_row-KeepsMargin,
}
use traffic_emulator.Control.Synchronous.Rows.{
  RowsGood, no_rows, good_row, RowsGood-length, mix_rows-RowsGood, InBox-length,
}

module _ {R : Type 0} ⦃n : Num R⦄ where
  pub length-column_sums :
      (width : ℕ) (rows : List (List R))
      → rows ≢ []
      → IsWide width rows
      → length (column_sums rows) ≡ width
  length-column_sums width [] ne w = absurd (ne (cc))
  length-column_sums width (row ∷ []) ne w = w.0
  length-column_sums width (row ∷ row' ∷ rows) ne w =
      let rest = length-column_sums width (row' ∷ rows) (λ e. cc e) w.1 in
      length-zip_with ◌⊕◌ row (column_sums (row' ∷ rows)) (w.0 ∙ sym rest) ∙ w.0

  -- What every iterate of Algorithm 1 satisfies: each row within its links and carrying its demand up
  -- to `tol`, and each broker's load at least `delta_s` below its capacity.
  pub record IsFeasible (tol : R → R) (delta_s : R) (topo : Topology R) (rows : List (List R))
      : Type 0 where
    pub rows_good : RowsGood tol topo.mu_links topo.lambdas_total rows
    pub margin : KeepsMargin delta_s topo.mu_brokers (compute_broker_loads rows)

module _ {R : Type 0} ⦃n : Num R⦄ ⦃e : Elementary R⦄ (laws : IsOrdered R) (tol : R → R) where
  open n use {nought, unit}

  RowsGood-IsWide :
      (width : ℕ) {mus : List (List R)} {lambdas : List R} {rows : List (List R)}
      → IsWide width mus
      → RowsGood tol mus lambdas rows
      → IsWide width rows
  RowsGood-IsWide width w no_rows = tt
  RowsGood-IsWide width w (good_row {mu = mu} {row = row} b c g) =
      (InBox-length laws row mu b ∙ w.0, RowsGood-IsWide width w.1 g)

  pub length-loads :
      (topo : Topology R) {rows : List (List R)}
      → topo.mu_links ≢ []
      → IsWide (length topo.mu_brokers) topo.mu_links
      → RowsGood tol topo.mu_links topo.lambdas_total rows
      → length (column_sums rows) ≡ length topo.mu_brokers
  length-loads topo {rows} ne wide g =
      length-column_sums (length topo.mu_brokers) rows
        (λ none_left.
          ne (
            empty_of_length topo.mu_links (sym (RowsGood-length laws tol g) ∙ ap length none_left)))
        (RowsGood-IsWide (length topo.mu_brokers) wide g)
    where
      empty_of_length : {A : Type 0} (xs : List A) → length xs ≡ 0 → xs ≡ []
      empty_of_length [] h = refl
      empty_of_length (x ∷ xs) h = absurd (omega arith)

  -- The step from rows `L` towards rows `B` that the bounds of the loads of `L` allow.
  IsFeasible-step :
      (topo : Topology R) (L B : List (List R)) (eta delta_s : R) (variant : Variant) {scale s : R}
      → nought ≺ eta
      → eta ≼ unit
      → topo.mu_links ≢ []
      → IsWide (length topo.mu_brokers) topo.mu_links
      → IsFeasible tol delta_s topo L
      → RowsGood tol topo.mu_links topo.lambdas_total B
      → step_scale variant eta ≡ ok scale
      → common_step
          (safe_bounds scale delta_s topo.mu_brokers (column_sums L) (column_sums (sub_rows B L)))
        ≡ ok s
      → IsFeasible tol delta_s topo (mix_rows (eta ⊗ s) L B) × (nought ≼ s) × (s ≼ unit)
  unfolding compute_broker_loads
  IsFeasible-step topo L B eta delta_s variant {scale} {s} h0 h1 ne wide now good scaled stepping =
      let loads = column_sums L in
      let targets = column_sums B in
      let same : length L ≡ length B =
        RowsGood-length laws tol now.rows_good ∙ sym (RowsGood-length laws tol good) in
      let stepping' : common_step
            (safe_bounds scale delta_s topo.mu_brokers loads (zip_with ◌⊖◌ targets loads))
          ≡ ok s =
        subst (λ d. common_step (safe_bounds scale delta_s topo.mu_brokers loads d) ≡ ok s)
          (column_sums-sub_rows laws B L (sym same)) stepping in
      let (lows, highs) =
        safe_bounds_range laws variant eta delta_s topo.mu_brokers loads
          (zip_with ◌⊖◌ targets loads) scaled h0 now.margin in
      let s0 = common_step_nonneg laws _ stepping' in
      let s1 = common_step-le-unit laws _ highs stepping' in
      (
        record {
          rows_good =
              mix_rows-RowsGood laws tol (eta ⊗ s)
                (laws.mul_nonneg eta s (le_of_lt laws nought eta h0) s0)
                (laws.le_trans _ s unit (mul_le_of_le_unit laws eta s h1 s0) s1) now.rows_good good;
          margin =
              subst (KeepsMargin delta_s topo.mu_brokers)
                (sym (column_sums-mix_rows laws (eta ⊗ s) L B same))
                (mix_row-KeepsMargin laws variant eta delta_s s topo.mu_brokers loads targets scaled
                  h0 h1 s0 s1
                  (length-loads topo ne wide good ∙ sym (length-loads topo ne wide now.rows_good))
                  now.margin (common_step-below laws _ lows stepping'));
        },
        s0,
        s1,
      )

  pub apply_common_step-IsFeasible :
      (state : SystemState R) (topo : Topology R) (lambda_br : List (List R)) (prices : List R)
      (eta eps delta_s : R) (variant : Variant) (failures : List ℕ) {state' : SystemState R}
      {s_t residual : R}
      → nought ≺ eta
      → eta ≼ unit
      → topo.mu_links ≢ []
      → IsWide (length topo.mu_brokers) topo.mu_links
      → IsFeasible tol delta_s topo state.lambda_ij
      → RowsGood tol topo.mu_links topo.lambdas_total lambda_br
      → apply_common_step state topo lambda_br prices eta eps delta_s variant failures
        ≡ ok (state', s_t, residual)
      → IsFeasible tol delta_s topo state'.lambda_ij × (nought ≼ s_t) × (s_t ≼ unit)
  unfolding apply_common_step safe_step_bounds compute_broker_loads
  apply_common_step-IsFeasible state topo lambda_br prices eta eps delta_s variant failures {state'}
        {s_t} {residual} h0 h1 ne wide now good h =
      let L = state.lambda_ij in
      let loads = column_sums L in
      let directions = column_sums (sub_rows lambda_br L) in
      let (s_j, bounds, later) =
        >>=-eq-ok (safe_step_bounds L lambda_br loads topo.mu_brokers eta delta_s variant) _ h in
      let (scale, scaled, listed) = >>=-eq-ok (step_scale variant eta) _ bounds in
      let (s, stepping, done) = >>=-eq-ok (common_step s_j) _ later in
      let (feasible, low, high) =
        IsFeasible-step topo L lambda_br eta delta_s variant h0 h1 ne wide now good scaled
          (ap common_step (ok_injective listed) ∙ stepping) in
      let results = ok_injective done in
      (
        subst (IsFeasible tol delta_s topo) (ap (λ r. (r.0).lambda_ij) results) feasible,
        subst (λ k. nought ≼ k) (ap (λ r. r.1) results) low,
        subst (λ k. k ≼ unit) (ap (λ r. r.1) results) high,
      )
    where
      ok_injective : {A : Type 0} {a b : A} → ok a ≡ ok b → a ≡ b
      ok_injective h = cc
