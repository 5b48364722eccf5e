-- ===== src/Control/Synchronous/Step.antt =====
-- The common safe step: `s_t` is at least 0, at most 1 and at most every broker's bound, and a step
-- of that length leaves each broker within its capacity.
use traffic_emulator.Common.{
  ◌≡◌, sym, ap, subst, ◌∙◌, List, [], ◌∷◌, length, zip_with, All, All₂, arith, ok, inl, inr,
  Bool-cases, >>=-eq-ok,
}
use traffic_emulator.Num.{Num, IsOrdered, ◌⊖◌, ◌⊗◌, ◌⊘◌, ◌≼◌, ◌≺◌, max, min}
use traffic_emulator.Num.Order.{
  min_le_left, min_le_right, le-min, max-le, le-max_left, le_of_lt, le_of_not_lt, sub_nonneg,
  mul_le_mul_left, mul_le_mul_right, mul_le_of_le_unit, le_of_sub_nonpos, nought-le-unit,
}
use traffic_emulator.Num.Mix.{mix, mix-le, mix-le_of_room}
use traffic_emulator.Num.Vectors.{mix_row}
use traffic_emulator.Control.Synchronous.{
  Variant, paper, notebook, unknown, step_scale, safe_bound, safe_bounds, minimum, common_step,
}

module _ {R : Type 0} ⦃n : Num R⦄ where
  -- The loads keep the margin below the capacities: `Lambda_j <= mu_j - delta_s`.
  abbrev pub KeepsMargin : R → List R → List R → Type 0
  KeepsMargin delta_s = All₂ λ mu load. load ≼ mu ⊖ delta_s

  module _ (laws : IsOrdered R) where
    open n use {nought, unit}

    ok_injective : {a b : R} → ok a ≡ ok b → a ≡ b
    ok_injective h = cc

    All-below : (xs : List R) (a b : R) → a ≼ b → All (λ x. b ≼ x) xs → All (λ x. a ≼ x) xs
    All-below [] a b h p = tt
    All-below (x ∷ xs) a b h p = (laws.le_trans a b x h p.0, All-below xs a b h p.1)

    pub minimum-below : (xs : List R) {m : R} → minimum xs ≡ ok m → All (λ x. m ≼ x) xs
    minimum-below [] h = cc
    minimum-below (x ∷ []) {m} h = ground (arith, laws.le_refl x)
    minimum-below (x ∷ y ∷ ys) {m} h =
        let (rest, e, joined) = >>=-eq-ok (minimum (y ∷ ys)) _ h in
        subst (λ k. All (λ z. k ≼ z) (x ∷ y ∷ ys)) (ok_injective joined)
          (
            min_le_left laws x rest,
            All-below (y ∷ ys) (min x rest) rest (min_le_right laws x rest)
                (minimum-below (y ∷ ys) e),
          )

    le-minimum : (xs : List R) (c : R) {m : R} → All (λ x. c ≼ x) xs → minimum xs ≡ ok m → c ≼ m
    le-minimum [] c p h = cc
    le-minimum (x ∷ []) c p h = ground arith
    le-minimum (x ∷ y ∷ ys) c p h =
        let (rest, e, joined) = >>=-eq-ok (minimum (y ∷ ys)) _ h in
        subst (λ k. c ≼ k) (ok_injective joined)
          (le-min laws x rest c p.0 (le-minimum (y ∷ ys) c p.1 e))

    -- The common step is at least 0, whatever the bounds are.
    pub common_step_nonneg : (s_j : List R) {s_t : R} → common_step s_j ≡ ok s_t → nought ≼ s_t
    unfolding common_step
    common_step_nonneg s_j h =
        let (m, e, joined) = >>=-eq-ok (minimum s_j) _ h in
        subst (λ k. nought ≼ k) (ok_injective joined) (le-max_left laws nought m)

    -- If no bound is negative, the step is at most each of them.
    pub common_step-below :
        (s_j : List R) {s_t : R}
        → All (λ s. nought ≼ s) s_j
        → common_step s_j ≡ ok s_t
        → All (λ s. s_t ≼ s) s_j
    unfolding common_step
    common_step-below s_j p h =
        let (m, e, joined) = >>=-eq-ok (minimum s_j) _ h in
        subst (λ k. All (λ s. k ≼ s) s_j) (ok_injective joined)
          (All-below s_j (max nought m) m
            (max-le laws nought m m (le-minimum s_j nought p e) (laws.le_refl m))
            (minimum-below s_j e))

    share_of_quotient : (s room d : R) → nought ≺ d → s ≼ room ⊘ d → s ⊗ d ≼ room
    share_of_quotient s room d h k =
        laws.le_trans (s ⊗ d) (room ⊘ d ⊗ d) room
          (mul_le_mul_right laws d s (room ⊘ d) (le_of_lt laws nought d h) k)
          (laws.div-mul_le room d h)

    -- In both variants the step moves a growing load by no more than the room that is left.
    share_of_room :
        (variant : Variant) (eta s_t room direction : R) {scale : R}
        → step_scale variant eta ≡ ok scale
        → nought ≺ eta
        → eta ≼ unit
        → nought ≼ room
        → nought ≺ direction
        → s_t ≼ room ⊘ (scale ⊗ direction)
        → eta ⊗ s_t ⊗ direction ≼ room
    unfolding step_scale
    share_of_room paper eta s_t room direction hs h0 h1 hr hd k =
        let k' : s_t ≼ room ⊘ (eta ⊗ direction) =
          subst (λ s. s_t ≼ room ⊘ (s ⊗ direction)) (sym (ok_injective hs)) k in
        subst (λ s. s ≼ room) (sym regrouped)
          (share_of_quotient s_t room (eta ⊗ direction) (laws.mul_pos eta direction h0 hd) k')
      where
        regrouped : eta ⊗ s_t ⊗ direction ≡ s_t ⊗ (eta ⊗ direction)
        regrouped =
            ap (λ t. t ⊗ direction) (laws.mul_comm eta s_t) ∙ laws.mul_assoc s_t eta direction
    share_of_room notebook eta s_t room direction hs h0 h1 hr hd k =
        let k' : s_t ≼ room ⊘ direction =
          subst (λ s. s_t ≼ room ⊘ s) (laws.unit-mul direction)
            (subst (λ s. s_t ≼ room ⊘ (s ⊗ direction)) (sym (ok_injective hs)) k) in
        subst (λ s. s ≼ room) (sym (laws.mul_assoc eta s_t direction))
          (laws.le_trans _ (eta ⊗ room) room
            (mul_le_mul_left laws eta (s_t ⊗ direction) room (le_of_lt laws nought eta h0)
              (share_of_quotient s_t room direction hd k'))
            (mul_le_of_le_unit laws eta room h1 hr))
    share_of_room unknown eta s_t room direction hs h0 h1 hr hd k = cc

    -- In both variants, for a step size in (0, 1] and a broker whose load is at least `delta_s` below
    -- its capacity: a common step in [0, 1] that is at most the broker's bound moves the load toward
    -- its target by the share eta * s_t and leaves it at least `delta_s` below the capacity.
    pub safe_bound-KeepsMargin :
        (variant : Variant) (eta delta_s mu load target s_t : R) {scale : R}
        → step_scale variant eta ≡ ok scale
        → nought ≺ eta
        → eta ≼ unit
        → nought ≼ s_t
        → s_t ≼ unit
        → s_t ≼ safe_bound scale delta_s mu load (target ⊖ load)
        → load ≼ mu ⊖ delta_s
        → mix (eta ⊗ s_t) load target ≼ mu ⊖ delta_s
    unfolding safe_bound
    safe_bound-KeepsMargin variant eta delta_s mu load target s_t {scale} hs h0 h1 st st1 bound
          safe =
        elim (Bool-cases (n.lt nought (target ⊖ load))) [
          | inl growing ↦ mix-le_of_room laws (eta ⊗ s_t) load target (mu ⊖ delta_s) (
              share_of_room variant eta s_t (mu ⊖ delta_s ⊖ load) (target ⊖ load) hs h0 h1
                (sub_nonneg laws load (mu ⊖ delta_s) safe) growing
                (laws.le_trans s_t _ _ (rw growing at bound) (min_le_right laws unit _)))
          | inr falling ↦
              mix-le laws (eta ⊗ s_t) (laws.mul_nonneg eta s_t (le_of_lt laws nought eta h0) st)
                (laws.le_trans _ s_t unit (mul_le_of_le_unit laws eta s_t h1 st) st1) load target
                (mu ⊖ delta_s) safe
                (laws.le_trans target load _
                  (le_of_sub_nonpos laws target load
                    (le_of_not_lt laws nought (target ⊖ load) falling))
                  safe)
        ]

    step_scale_pos :
        (variant : Variant) (eta : R) {scale : R}
        → step_scale variant eta ≡ ok scale
        → nought ≺ eta
        → nought ≺ scale
    unfolding step_scale
    step_scale_pos paper eta h p = subst (λ s. nought ≺ s) (ok_injective h) p
    step_scale_pos notebook eta h p = subst (λ s. nought ≺ s) (ok_injective h) laws.nought-lt-unit
    step_scale_pos unknown eta h p = cc

    -- With room left a bound lies in [0, 1].
    safe_bound_range :
        (scale delta_s mu load direction : R)
        → nought ≺ scale
        → load ≼ mu ⊖ delta_s
        → (nought ≼ safe_bound scale delta_s mu load direction)
          × (safe_bound scale delta_s mu load direction ≼ unit)
    unfolding safe_bound
    safe_bound_range scale delta_s mu load direction hs safe =
        elim (Bool-cases (n.lt nought direction)) [
          | inl growing ↦ rw growing (
            le-min laws unit _ nought (nought-le-unit laws) (
                laws.div_nonneg _ _ (sub_nonneg laws load (mu ⊖ delta_s) safe)
                  (laws.mul_pos scale direction hs growing)),
            min_le_left laws unit _,
          )
          | inr falling ↦ rw falling (nought-le-unit laws, laws.le_refl unit)
        ]

    pub safe_bounds_range :
        (variant : Variant) (eta delta_s : R) (mus loads directions : List R) {scale : R}
        → step_scale variant eta ≡ ok scale
        → nought ≺ eta
        → KeepsMargin delta_s mus loads
        → let s_j = safe_bounds scale delta_s mus loads directions in
          All (λ s. nought ≼ s) s_j × All (λ s. s ≼ unit) s_j
    safe_bounds_range variant eta delta_s [] [] directions hs h0 safe = (tt, tt)
    safe_bounds_range variant eta delta_s [] (load ∷ loads) directions hs h0 safe = absurd safe
    safe_bounds_range variant eta delta_s (mu ∷ mus) [] directions hs h0 safe = absurd safe
    safe_bounds_range variant eta delta_s (mu ∷ mus) (load ∷ loads) [] hs h0 safe = (tt, tt)
    safe_bounds_range variant eta delta_s (mu ∷ mus) (load ∷ loads) (d ∷ directions) {scale} hs h0
          safe =
        let (low, high) =
          safe_bound_range scale delta_s mu load d (step_scale_pos variant eta hs h0) safe.0 in
        let (lows, highs) =
          safe_bounds_range variant eta delta_s mus loads directions hs h0 safe.1 in
        ((low, lows), (high, highs))

    pub common_step-le-unit :
        (s_j : List R) {s_t : R} → All (λ s. s ≼ unit) s_j → common_step s_j ≡ ok s_t → s_t ≼ unit
    unfolding common_step
    common_step-le-unit [] p h = cc
    common_step-le-unit (s ∷ s_j) p h =
        let (m, e, joined) = >>=-eq-ok (minimum (s ∷ s_j)) _ h in
        subst (λ k. k ≼ unit) (ok_injective joined)
          (max-le laws nought m unit (nought-le-unit laws)
            (laws.le_trans m s unit (minimum-below (s ∷ s_j) e).0 p.0))

    -- All brokers: a common step at most each bound leaves every margin.
    pub mix_row-KeepsMargin :
        (variant : Variant) (eta delta_s s_t : R) (mus loads targets : List R) {scale : R}
        → step_scale variant eta ≡ ok scale
        → nought ≺ eta
        → eta ≼ unit
        → nought ≼ s_t
        → s_t ≼ unit
        → length targets ≡ length loads
        → KeepsMargin delta_s mus loads
        → All (λ s. s_t ≼ s) (safe_bounds scale delta_s mus loads (zip_with ◌⊖◌ targets loads))
        → KeepsMargin delta_s mus (mix_row (eta ⊗ s_t) loads targets)
    mix_row-KeepsMargin variant eta delta_s s_t [] [] targets hs h0 h1 st st1 hl safe below = tt
    mix_row-KeepsMargin variant eta delta_s s_t [] (l ∷ loads) targets hs h0 h1 st st1 hl safe
          below =
        absurd safe
    mix_row-KeepsMargin variant eta delta_s s_t (mu ∷ mus) [] targets hs h0 h1 st st1 hl safe
          below =
        absurd safe
    mix_row-KeepsMargin variant eta delta_s s_t (mu ∷ mus) (l ∷ loads) [] hs h0 h1 st st1 hl safe
          below =
        absurd (omega arith)
    mix_row-KeepsMargin variant eta delta_s s_t (mu ∷ mus) (l ∷ loads) (t ∷ targets) hs h0 h1 st st1
          hl safe below =
        (
          safe_bound-KeepsMargin variant eta delta_s mu l t s_t hs h0 h1 st st1 below.0 safe.0,
          mix_row-KeepsMargin variant eta delta_s s_t mus loads targets hs h0 h1 st st1
              (omega arith) safe.1 below.1,
        )
