-- ===== src/Control/BestResponse/Bounds.antt =====
-- What a best response satisfies when one is returned.
use traffic_emulator.Common.{
  ℕ, zero, suc, ◌≡◌, refl, sym, subst, ◌∙◌, true, not, ◌&&◌, Option, none, some, List, [], ◌∷◌, map,
  length, all, All, All₂, arith, ok, raise_if, index_error, ◌==◌, inl, inr, Bool-cases, >>=-eq-ok,
}
use traffic_emulator.Num.{Num, IsOrdered, ◌⊕◌, ◌⊖◌, ◌⊗◌, ◌≼◌, ◌≺◌, max}
use traffic_emulator.Num.Order.{
  le-min, min_le_right, le-max_right, le_of_not_lt, lt_of_not_le, le_of_lt, sub_nonpos, sub_nonneg,
  max-le, le-max_left, nought-le-unit,
}
use traffic_emulator.Num.Elementary.{Elementary, IsElementary, abs, half}
use traffic_emulator.Num.Vectors.{sum}
use traffic_emulator.Control.BestResponse.{
  allocate, allocation_from_pivot, check_input, settle, better, bisect, best_response_mm1,
  search_allocation, upper_end, bracket, unique, thresholds, compress, scatter, is_available,
  over_available, best_response_available,
}

module _ {R : Type 0} ⦃n : Num R⦄ where
  -- A feasible row: each flow lies between 0 and the capacity of its link.
  abbrev pub InBox : List R → List R → Type 0
  InBox = All₂ λ x mu. (n.nought ≼ x) × (x ≼ mu)

  abbrev pub AllPositive : List R → Type 0
  AllPositive [] = Unit
  AllPositive (mu ∷ mus) = (n.nought ≺ mu) × AllPositive mus

  -- The row carries the demand, up to the tolerance.
  abbrev pub Carries : R → R → List R → Type 0
  Carries tolerance lam x = abs (sum x ⊖ lam) ≼ tolerance

  abbrev SeenIn : List R → R → Option (List R × R) → Type 0
  SeenIn mus lam none = Unit
  SeenIn mus lam (some (x, error)) = InBox x mus × (abs (sum x ⊖ lam) ≡ error)

module _ {R : Type 0} ⦃n : Num R⦄ ⦃e : Elementary R⦄ where
  module _ (laws : IsOrdered R) (elementary : IsElementary R) where
    allocate_bounds :
        (delta pivot mu p : R)
        → n.nought ≺ mu
        → (n.nought ≼ allocate delta pivot mu p) × (allocate delta pivot mu p ≼ mu)
    unfolding allocate
    allocate_bounds delta pivot mu p h = (
      le-min laws _ (e.toward_nought mu) n.nought (le-max_right laws _ n.nought)
          (elementary.toward_nought_nonneg mu h),
      laws.le_trans _ (e.toward_nought mu) mu (min_le_right laws _ (e.toward_nought mu))
          (elementary.toward_nought_le mu h),
    )

    allocation-InBox :
        (mus ps : List R) (delta pivot : R)
        → length ps ≡ length mus
        → AllPositive mus
        → InBox (allocation_from_pivot mus ps delta pivot) mus
    unfolding allocation_from_pivot
    allocation-InBox [] ps delta pivot h p = tt
    allocation-InBox (mu ∷ mus) [] delta pivot h p = absurd (omega arith)
    allocation-InBox (mu ∷ mus) (q ∷ ps) delta pivot h p = (
      allocate_bounds delta pivot mu q p.0,
      allocation-InBox mus ps delta pivot (omega arith) p.1,
    )

    settle-Good :
        (mus : List R) (lam tolerance : R) (best : Option (List R × R)) {x : List R}
        → SeenIn mus lam best
        → settle tolerance best ≡ ok x
        → InBox x mus × Carries tolerance lam x
    unfolding settle
    settle-Good mus lam tolerance none seen h = cc
    settle-Good mus lam tolerance (some (y, error)) seen h =
        ground (arith, le_of_not_lt laws tolerance error)

    better-SeenIn :
        (mus : List R) (lam : R) (best : Option (List R × R)) (x : List R)
        → InBox x mus
        → SeenIn mus lam best
        → SeenIn mus lam (better best x (abs (sum x ⊖ lam)))
    better-SeenIn mus lam none x box seen = (box, refl)
    better-SeenIn mus lam (some (y, error)) x box seen = ground arith

    bisect-Good :
        (mus ps : List R) (lam : R) (rounds : ℕ) (pivot tolerance lo hi : R)
        (best : Option (List R × R)) {x : List R}
        → length ps ≡ length mus
        → AllPositive mus
        → SeenIn mus lam best
        → bisect mus ps lam rounds pivot tolerance lo hi best ≡ ok x
        → InBox x mus × Carries tolerance lam x
    unfolding bisect
    bisect-Good mus ps lam zero pivot tolerance lo hi best hl hp seen h =
        settle-Good mus lam tolerance best seen h
    bisect-Good mus ps lam (suc rounds) pivot tolerance lo hi best {x} hl hp seen h =
        let mid = half ⊗ (lo ⊕ hi) in
        let x_mid = allocation_from_pivot mus ps mid pivot in
        let error = abs (sum x_mid ⊖ lam) in
        let box = allocation-InBox mus ps mid pivot hl hp in
        let seen' = better-SeenIn mus lam best x_mid box seen in
        ground (
          arith,
          settle-Good mus lam tolerance (better best x_mid error) {x = x} seen',
          bisect-Good mus ps lam rounds pivot tolerance lo mid (better best x_mid error) {x = x} hl
              hp seen',
          bisect-Good mus ps lam rounds pivot tolerance mid hi (better best x_mid error) {x = x} hl
              hp seen',
        )

    AllPositive-sound :
        (mus : List R)
        → all (λ mu. e.is_finite mu && not (n.le mu n.nought)) mus ≡ true
        → AllPositive mus
    AllPositive-sound [] h = tt
    AllPositive-sound (mu ∷ mus) h =
        ground (arith, lt_of_not_le laws n.nought mu, AllPositive-sound mus)

    check_input_sound :
        (mus ps : List R) (lam flow_tol : R) (u : Unit {0})
        → check_input mus ps lam flow_tol ≡ ok u
        → (length ps ≡ length mus) × AllPositive mus × (n.nought ≼ lam) × (n.nought ≼ flow_tol)
    unfolding check_input
    check_input_sound mus ps lam flow_tol u h = ground (
      arith,
      AllPositive-sound mus,
      le_of_not_lt laws lam n.nought,
      le_of_lt laws n.nought flow_tol,
      lt_of_not_le laws n.nought flow_tol,
    )

    zeros-InBox : (mus : List R) → AllPositive mus → InBox (map (λ _. n.nought) mus) mus
    zeros-InBox [] p = tt
    zeros-InBox (mu ∷ mus) p =
        ((laws.le_refl n.nought, le_of_lt laws n.nought mu p.0), zeros-InBox mus p.1)

    sum-zeros : (mus : List R) → sum (map (λ _. n.nought) mus) ≡ n.nought
    sum-zeros [] = refl
    sum-zeros (mu ∷ mus) = laws.nought-add _ ∙ sum-zeros mus

    zeros-Carries :
        (mus : List R) (tolerance lam : R)
        → n.nought ≼ tolerance
        → n.nought ≼ lam
        → lam ≼ n.nought
        → Carries tolerance lam (map (λ _. n.nought) mus)
    zeros-Carries mus tolerance lam ht h k =
        subst (λ s. abs (s ⊖ lam) ≼ tolerance) (sym (sum-zeros mus))
          (laws.le_trans _ n.nought tolerance
            (max-le laws _ _ n.nought (sub_nonpos laws n.nought lam h)
              (sub_nonpos laws n.nought (n.nought ⊖ lam) (sub_nonneg laws lam n.nought k)))
            ht)

    search-Good :
        (mus ps : List R) (lam : R) (levels : List R) (flow_tol : R) (max_iter : ℕ) {x : List R}
        → length ps ≡ length mus
        → AllPositive mus
        → search_allocation mus ps lam levels flow_tol max_iter ≡ ok x
        → InBox x mus × Carries (flow_tol ⊗ max n.unit (abs lam)) lam x
    unfolding search_allocation
    search-Good mus ps lam [] flow_tol max_iter hl hp h = cc
    search-Good mus ps lam (first ∷ rest) flow_tol max_iter hl hp h =
        let ((pivot, hi), found, done) =
          >>=-eq-ok (upper_end mus ps lam (bracket mus ps lam first rest)) _ h in
        bisect-Good mus ps lam max_iter pivot (flow_tol ⊗ max n.unit (abs lam)) n.nought hi none hl
          hp tt done

    -- A returned allocation lies in the box of its links and carries the demand up to the tolerance.
    pub best_response_mm1-Good :
        (mus ps : List R) (lam flow_tol : R) (max_iter : ℕ) {x : List R}
        → best_response_mm1 mus ps lam flow_tol max_iter ≡ ok x
        → InBox x mus × Carries (flow_tol ⊗ max n.unit (abs lam)) lam x
    unfolding best_response_mm1
    best_response_mm1-Good mus ps lam flow_tol max_iter {x} h =
        let (u, checked, found) = >>=-eq-ok (check_input mus ps lam flow_tol) _ h in
        let (same, positive, demand, tol) = check_input_sound mus ps lam flow_tol u checked in
        let wide : n.nought ≼ flow_tol ⊗ max n.unit (abs lam) = laws.mul_nonneg flow_tol _ tol (
          laws.le_trans n.nought n.unit _ (nought-le-unit laws)
            (le-max_left laws n.unit (abs lam))) in
        ground (
          arith,
          zeros-InBox mus positive,
          zeros-Carries mus (flow_tol ⊗ max n.unit (abs lam)) lam wide demand,
          search-Good mus ps lam (unique (thresholds mus ps)) flow_tol max_iter {x = x} same
              positive,
        )

    -- The rows of a topology: a link that is missing has capacity 0.
    compress-length :
        (mus xs : List R)
        → length xs ≡ length mus
        → length (compress mus xs) ≡ length (compress mus mus)
    compress-length [] xs h = refl
    compress-length (mu ∷ mus) [] h = absurd (omega arith)
    compress-length (mu ∷ mus) (x ∷ xs) h = ground (arith, compress-length mus xs)

    scatter-InBox :
        (mus x : List R)
        → All (λ mu. n.nought ≼ mu) mus
        → InBox x (compress mus mus)
        → InBox (scatter mus x) mus × (sum (scatter mus x) ≡ sum x)
    scatter-InBox [] [] p b = (tt, refl)
    scatter-InBox [] (y ∷ x) p b = absurd b
    scatter-InBox (mu ∷ mus) [] p b = ground (
      arith,
      laws.le_refl n.nought,
      laws.nought-add (sum (scatter mus [])),
      scatter-InBox mus [] p.1,
    )
    scatter-InBox (mu ∷ mus) (y ∷ x) p b = ground (
      arith,
      laws.le_refl n.nought,
      laws.nought-add (sum (scatter mus (y ∷ x))),
      scatter-InBox mus (y ∷ x) p.1,
      scatter-InBox mus x p.1,
    )

    over_available-Good :
        (mus ps : List R) (lam flow_tol : R) (max_iter : ℕ) {x : List R}
        → All (λ mu. n.nought ≼ mu) mus
        → over_available mus ps lam flow_tol max_iter ≡ ok x
        → InBox x mus × Carries (flow_tol ⊗ max n.unit (abs lam)) lam x
    unfolding over_available
    over_available-Good mus ps lam flow_tol max_iter {x} p h =
        let (u, same, rest) =
          >>=-eq-ok (raise_if (not (length ps == length mus)) index_error) _ h in
        let (y, found, scattered) =
          >>=-eq-ok (best_response_mm1 (compress mus mus) (compress mus ps) lam flow_tol max_iter) _
            rest in
        let (box, carried) =
          best_response_mm1-Good (compress mus mus) (compress mus ps) lam flow_tol max_iter found in
        let (box', same_sum) = scatter-InBox mus y p box in
        subst (λ z. InBox z mus × Carries (flow_tol ⊗ max n.unit (abs lam)) lam z)
          (ok_injective scattered)
          (
            box',
            subst (λ s. abs (s ⊖ lam) ≼ flow_tol ⊗ max n.unit (abs lam)) (sym same_sum) carried,
          )
      where
        ok_injective : {y z : List R} → ok y ≡ ok z → y ≡ z
        ok_injective h = cc

    -- The same over the routes that exist: a missing route gets no flow.
    pub best_response_available-Good :
        (mus ps : List R) (lam flow_tol : R) (max_iter : ℕ) {x : List R}
        → All (λ mu. n.nought ≼ mu) mus
        → best_response_available mus ps lam flow_tol max_iter ≡ ok x
        → InBox x mus × Carries (flow_tol ⊗ max n.unit (abs lam)) lam x
    unfolding best_response_available
    best_response_available-Good mus ps lam flow_tol max_iter {x} p h =
        elim (Bool-cases (all is_available mus)) [
          | inl every ↦ best_response_mm1-Good mus ps lam flow_tol max_iter (ground arith)
          | inr missing ↦ over_available-Good mus ps lam flow_tol max_iter p (ground arith)
        ]
