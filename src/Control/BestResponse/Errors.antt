-- ===== src/Control/BestResponse/Errors.antt =====
-- The exceptions that a best response raises are those that the callers catch.
use traffic_emulator.Common.{
  ℕ, zero, suc, ◌≡◌, ◌≢◌, refl, Option, none, some, List, [], ◌∷◌, length, arith, Result, ok, err,
  value_error, runtime_error, ◌>>=◌, ==_iff,
}
use traffic_emulator.Num.{Num, IsOrdered, ◌⊕◌, ◌⊖◌, ◌⊗◌}
use traffic_emulator.Num.Elementary.{Elementary, abs, half}
use traffic_emulator.Num.Vectors.{sum}
use traffic_emulator.Control.BestResponse.{
  allocation_from_pivot, check_input, settle, better, bisect, widen, bracket, upper_end,
  search_allocation, best_response_mm1, thresholds, unique, insert_unique, compress, over_available,
  best_response_available,
}

-- A value, or one of `RuntimeError` and `ValueError`.
abbrev pub Catchable {ℓ} : {A : Type ℓ} → Result A → Type 0
Catchable (ok a) = Unit
Catchable (err value_error) = Unit
Catchable (err runtime_error) = Unit
Catchable (err _) = ⊥

Catchable->>= {ℓ κ} :
    {A : Type ℓ} {B : Type κ} (m : Result A) (f : A → Result B)
    → Catchable m
    → ((a : A) → m ≡ ok a → Catchable (f a))
    → Catchable (m >>= f)
Catchable->>= (ok a) f c k = k a refl
Catchable->>= (err e) f c k = c

module _ {R : Type 0} ⦃n : Num R⦄ ⦃e : Elementary R⦄ where
  check_input-Catchable :
      (mus ps : List R) (lam flow_tol : R) → Catchable (check_input mus ps lam flow_tol)
  unfolding check_input
  check_input-Catchable mus ps lam flow_tol = ground arith

  settle-Catchable :
      (tolerance : R) (best : Option (List R × R)) → Catchable (settle tolerance best)
  unfolding settle
  settle-Catchable tolerance none = tt
  settle-Catchable tolerance (some (x, error)) = ground arith

  module _ (mus ps : List R) (lam : R) where
    widen-Catchable : (rounds : ℕ) (pivot hi : R) → Catchable (widen mus ps lam rounds pivot hi)
    unfolding widen
    widen-Catchable zero pivot hi = tt
    widen-Catchable (suc rounds) pivot hi =
        ground (arith, widen-Catchable rounds pivot (hi ⊗ (n.unit ⊕ n.unit)))

    bisect-Catchable :
        (rounds : ℕ) (pivot tolerance lo hi : R) (best : Option (List R × R))
        → Catchable (bisect mus ps lam rounds pivot tolerance lo hi best)
    unfolding bisect
    bisect-Catchable zero pivot tolerance lo hi best = settle-Catchable tolerance best
    bisect-Catchable (suc rounds) pivot tolerance lo hi best =
        let mid = half ⊗ (lo ⊕ hi) in
        let x_mid = allocation_from_pivot mus ps mid pivot in
        let best' = better best x_mid (abs (sum x_mid ⊖ lam)) in
        ground (
          arith,
          settle-Catchable tolerance best',
          bisect-Catchable rounds pivot tolerance lo mid best',
          bisect-Catchable rounds pivot tolerance mid hi best',
        )

    upper_end-Catchable : (b : R × Option R) → Catchable (upper_end mus ps lam b)
    unfolding upper_end
    upper_end-Catchable (pivot, some hi) = tt
    upper_end-Catchable (pivot, none) =
        Catchable->>= (widen mus ps lam 1024 pivot n.unit) _ (widen-Catchable 1024 pivot n.unit)
          (λ hi eq. tt)

    search-Catchable :
        (levels : List R) (flow_tol : R) (max_iter : ℕ)
        → levels ≢ []
        → Catchable (search_allocation mus ps lam levels flow_tol max_iter)
    unfolding search_allocation
    search-Catchable [] flow_tol max_iter ne = absurd (ne refl)
    search-Catchable (first ∷ rest) flow_tol max_iter ne =
        Catchable->>= (upper_end mus ps lam (bracket mus ps lam first rest)) _
          (upper_end-Catchable (bracket mus ps lam first rest))
          λ b _. bisect-Catchable max_iter b.0 _ n.nought b.1 none

  insert_unique-ne-nil : (x : R) (xs : List R) → insert_unique x xs ≢ []
  unfolding insert_unique
  insert_unique-ne-nil x [] = λ h. cc h
  insert_unique-ne-nil x (y ∷ ys) = ground arith

  unique-ne-nil : (xs : List R) → xs ≢ [] → unique xs ≢ []
  unfolding unique
  unique-ne-nil [] ne = absurd (ne refl)
  unique-ne-nil (x ∷ xs) ne = insert_unique-ne-nil x (unique xs)

  module _ (laws : IsOrdered R) where
    -- With no link at all the demand is out of range.
    no_links-refused :
        (ps : List R) (lam flow_tol : R) (u : Unit {0}) → check_input [] ps lam flow_tol ≢ ok u
    unfolding check_input
    no_links-refused ps lam flow_tol u = ground (arith, laws.lt-eq-not-le lam n.nought)

    thresholds-ne-nil :
        (mus ps : List R) (lam flow_tol : R) (u : Unit {0})
        → check_input mus ps lam flow_tol ≡ ok u
        → thresholds mus ps ≢ []
    unfolding check_input thresholds
    thresholds-ne-nil [] ps lam flow_tol u h = absurd (no_links-refused ps lam flow_tol u h)
    thresholds-ne-nil (mu ∷ mus) [] lam flow_tol u h = ground arith
    thresholds-ne-nil (mu ∷ mus) (p ∷ ps) lam flow_tol u h = λ k. cc k

    best_response_mm1-Catchable :
        (mus ps : List R) (lam flow_tol : R) (max_iter : ℕ)
        → Catchable (best_response_mm1 mus ps lam flow_tol max_iter)
    unfolding best_response_mm1
    best_response_mm1-Catchable mus ps lam flow_tol max_iter =
        Catchable->>= (check_input mus ps lam flow_tol) _
          (check_input-Catchable mus ps lam flow_tol)
          λ u checked. ground (
            arith,
            search-Catchable mus ps lam (unique (thresholds mus ps)) flow_tol max_iter (
                unique-ne-nil (thresholds mus ps)
                  (thresholds-ne-nil mus ps lam flow_tol u checked)),
          )

    over_available-Catchable :
        (mus ps : List R) (lam flow_tol : R) (max_iter : ℕ)
        → length ps ≡ length mus
        → Catchable (over_available mus ps lam flow_tol max_iter)
    unfolding over_available
    over_available-Catchable mus ps lam flow_tol max_iter same = rw ((==_iff _ _).1 same) (
        Catchable->>= (best_response_mm1 (compress mus mus) (compress mus ps) lam flow_tol max_iter)
          _ (best_response_mm1-Catchable (compress mus mus) (compress mus ps) lam flow_tol max_iter)
          (λ x found. tt))

    -- With one price for each link, a best response returns or raises what its callers catch.
    pub best_response_available-Catchable :
        (mus ps : List R) (lam flow_tol : R) (max_iter : ℕ)
        → length ps ≡ length mus
        → Catchable (best_response_available mus ps lam flow_tol max_iter)
    unfolding best_response_available
    best_response_available-Catchable mus ps lam flow_tol max_iter same = ground (
      arith,
      best_response_mm1-Catchable mus ps lam flow_tol max_iter,
      over_available-Catchable mus ps lam flow_tol max_iter same,
    )
