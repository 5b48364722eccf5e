-- ===== src/Control/BestResponse.antt =====
-- src/controller/best_response.py: `best_response_mm1` and `best_response_available`. The loops over
-- a range recur on the rounds left.
pub mod Batch
pub mod Bounds
pub mod Errors
pub mod Outcome
use traffic_emulator.Common.{
  ℕ, zero, suc, Bool, not, ◌&&◌, ◌||◌, Option, none, some, List, [], ◌∷◌, map, length, all,
  zip_with, if◌then◌else◌, ◌==◌, Result, ok, err, value_error, runtime_error, index_error, raise_if,
  ◌>>=◌, ◌>>◌,
}
use traffic_emulator.Num.{Num, ◌⊕◌, ◌⊖◌, ◌⊗◌, ◌⊘◌, min, max}
use traffic_emulator.Num.Elementary.{Elementary, eq, two, half, abs}
use traffic_emulator.Num.Vectors.{sum}

module _ {R : Type 0} ⦃n : Num R⦄ where
  -- `np.unique(np.sort(...))`: strictly increasing
  pub insert_unique : R → List R → List R
  insert_unique x [] = x ∷ []
  insert_unique x (y ∷ ys) =
      if n.lt x y then x ∷ y ∷ ys else if eq x y then y ∷ ys else y ∷ insert_unique x ys

  pub unique : List R → List R
  unfolding insert_unique
  unique [] = []
  unique (x ∷ xs) = insert_unique x (unique xs)

  pub thresholds : List R → List R → List R
  thresholds = zip_with λ mu p. p ⊕ n.unit ⊘ mu

  module _ ⦃e : Elementary R⦄ where
    -- one component of `allocation_from_pivot`: the threshold form, clipped into [0, mu)
    unfoldable pub allocate : R → R → R → R → R
    allocate delta pivot mu p =
        let q = mu ⊗ ((pivot ⊖ p) ⊕ delta) in
        let raw = (n.nought ⊖ mu) ⊗ e.expm1 ((n.nought ⊖ half) ⊗ e.log q) in
        let x = if n.lt n.unit q then raw else n.nought in min (max x n.nought) (e.toward_nought mu)

    unfoldable pub allocation_from_pivot : List R → List R → R → R → List R
    unfolding allocate
    allocation_from_pivot mus ps delta pivot = zip_with (allocate delta pivot) mus ps

    -- the input checks, in order
    unfoldable pub check_input : List R → List R → R → R → Result (Unit {0})
    check_input mus ps lam flow_tol = do
      raise_if (not (length ps == length mus)) value_error
      raise_if (not (all (λ mu. e.is_finite mu && not (n.le mu n.nought)) mus)) value_error
      raise_if (not (all e.is_finite ps)) value_error
      raise_if (not (e.is_finite lam)) value_error
      raise_if (n.lt lam n.nought || n.le (sum mus) lam) value_error
      raise_if (n.le flow_tol n.nought || not (e.is_finite flow_tol)) value_error

    -- the final check on the best allocation seen, with its error
    settle : R → Option (List R × R) → Result (List R)
    settle tolerance none = err runtime_error
    settle tolerance (some (x, error)) = if n.lt tolerance error then err runtime_error else ok x

    abbrev better : Option (List R × R) → List R → R → Option (List R × R)
    better none x error = some (x, error)
    better (some (best_x, best_error)) x error =
        if n.lt error best_error then some (x, error) else some (best_x, best_error)

    module _ (mus ps : List R) (lam : R) where
      abbrev allocated : R → R → R
      allocated delta pivot = sum (allocation_from_pivot mus ps delta pivot)

      -- the first threshold where the demand is met: the pivot below it, and the bracket's end
      bracket : R → List R → R × Option R
      bracket pivot [] = (pivot, none)
      bracket pivot (next ∷ rest) =
          let candidate = next ⊖ pivot in
          let later = bracket next rest in
          if n.le lam (allocated candidate pivot) then (pivot, some candidate) else later

      -- `for _ in range(1024)`, with its `else`
      widen : ℕ → R → R → Result R
      widen zero pivot hi = err runtime_error
      widen (suc rounds) pivot hi =
          let wider = hi ⊗ two in
          let rest = widen rounds pivot wider in
          if n.le lam (allocated hi pivot)
          then ok hi
          else if e.is_finite wider
          then rest
          else err runtime_error

      -- `for _ in range(max_iter)`
      bisect : ℕ → R → R → R → R → Option (List R × R) → Result (List R)
      unfolding settle
      bisect zero pivot tolerance lo hi best = settle tolerance best
      bisect (suc rounds) pivot tolerance lo hi best =
          let mid = half ⊗ (lo ⊕ hi) in
          let x_mid = allocation_from_pivot mus ps mid pivot in
          let residual = sum x_mid ⊖ lam in
          let error = abs residual in
          let best' = better best x_mid error in
          let lower = bisect rounds pivot tolerance lo mid best' in
          let upper = bisect rounds pivot tolerance mid hi best' in
          if n.le error tolerance
          then ok x_mid
          else if eq mid lo || eq mid hi
          then settle tolerance best'
          else if n.le n.nought residual
          then lower
          else upper

      upper_end : R × Option R → Result (R × R)
      unfolding widen
      upper_end (pivot, some hi) = ok (pivot, hi)
      upper_end (pivot, none) = widen 1024 pivot n.unit >>= λ hi. ok (pivot, hi)

      -- the search once the input is known to be good and the demand not zero
      search_allocation : List R → R → ℕ → Result (List R)
      unfolding bisect upper_end bracket
      search_allocation [] flow_tol max_iter = err index_error
      search_allocation (first ∷ rest) flow_tol max_iter = do
        (pivot, hi) ← upper_end (bracket first rest)
        bisect max_iter pivot (flow_tol ⊗ max n.unit (abs lam)) n.nought hi none

    unfoldable pub best_response_mm1 : List R → List R → R → R → ℕ → Result (List R)
    unfolding search_allocation check_input
    best_response_mm1 mus ps lam flow_tol max_iter =
        check_input mus ps lam flow_tol
        >> (if eq lam n.nought
            then ok (map (λ _. n.nought) mus)
            else search_allocation mus ps lam (unique (thresholds mus ps)) flow_tol max_iter)

    -- `xs[available]` and its inverse `x[available] = ys`
    abbrev pub is_available : R → Bool
    is_available mu = n.lt n.nought mu

    abbrev pub compress : List R → List R → List R
    compress [] xs = []
    compress (mu ∷ mus) [] = []
    compress (mu ∷ mus) (x ∷ xs) =
        let rest = compress mus xs in if is_available mu then x ∷ rest else rest

    abbrev pub scatter : List R → List R → List R
    scatter [] ys = []
    scatter (mu ∷ mus) [] = n.nought ∷ scatter mus []
    scatter (mu ∷ mus) (y ∷ ys) =
        let routed = y ∷ scatter mus ys in
        let missing = n.nought ∷ scatter mus (y ∷ ys) in if is_available mu then routed else missing

    -- the rest of `best_response_available`, when a route is missing
    unfoldable pub over_available : List R → List R → R → R → ℕ → Result (List R)
    over_available mus ps lam flow_tol max_iter = do
      raise_if (not (length ps == length mus)) index_error
      x ← best_response_mm1 (compress mus mus) (compress mus ps) lam flow_tol max_iter
      ok (scatter mus x)

    unfoldable pub best_response_available : List R → List R → R → R → ℕ → Result (List R)
    unfolding over_available
    best_response_available mus ps lam flow_tol max_iter =
        if all is_available mus
        then best_response_mm1 mus ps lam flow_tol max_iter
        else over_available mus ps lam flow_tol max_iter
