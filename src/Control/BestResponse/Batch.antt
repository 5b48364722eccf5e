-- ===== src/Control/BestResponse/Batch.antt =====
-- src/controller/best_response.py: `best_response_batch`, with one row of prices for all sources. What
-- the source computes row by row is a function of the row; the bisection goes on for every row until
-- all rows are good enough. A row without a finite threshold carries nothing at any multiplier; its
-- bracket, infinite in the source, starts at 0 here.
pub mod Flows
pub mod Bounds
use traffic_emulator.Common.{
  ℕ, zero, suc, Bool, ◌&&◌, Option, none, some, List, [], ◌∷◌, map, all, zip_with, if◌then◌else◌,
}
use traffic_emulator.Num.{Num, ◌⊕◌, ◌⊖◌, ◌⊗◌, ◌⊘◌, min, max}
use traffic_emulator.Num.Elementary.{Elementary, two, half, abs}
use traffic_emulator.Num.Vectors.{sum}
use traffic_emulator.Control.BestResponse.{is_available}

-- a source's row, with the bracket of its multiplier
pub record Row (R : Type 0) : Type 0 where
  pub row_mus : List R
  pub demand : R
  pub lower : R
  pub upper : R

module _ {R : Type 0} ⦃n : Num R⦄ where
  -- `np.sort` of a row
  abbrev insert_threshold : R → List R → List R
  insert_threshold x [] = x ∷ []
  insert_threshold x (y ∷ ys) = if n.le x y then x ∷ y ∷ ys else y ∷ insert_threshold x ys

  abbrev pub sort_row : List R → List R
  sort_row [] = []
  sort_row (x ∷ xs) = insert_threshold x (sort_row xs)

  module _ ⦃e : Elementary R⦄ where
    -- one element of `allocation`
    unfoldable pub batch_flow : R → R → R → R
    batch_flow alpha mu p =
        let q = (if is_available mu then mu else n.unit) ⊗ (alpha ⊖ p) in
        let x =
          if is_available mu && n.lt n.unit q
          then (n.nought ⊖ mu) ⊗ e.expm1 ((n.nought ⊖ half) ⊗ e.log q)
          else n.nought in
        min x (e.toward_nought mu)

    module _ (ps : List R) where
      abbrev pub flows : List R → R → List R
      flows mus alpha = zip_with (batch_flow alpha) mus ps

      abbrev pub finite_thresholds : List R → List R → List R
      finite_thresholds [] qs = []
      finite_thresholds (mu ∷ mus) [] = []
      finite_thresholds (mu ∷ mus) (p ∷ qs) =
          let rest = finite_thresholds mus qs in
          let threshold = p ⊕ n.unit ⊘ mu in
          if is_available mu && e.is_finite threshold then threshold ∷ rest else rest

      abbrev enough : List R → R → R → Bool
      enough mus lam alpha = n.le lam (sum (flows mus alpha))

      -- the loop over the sorted thresholds: the bracket's start, and its end if one is found
      abbrev pub bracket_row : List R → R → R → List R → R × Option R
      bracket_row mus lam lo [] = (lo, none)
      bracket_row mus lam lo (alpha ∷ rest) =
          let later = bracket_row mus lam alpha rest in
          if enough mus lam alpha then (lo, some alpha) else later

      -- `for _ in range(1024)`; a row that stays open has the bracket's start for its end
      abbrev widen_row : ℕ → List R → R → R → R → R
      widen_row zero mus lam lo step = lo
      widen_row (suc rounds) mus lam lo step =
          let rest = widen_row rounds mus lam lo (step ⊗ two) in
          if enough mus lam (lo ⊕ step) then lo ⊕ step else rest

      abbrev pub closed_row : List R → R → R × Option R → Row R
      closed_row mus lam (lo, some hi) = record {
        row_mus = mus;
        demand = lam;
        lower = lo;
        upper = hi;
      }
      closed_row mus lam (lo, none) = record {
        row_mus = mus;
        demand = lam;
        lower = lo;
        upper = widen_row 1024 mus lam lo n.unit;
      }

      abbrev pub start_row : List R → R → List R → Row R
      start_row mus lam [] = closed_row mus lam (bracket_row mus lam n.nought [])
      start_row mus lam (alpha ∷ rest) = closed_row mus lam (bracket_row mus lam alpha rest)

      unfoldable pub row_of : List R → R → Row R
      row_of mus lam = start_row mus lam (sort_row (finite_thresholds mus ps))

      abbrev pub middle : Row R → List R
      middle row = flows row.row_mus (half ⊗ (row.lower ⊕ row.upper))

      abbrev pub residual : Row R → R
      residual row = sum (middle row) ⊖ row.demand

      abbrev pub is_near : R → Row R → Bool
      is_near flow_tol row = n.le (abs (residual row)) (flow_tol ⊗ max n.unit (abs row.demand))

      unfoldable pub halved : Row R → Row R
      halved row =
          let mid = half ⊗ (row.lower ⊕ row.upper) in
          if n.le n.nought (residual row)
          then record row { upper = mid }
          else record row { lower = mid }

      -- `for _ in range(max_iter)`
      unfoldable pub batch_bisect : R → ℕ → List (Row R) → List (Row R)
      batch_bisect flow_tol zero rows = rows
      batch_bisect flow_tol (suc rounds) rows =
          let rest = batch_bisect flow_tol rounds (map halved rows) in
          if all (is_near flow_tol) rows then rows else rest

      abbrev pub settled : Row R → List R
      settled row =
          if n.le row.demand n.nought then map (λ x. n.nought) (middle row) else middle row

    unfoldable pub best_response_batch : List (List R) → List R → List R → R → ℕ → List (List R)
    unfolding batch_bisect row_of
    best_response_batch mu ps lam flow_tol max_iter =
        map (settled ps) (batch_bisect ps flow_tol max_iter (zip_with (row_of ps) mu lam))
