-- ===== src/Control/Feasibility.antt =====
-- src/controller/feasibility.py: `transportation_feasibility`. The linear program is built as the source
-- builds it; scipy's `linprog` is a parameter, which gives a solution or fails. Every coefficient is 1,
-- so a row of a sparse matrix is the list of its columns.
pub mod Headroom
use traffic_emulator.Common.{
  ℕ, zero, suc, ◌+◌, ◌*◌, Bool, true, false, not, Option, none, some, List, [], ◌∷◌, ◌++◌, map,
  length, drop, zip_with, if◌then◌else◌, Result, ok, err, value_error, raise_if, or_raise, ◌>>=◌,
  ◌>>◌,
}
use traffic_emulator.Num.{Num, ◌⊖◌, ◌⊗◌, max, min}
use traffic_emulator.Num.Elementary.{Elementary}
use traffic_emulator.Num.Vectors.{column_sums}
use traffic_emulator.Model.Topology.{has_shape}
use traffic_emulator.Control.Synchronous.{minimum}

pub record LinearProgram (R : Type 0) : Type 0 where
  -- the one variable to maximize
  pub objective : ℕ
  pub a_ub : List (List ℕ)
  pub b_ub : List R
  pub a_eq : List (List ℕ)
  pub b_eq : List R
  -- a lower bound, and an upper one if there is one
  pub bounds : List (R × Option R)

abbrev pub count_from : ℕ → ℕ → List ℕ
count_from i zero = []
count_from i (suc k) = i ∷ count_from (suc i) k

module _ {A : Type 0} where
  abbrev pub take : ℕ → List A → List A
  take zero xs = []
  take (suc k) [] = []
  take (suc k) (x ∷ xs) = x ∷ take k xs

  -- `x.reshape(m, n)`
  abbrev pub reshape : ℕ → ℕ → List A → List (List A)
  reshape zero n xs = []
  reshape (suc m) n xs = take n xs ∷ reshape m n (drop n xs)

-- the variables of row i, and of column j: variable i * n + j is the flow from i to j
abbrev pub row_variables : ℕ → ℕ → List ℕ
row_variables n i = count_from (i * n) n

abbrev pub column_variables : ℕ → ℕ → ℕ → List ℕ
column_variables m n j = map (λ i. i * n + j) (count_from 0 m)

module _ {R : Type 0} ⦃n : Num R⦄ where
  -- the constraints `lambda_ij + h <= mu_ij` of the links that exist, from variable k
  abbrev pub link_row : ℕ → ℕ → List Bool → List R → List (List ℕ × R)
  link_row h k [] mus = []
  link_row h k (route ∷ mask) [] = []
  link_row h k (route ∷ mask) (mu ∷ mus) =
      let rest = link_row h (suc k) mask mus in if route then (k ∷ h ∷ [], mu) ∷ rest else rest

  abbrev pub link_rows : ℕ → ℕ → ℕ → List (List Bool) → List (List R) → List (List ℕ × R)
  link_rows h width k [] links = []
  link_rows h width k (mask ∷ masks) [] = []
  link_rows h width k (mask ∷ masks) (mus ∷ links) =
      link_row h k mask mus ++ link_rows h width (k + width) masks links

  abbrev pub bounds_row : List Bool → List (R × Option R)
  bounds_row = map λ route. if route then (n.nought, none) else (n.nought, some n.nought)

  abbrev pub bounds_rows : List (List Bool) → List (R × Option R)
  bounds_rows [] = []
  bounds_rows (mask ∷ masks) = bounds_row mask ++ bounds_rows masks

  unfoldable pub transportation_program :
      List R → List (List R) → List R → R → List (List Bool) → LinearProgram R
  transportation_program lambdas links mus margin mask =
      let m = length links in
      let width = length mus in
      let headroom = m * width in
      let over_links = link_rows headroom width 0 mask links in
      record {
        objective = headroom;
        a_ub =
            map (λ j. column_variables m width j ++ headroom ∷ []) (count_from 0 width)
            ++ map (λ (r : List ℕ × R). r.0) over_links;
        b_ub = mus ++ map (λ (r : List ℕ × R). r.1) over_links;
        a_eq = map (row_variables width) (count_from 0 m);
        b_eq = lambdas;
        bounds = bounds_rows mask ++ (margin, none) ∷ [];
      }

  -- `np.where(route_mask, np.maximum(x, 0.0), 0.0)`
  abbrev pub clip_row : List Bool → List R → List R
  clip_row = zip_with λ route x. if route then max x n.nought else n.nought

  abbrev pub clipped : List (List Bool) → List (List R) → List (List R)
  clipped = zip_with clip_row

  -- `(mu_links - routing)[route_mask]`
  abbrev pub gaps_row : List Bool → List R → List R → List R
  gaps_row [] mus flows = []
  gaps_row (route ∷ mask) [] flows = []
  gaps_row (route ∷ mask) (mu ∷ mus) [] = []
  gaps_row (route ∷ mask) (mu ∷ mus) (x ∷ flows) =
      let rest = gaps_row mask mus flows in if route then (mu ⊖ x) ∷ rest else rest

  abbrev pub gaps : List (List Bool) → List (List R) → List (List R) → List R
  gaps [] links routing = []
  gaps (mask ∷ masks) [] routing = []
  gaps (mask ∷ masks) (mus ∷ links) [] = []
  gaps (mask ∷ masks) (mus ∷ links) (flows ∷ routing) =
      gaps_row mask mus flows ++ gaps masks links routing

  -- `min(link_headroom, broker_headroom) < bound`: no links have infinite headroom
  abbrev pub too_tight : R → List R → R → Result Bool
  too_tight bound [] broker_headroom = ok (n.lt broker_headroom bound)
  too_tight bound (gap ∷ more) broker_headroom = do
    link_headroom ← minimum (gap ∷ more)
    ok (n.lt (min link_headroom broker_headroom) bound)

  -- the default mask
  abbrev pub available : List (List R) → List (List Bool)
  available = map (map λ mu. n.lt n.nought mu)

  abbrev pub mask_of : Option (List (List Bool)) → List (List R) → List (List Bool)
  mask_of none links = available links
  mask_of (some mask) links = mask

  -- the routing of a solution, if it keeps half of the margin
  abbrev pub accept_routing :
      R → List (List R) → List R → List (List Bool) → List R → Result (List (List R))
  accept_routing bound links mus mask x = do
    let routing = clipped mask (reshape (length links) (length mus) x)
    broker_headroom ← minimum (zip_with ◌⊖◌ mus (column_sums routing))
    tight ← too_tight bound (gaps mask links routing) broker_headroom
    raise_if tight value_error
    ok routing

  module _ ⦃e : Elementary R⦄ (linprog : LinearProgram R → Option (List R)) where
    unfoldable pub transportation_feasibility :
        List R → List (List R) → List R → R → Option (List (List Bool)) → Result (List (List R))
    transportation_feasibility lambdas links mus margin route_mask = do
      let mask = mask_of route_mask links
      raise_if (not (has_shape (length links) (length mus) mask)) value_error
      x ← or_raise (linprog (transportation_program lambdas links mus margin mask)) value_error
      accept_routing (e.literal 5 1 ⊗ margin) links mus mask x
