-- ===== src/Common/Sums.antt =====
-- Sums of a measure over a list and over a table of lists: the multiset view of the queues.
use Prim.Native.Nat.{ℕ, zero, suc, ◌+◌, ◌≤◌}
use mathlib.Core.Path.{◌≡◌}
use mathlib.Core.List.{List, [], ◌∷◌, ◌++◌}
use mathlib.Core.Option.{Option, none, some}
use native.Mathlib.Omega.{arith}
use traffic_emulator.Common.Lists.{get_elem?, set}

module _ {ℓ} {A : Type ℓ} where
  abbrev pub sum_of : (A → ℕ) → List A → ℕ
  sum_of f [] = 0
  sum_of f (x ∷ xs) = f x + sum_of f xs

  pub sum_of-append : (f : A → ℕ) (xs ys : List A) → sum_of f (xs ++ ys) ≡ sum_of f xs + sum_of f ys
  sum_of-append f [] ys = omega arith
  sum_of-append f (x ∷ xs) ys = omega (arith, sum_of-append f xs ys)

  -- Writing a cell replaces its share of the sum.
  pub sum_of-set :
      (f : A → ℕ) (xs : List A) (i : ℕ) (v w : A)
      → get_elem? xs i ≡ some v
      → sum_of f (set xs i w) + f v ≡ sum_of f xs + f w
  sum_of-set f [] i v w h = cc
  sum_of-set f (x ∷ xs) zero v w h = ground arith
  sum_of-set f (x ∷ xs) (suc i) v w h = omega (arith, sum_of-set f xs i v w h)

  pub le-sum_of :
      (f : A → ℕ) (xs : List A) (i : ℕ) (v : A) → get_elem? xs i ≡ some v → f v ≤ sum_of f xs
  le-sum_of f [] i v h = cc
  le-sum_of f (x ∷ xs) zero v h = ground arith
  le-sum_of f (x ∷ xs) (suc i) v h = omega (arith, le-sum_of f xs i v h)

module _ {ℓ} {A : Type ℓ} where
  -- A table is a list of rows.
  abbrev pub get2 : List (List A) → ℕ → ℕ → Option A
  get2 [] i j = none
  get2 (row ∷ rows) zero j = get_elem? row j
  get2 (row ∷ rows) (suc i) j = get2 rows i j

  -- A write out of bounds changes nothing.
  abbrev pub set2 : List (List A) → ℕ → ℕ → A → List (List A)
  set2 [] i j v = []
  set2 (row ∷ rows) zero j v = set row j v ∷ rows
  set2 (row ∷ rows) (suc i) j v = row ∷ set2 rows i j v

  abbrev pub sum2_of : (A → ℕ) → List (List A) → ℕ
  sum2_of f [] = 0
  sum2_of f (row ∷ rows) = sum_of f row + sum2_of f rows

  pub sum2_of-set2 :
      (f : A → ℕ) (rows : List (List A)) (i j : ℕ) (v w : A)
      → get2 rows i j ≡ some v
      → sum2_of f (set2 rows i j w) + f v ≡ sum2_of f rows + f w
  sum2_of-set2 f [] i j v w h = cc
  sum2_of-set2 f (row ∷ rows) zero j v w h = omega (arith, sum_of-set f row j v w h)
  sum2_of-set2 f (row ∷ rows) (suc i) j v w h = omega (arith, sum2_of-set2 f rows i j v w h)

  pub le-sum2_of :
      (f : A → ℕ) (rows : List (List A)) (i j : ℕ) (v : A)
      → get2 rows i j ≡ some v
      → f v ≤ sum2_of f rows
  le-sum2_of f [] i j v h = cc
  le-sum2_of f (row ∷ rows) zero j v h = omega (arith, le-sum_of f row j v h)
  le-sum2_of f (row ∷ rows) (suc i) j v h = omega (arith, le-sum2_of f rows i j v h)
