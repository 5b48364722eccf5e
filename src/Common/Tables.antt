-- ===== src/Common/Tables.antt =====
-- Tables of one shape, with reads and writes at a pair of indices.
use traffic_emulator.Common.{
  ◌⊎◌, inl, inr, ap, ℕ, zero, suc, ◌<◌, ◌≡◌, refl, ◌∙◌, Bool, true, false, not, ◌&&◌, some, List,
  [], ◌∷◌, length, get_elem?, set, length-set, get_elem?_total, replicate, length-replicate,
  zip_with, arith, ◌==◌, if◌then◌else◌,
}
use traffic_emulator.Common.Sums.{get2, set2}

-- A table of `rows` rows of `columns` entries.
abbrev pub IsTable {ℓ} : {A : Type ℓ} → ℕ → ℕ → List (List A) → Type 0
IsTable zero columns [] = Unit
IsTable zero columns (row ∷ table) = ⊥
IsTable (suc rows) columns [] = ⊥
IsTable (suc rows) columns (row ∷ table) = (length row ≡ columns) × IsTable rows columns table

pub get2_total {ℓ} :
    {A : Type ℓ} (rows columns : ℕ) (table : List (List A)) (i j : ℕ)
    → IsTable rows columns table
    → i < rows
    → j < columns
    → (a : A) × (get2 table i j ≡ some a)
get2_total zero columns table i j t hi hj = absurd (omega arith)
get2_total (suc rows) columns [] i j t hi hj = absurd t
get2_total (suc rows) columns (row ∷ table) zero j t hi hj = get_elem?_total row j (omega arith)
get2_total (suc rows) columns (row ∷ table) (suc i) j t hi hj =
    get2_total rows columns table i j t.1 (omega arith) hj

pub set2-IsTable {ℓ} :
    {A : Type ℓ} (rows columns : ℕ) (table : List (List A)) (i j : ℕ) (a : A)
    → IsTable rows columns table
    → IsTable rows columns (set2 table i j a)
set2-IsTable zero columns [] i j a t = tt
set2-IsTable zero columns (row ∷ table) i j a t = absurd t
set2-IsTable (suc rows) columns [] i j a t = absurd t
set2-IsTable (suc rows) columns (row ∷ table) zero j a t = (length-set row j a ∙ t.0, t.1)
set2-IsTable (suc rows) columns (row ∷ table) (suc i) j a t =
    (t.0, set2-IsTable rows columns table i j a t.1)

pub replicate-IsTable {ℓ} :
    {A : Type ℓ} (rows columns : ℕ) (a : A)
    → IsTable rows columns (replicate rows (replicate columns a))
replicate-IsTable zero columns a = tt
replicate-IsTable (suc rows) columns a =
    (length-replicate columns a, replicate-IsTable rows columns a)

abbrev pub same_cell : ℕ → ℕ → ℕ → ℕ → Bool
same_cell i j k l = (i == k) && (j == l)

get_elem?-set {ℓ} :
    {A : Type ℓ} (xs : List A) (j l : ℕ) (a b : A)
    → get_elem? xs l ≡ some b
    → get_elem? (set xs j a) l ≡ (if j == l then some a else some b)
get_elem?-set [] j l a b h = cc
get_elem?-set (x ∷ xs) zero zero a b h = refl
get_elem?-set (x ∷ xs) zero (suc l) a b h = ground arith
get_elem?-set (x ∷ xs) (suc j) zero a b h = ground arith
get_elem?-set (x ∷ xs) (suc j) (suc l) a b h = ground (arith, get_elem?-set xs j l a b h)

-- Reading after a write, at a cell that is there.
pub get2-set2 {ℓ} :
    {A : Type ℓ} (table : List (List A)) (i j k l : ℕ) (a b : A)
    → get2 table k l ≡ some b
    → get2 (set2 table i j a) k l ≡ (if same_cell i j k l then some a else some b)
get2-set2 [] i j k l a b h = cc
get2-set2 (row ∷ table) zero j zero l a b h = get_elem?-set row j l a b h
get2-set2 (row ∷ table) zero j (suc k) l a b h = ground arith
get2-set2 (row ∷ table) (suc i) j zero l a b h = ground arith
get2-set2 (row ∷ table) (suc i) j (suc k) l a b h = ground (arith, get2-set2 table i j k l a b h)

get_elem?-zip_with {ℓ κ μ} :
    {A : Type ℓ} {B : Type κ} {C : Type μ} (f : A → B → C) (xs : List A) (ys : List B) (j : ℕ)
    (a : A) (b : B)
    → get_elem? xs j ≡ some a
    → get_elem? ys j ≡ some b
    → get_elem? (zip_with f xs ys) j ≡ some (f a b)
get_elem?-zip_with f [] ys j a b h k = cc
get_elem?-zip_with f (x ∷ xs) [] j a b h k = cc
get_elem?-zip_with f (x ∷ xs) (y ∷ ys) zero a b h k = cc
get_elem?-zip_with f (x ∷ xs) (y ∷ ys) (suc j) a b h k = get_elem?-zip_with f xs ys j a b h k

pub get2-zip_with {ℓ κ μ} :
    {A : Type ℓ} {B : Type κ} {C : Type μ} (f : A → B → C) (xs : List (List A)) (ys : List (List B))
    (i j : ℕ) (a : A) (b : B)
    → get2 xs i j ≡ some a
    → get2 ys i j ≡ some b
    → get2 (zip_with (zip_with f) xs ys) i j ≡ some (f a b)
get2-zip_with f [] ys i j a b h k = cc
get2-zip_with f (x ∷ xs) [] i j a b h k = cc
get2-zip_with f (x ∷ xs) (y ∷ ys) zero j a b h k = get_elem?-zip_with f x y j a b h k
get2-zip_with f (x ∷ xs) (y ∷ ys) (suc i) j a b h k = get2-zip_with f xs ys i j a b h k

pub get2-set2_here {ℓ} :
    {A : Type ℓ} (table : List (List A)) (i j : ℕ) (a b : A)
    → get2 table i j ≡ some b
    → get2 (set2 table i j a) i j ≡ some a
get2-set2_here table i j a b h = ground (arith, get2-set2 table i j i j a b h)

-- A cell that differs in one table is another cell of the other.
pub get2-set2_apart {ℓ} :
    {A : Type ℓ} (table : List (List A)) (marks : List (List Bool)) (i j k l : ℕ) (a b : A)
    (mark : Bool)
    → get2 marks i j ≡ some mark
    → get2 marks k l ≡ some (not mark)
    → get2 table k l ≡ some b
    → get2 (set2 table i j a) k l ≡ some b
get2-set2_apart table marks i j k l a b mark there here h =
    ground (arith, get2-set2 table i j k l a b h)

get_elem?-set_unmarked :
    (xs : List Bool) (j l : ℕ)
    → get_elem? (set xs j true) l ≡ some false
    → get_elem? xs l ≡ some false
get_elem?-set_unmarked [] j l h = h
get_elem?-set_unmarked (x ∷ xs) zero zero h = cc
get_elem?-set_unmarked (x ∷ xs) zero (suc l) h = h
get_elem?-set_unmarked (x ∷ xs) (suc j) zero h = h
get_elem?-set_unmarked (x ∷ xs) (suc j) (suc l) h = get_elem?-set_unmarked xs j l h

-- Marking a cell unmarks none.
pub get2-set2_unmarked :
    (marks : List (List Bool)) (i j k l : ℕ)
    → get2 (set2 marks i j true) k l ≡ some false
    → get2 marks k l ≡ some false
get2-set2_unmarked [] i j k l h = h
get2-set2_unmarked (row ∷ marks) zero j zero l h = get_elem?-set_unmarked row j l h
get2-set2_unmarked (row ∷ marks) zero j (suc k) l h = h
get2-set2_unmarked (row ∷ marks) (suc i) j zero l h = h
get2-set2_unmarked (row ∷ marks) (suc i) j (suc k) l h = get2-set2_unmarked marks i j k l h

-- Two filled tables of one shape have the same cells.
pub get2-replicate {ℓ κ} :
    {A : Type ℓ} {B : Type κ} (rows columns i j : ℕ) (a c : A) (b : B)
    → get2 (replicate rows (replicate columns a)) i j ≡ some c
    → get2 (replicate rows (replicate columns b)) i j ≡ some b
get2-replicate zero columns i j a c b h = cc
get2-replicate (suc rows) zero zero j a c b h = cc
get2-replicate (suc rows) (suc columns) zero zero a c b h = refl
get2-replicate (suc rows) (suc columns) zero (suc j) a c b h =
    get2-replicate (suc rows) columns zero j a c b h
get2-replicate (suc rows) columns (suc i) j a c b h = get2-replicate rows columns i j a c b h

pub get_elem?-set_written {ℓ} :
    {A : Type ℓ} (xs : List A) (j l : ℕ) (a b : A)
    → get_elem? (set xs j a) l ≡ some b
    → ((j ≡ l) × (a ≡ b)) ⊎ (((j == l) ≡ false) × (get_elem? xs l ≡ some b))
get_elem?-set_written [] j l a b h = cc
get_elem?-set_written (x ∷ xs) zero zero a b h = inl (refl, cc)
get_elem?-set_written (x ∷ xs) zero (suc l) a b h = inr (ground arith, h)
get_elem?-set_written (x ∷ xs) (suc j) zero a b h = inr (ground arith, h)
get_elem?-set_written (x ∷ xs) (suc j) (suc l) a b h = elim (get_elem?-set_written xs j l a b h) [
  | inl (same, written) ↦ inl (ap suc same, written)
  | inr (other, was) ↦ inr (ground (arith, other), was)
]

-- What is read after a write is what was written, or it was there.
pub get2-set2_written {ℓ} :
    {A : Type ℓ} (table : List (List A)) (i j k l : ℕ) (a b : A)
    → get2 (set2 table i j a) k l ≡ some b
    → ((i ≡ k) × (j ≡ l) × (a ≡ b)) ⊎ ((same_cell i j k l ≡ false) × (get2 table k l ≡ some b))
get2-set2_written [] i j k l a b h = cc
get2-set2_written (row ∷ table) zero j zero l a b h = elim (get_elem?-set_written row j l a b h) [
  | inl (same, written) ↦ inl (refl, same, written)
  | inr (other, was) ↦ inr (ground (arith, other), was)
]
get2-set2_written (row ∷ table) zero j (suc k) l a b h = inr (ground arith, h)
get2-set2_written (row ∷ table) (suc i) j zero l a b h = inr (ground arith, h)
get2-set2_written (row ∷ table) (suc i) j (suc k) l a b h =
    elim (get2-set2_written table i j k l a b h) [
      | inl (same, column, written) ↦ inl (ap suc same, column, written)
      | inr (other, was) ↦ inr (ground (arith, other), was)
    ]
