-- ===== src/Common/Dict.antt =====
-- A Python dict with integer keys, in insertion order.
use traffic_emulator.Common.Tests.{◌==◌, if◌then◌else◌, Option-cases}
use Prim.Native.Nat.{ℕ, ◌+◌}
use mathlib.Core.Path.{◌≡◌, refl}
use mathlib.Core.Bool.{Bool, true, false, not, ◌&&◌, ◌||◌}
use mathlib.Core.List.{List, [], ◌∷◌}
use mathlib.Core.Logic.{inl, inr}
use mathlib.Core.Option.{Option, none, some}
use native.Mathlib.Omega.{arith}
use traffic_emulator.Common.Sums.{sum_of}

abbrev pub Dict {ℓ} : Type ℓ → Type ℓ
Dict V = List (ℕ × V)

module _ {ℓ} {V : Type ℓ} where
  -- `k in d`
  unfoldable pub contains : ℕ → Dict V → Bool
  contains k [] = false
  contains k ((j, v) ∷ d) = (k == j) || contains k d

  -- `del d[k]`, of every entry with that key
  abbrev pub erase : ℕ → Dict V → Dict V
  erase k [] = []
  erase k ((j, v) ∷ d) = let rest = erase k d in if k == j then rest else (j, v) ∷ rest

  -- `d[k]`
  abbrev pub lookup : ℕ → Dict V → Option V
  lookup k [] = none
  lookup k ((j, v) ∷ d) = let rest = lookup k d in if k == j then some v else rest

  -- `d[k] = v`
  abbrev pub insert : ℕ → V → Dict V → Dict V
  insert k v [] = (k, v) ∷ []
  insert k v ((j, w) ∷ d) = let rest = insert k v d in if k == j then (k, v) ∷ d else (j, w) ∷ rest

  pub contains-insert :
      (j k : ℕ) (v : V) (d : Dict V) → contains j (insert k v d) ≡ ((j == k) || contains j d)
  unfolding contains
  contains-insert j k v [] = refl
  contains-insert j k v ((i, w) ∷ d) = ground (arith, contains-insert j k v d)

  pub contains-erase :
      (j k : ℕ) (d : Dict V) → contains j (erase k d) ≡ (not (j == k) && contains j d)
  unfolding contains
  contains-erase j k [] = ground arith
  contains-erase j k ((i, w) ∷ d) = ground (arith, contains-erase j k d)

  no_entry : (k : ℕ) (d : Dict V) → lookup k d ≡ none → contains k d ≡ false
  unfolding contains
  no_entry k [] h = refl
  no_entry k ((j, v) ∷ d) h = ground (arith, no_entry k d)

  pub lookup_total : (k : ℕ) (d : Dict V) → contains k d ≡ true → (v : V) × (lookup k d ≡ some v)
  lookup_total k d h = elim (Option-cases (lookup k d)) [
    | inl missing ↦ cc (no_entry k d missing)
    | inr found ↦ found
  ]

  pub lookup-insert :
      (j k : ℕ) (v : V) (d : Dict V)
      → lookup j (insert k v d) ≡ (if j == k then some v else lookup j d)
  lookup-insert j k v [] = ground arith
  lookup-insert j k v ((i, w) ∷ d) = ground (arith, lookup-insert j k v d)

  -- the share of an entry in a sum over the values
  abbrev pub share : (V → ℕ) → Option V → ℕ
  share f none = 0
  share f (some v) = f v

  pub sum_of-insert :
      (f : V → ℕ) (k : ℕ) (v : V) (d : Dict V)
      → sum_of (λ (entry : ℕ × V). f entry.1) (insert k v d) + share f (lookup k d)
        ≡ sum_of (λ (entry : ℕ × V). f entry.1) d + f v
  sum_of-insert f k v [] = omega arith
  sum_of-insert f k v ((i, w) ∷ d) = ground (arith, sum_of-insert f k v d)
