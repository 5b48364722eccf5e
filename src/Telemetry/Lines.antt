-- ===== src/Telemetry/Lines.antt =====
-- Splitting a growing file into its complete lines.
use traffic_emulator.Common.{
  ℕ, ◌≡◌, ◌≢◌, refl, ap, ◌∙◌, false, List, [], ◌∷◌, ◌++◌, ◌==◌, inl, inr, Bool-cases,
}
use traffic_emulator.Telemetry.{newline, put_first, put_char, split_lines}

-- A chunk that ends with a newline, or is empty: it has these lines and no rest.
abbrev pub Complete : List (List ℕ) → List ℕ → Type 0
Complete lines cs = split_lines cs ≡ (lines, [])

cons-ne-nil : {A : Type 0} (x : A) (xs : List A) → x ∷ xs ≢ []
cons-ne-nil x xs h = cc

-- If nothing is left over with a character put first, nothing was without it.
peel :
    (c : ℕ) (lines : List (List ℕ)) (rest : List ℕ) (all_lines : List (List ℕ))
    → put_char c (lines, rest) ≡ (all_lines, [])
    → (rest ≡ [])
      × ((more : List (List ℕ)) (left : List ℕ)
          → put_char c (lines ++ more, left) ≡ (all_lines ++ more, left))
peel c lines rest all_lines h = elim (Bool-cases (c == newline)) [
  | inl ends ↦
      let h' : ([] ∷ lines, rest) ≡ (all_lines, []) = rw ends at h in
      (
        ap (λ r. r.1) h',
        λ more left. rw ends (ap (λ (ls : List (List ℕ)). (ls ++ more, left)) (ap (λ r. r.0) h')),
      )
  | inr begins ↦ first begins lines (rw begins at h)
]
  where
    first :
        (c == newline) ≡ false
        → (ls : List (List ℕ)) → put_first c ls rest ≡ (all_lines, [])
        → (rest ≡ [])
          × ((more : List (List ℕ)) (left : List ℕ)
              → put_char c (ls ++ more, left) ≡ (all_lines ++ more, left))
    first begins [] k = absurd (cons-ne-nil c rest (ap (λ r. r.1) k))
    first begins (l ∷ ls) k = (
      ap (λ r. r.1) k,
      λ more left. rw begins (ap (λ (xs : List (List ℕ)). (xs ++ more, left)) (ap (λ r. r.0) k)),
    )

-- Complete lines and then a chunk: the chunk is split on its own.
pub split_lines-append :
    (lines : List (List ℕ)) (cs ds : List ℕ)
    → Complete lines cs
    → split_lines (cs ++ ds) ≡ (lines ++ (split_lines ds).0, (split_lines ds).1)
split_lines-append lines [] ds h =
    ap (λ (ls : List (List ℕ)). (ls ++ (split_lines ds).0, (split_lines ds).1)) (ap (λ r. r.0) h)
split_lines-append lines (c ∷ cs) ds h =
    let (nothing_left, longer) = peel c (split_lines cs).0 (split_lines cs).1 lines h in
    ap (put_char c) (
      split_lines-append (split_lines cs).0 cs ds
        (ap (λ (r : List ℕ). ((split_lines cs).0, r)) nothing_left))
    ∙ longer (split_lines ds).0 (split_lines ds).1

put_char-ne-nil : (c : ℕ) (r : List (List ℕ) × List ℕ) → put_char c r ≢ ([], [])
put_char-ne-nil c (lines, rest) h = elim (Bool-cases (c == newline)) [
  | inl ends ↦ cons-ne-nil [] lines (ap (λ r. r.0) (rw ends at h))
  | inr begins ↦ first lines (rw begins at h)
]
  where
    first : (ls : List (List ℕ)) → put_first c ls rest ≢ ([], [])
    first [] k = cons-ne-nil c rest (ap (λ r. r.1) k)
    first (l ∷ ls) k = cons-ne-nil (c ∷ l) ls (ap (λ r. r.0) k)

nothing-Complete : (cs : List ℕ) → Complete [] cs → cs ≡ []
nothing-Complete [] h = refl
nothing-Complete (c ∷ cs) h = absurd (put_char-ne-nil c (split_lines cs) h)

-- What a chunk splits into, as its complete part and the rest.
abbrev pub Parts : List ℕ → List (List ℕ) × List ℕ → Type 0
Parts cs (lines, rest) = (part : List ℕ) × (cs ≡ part ++ rest) × Complete lines part

Parts-cons :
    (c : ℕ) (cs : List ℕ) (r : List (List ℕ) × List ℕ) → Parts cs r → Parts (c ∷ cs) (put_char c r)
Parts-cons c cs (lines, rest) (part, e, k) = elim (Bool-cases (c == newline)) [
  | inl ends ↦ rw ends (c ∷ part, ap (c ∷◌) e, ap (put_char c) k ∙ rw ends refl)
  | inr begins ↦ rw begins (first lines k begins)
]
  where
    first :
        (ls : List (List ℕ))
        → Complete ls part
        → (c == newline) ≡ false
        → Parts (c ∷ cs) (put_first c ls rest)
    first [] h begins = ([], ap (c ∷◌) (e ∙ ap (λ p. p ++ rest) (nothing-Complete part h)), refl)
    first (l ∷ ls) h begins = (c ∷ part, ap (c ∷◌) e, ap (put_char c) h ∙ rw begins refl)

pub split_lines-Parts : (cs : List ℕ) → Parts cs (split_lines cs)
split_lines-Parts [] = ([], refl, refl)
split_lines-Parts (c ∷ cs) = Parts-cons c cs (split_lines cs) (split_lines-Parts cs)
