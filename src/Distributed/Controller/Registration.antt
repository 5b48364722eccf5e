-- ===== src/Distributed/Controller/Registration.antt =====
-- The slots that instances get: each within the topology, no two alike, kept for ever.
use traffic_emulator.Common.{
  ℕ, suc, ◌+◌, ◌≤◌, ◌<◌, ◌≡◌, ◌≢◌, refl, sym, ap, ◌∙◌, Option, none, some, [], ◌∷◌, length, leb,
  leb→le, ◌==◌, ==_iff, inl, inr, Bool-cases, Option-cases, arith,
}
use traffic_emulator.Common.Dict.{Dict, lookup, insert, lookup-insert}
use traffic_emulator.Distributed.Controller.{assign}

-- The entries are numbered in their order, from `i`.
abbrev pub Numbered : ℕ → Dict ℕ → Type 0
Numbered i [] = Unit
Numbered i ((name, j) ∷ slots) = (j ≡ i) × Numbered (suc i) slots

some-ne-none : (v : ℕ) → some v ≢ none
some-ne-none v h = cc

some_injective : {v w : ℕ} → some v ≡ some w → v ≡ w
some_injective h = cc

none-ne-some : (v : ℕ) → none ≢ some v
none-ne-some v h = cc

pub Numbered-range :
    (i : ℕ) (slots : Dict ℕ) (name j : ℕ)
    → Numbered i slots
    → lookup name slots ≡ some j
    → (i ≤ j) × (j < i + length slots)
Numbered-range i [] name j g h = cc
Numbered-range i ((k, v) ∷ slots) name j g h =
    ground (arith, Numbered-range (suc i) slots name j g.1)

Numbered-distinct :
    (i : ℕ) (slots : Dict ℕ) (a b j : ℕ)
    → Numbered i slots
    → lookup a slots ≡ some j
    → lookup b slots ≡ some j
    → a ≡ b
Numbered-distinct i [] a b j g h k = cc
Numbered-distinct i ((name, v) ∷ slots) a b j g h k = ground (
  arith,
  Numbered-distinct (suc i) slots a b j g.1,
  Numbered-range (suc i) slots a j g.1,
  Numbered-range (suc i) slots b j g.1,
)

Numbered-insert :
    (i name v : ℕ) (slots : Dict ℕ)
    → Numbered i slots
    → lookup name slots ≡ none
    → v ≡ i + length slots
    → Numbered i (insert name v slots) × (length (insert name v slots) ≡ suc (length slots))
Numbered-insert i name v [] g h e = ((omega arith, tt), refl)
Numbered-insert i name v ((k, w) ∷ slots) g h e = elim (Bool-cases (name == k)) [
  | inl same ↦ absurd (some-ne-none w (rw same at h))
  | inr other ↦
      let (numbered, longer) =
        Numbered-insert (suc i) name v slots g.1 (rw other at h) (omega arith) in
      rw other ((g.0, numbered), ap suc longer)
]

-- what `assign` gives an instance, and what it leaves
pub record IsAssigned (limit name : ℕ) (slots : Dict ℕ) (r : Option ℕ × Dict ℕ) : Type 0 where
  pub numbered : Numbered 0 r.1
  pub bounded : length r.1 ≤ limit
  pub distinct : (a b j : ℕ) → lookup a r.1 ≡ some j → lookup b r.1 ≡ some j → a ≡ b
  pub kept : (a j : ℕ) → lookup a slots ≡ some j → lookup a r.1 ≡ some j
  pub given : (j : ℕ) → r.0 ≡ some j → (lookup name r.1 ≡ some j) × (j < limit)
  pub known : (j : ℕ) → lookup name slots ≡ some j → (r.0 ≡ some j) × (r.1 ≡ slots)
  pub new : lookup name slots ≡ none → length slots < limit → r.0 ≡ some (length slots)
  pub full : r.0 ≡ none → (r.1 ≡ slots) × (length slots ≡ limit)

-- From slots that are numbered in their order and at most `limit`: an instance gets the slot that it has,
-- or else the next free number below the limit, and none only when all are taken, when nothing changes.
-- Afterwards the slots are numbered and within the limit again, no two instances share one, and every
-- instance has the slot that it had.
pub assign-IsAssigned :
    (limit name : ℕ) (slots : Dict ℕ)
    → Numbered 0 slots
    → length slots ≤ limit
    → IsAssigned limit name slots (assign limit name slots)
unfolding assign
assign-IsAssigned limit name slots g h = elim (Option-cases (lookup name slots)) [
  | inr (j, known) ↦
      rw (known, assign)
        (record {
          numbered = g;
          bounded = h;
          distinct = λ a b j'. Numbered-distinct 0 slots a b j' g;
          kept = λ a j' e. e;
          given = λ j' e.
              let known' : lookup name slots ≡ some j' = known ∙ e in
              (known', omega (arith, Numbered-range 0 slots name j' g known'));
          known = λ j' e. (sym known ∙ e, refl);
          new = λ e. absurd (some-ne-none j (sym known ∙ e));
          full = λ e. absurd (some-ne-none j e);
        })
  | inl new ↦ elim (Bool-cases (leb limit (length slots))) [
    | inl full ↦
        rw (new, full, assign)
          (record {
            numbered = g;
            bounded = h;
            distinct = λ a b j'. Numbered-distinct 0 slots a b j' g;
            kept = λ a j' e. e;
            given = λ j' e. absurd (none-ne-some j' e);
            known = λ j' e. absurd (none-ne-some j' (sym new ∙ e));
            new = λ e less. absurd (omega (arith, less, leb→le limit (length slots) full));
            full = λ e. (refl, omega (arith, leb→le limit (length slots) full));
          })
    | inr room ↦
        let after = insert name (length slots) slots in
        let (numbered, longer) = Numbered-insert 0 name (length slots) slots g new (omega arith) in
        let left : length slots < limit = ground arith in
        rw (new, room, assign)
          (record {
            numbered = numbered;
            bounded = omega arith;
            distinct = λ a b j'. Numbered-distinct 0 after a b j' numbered;
            kept = λ a j' e. elim (Bool-cases (a == name)) [
              | inl same ↦ absurd (
                  none-ne-some j'
                    (sym new ∙ ap (λ i. lookup i slots) (sym ((==_iff a name).0 same)) ∙ e))
              | inr other ↦ lookup-insert a name (length slots) slots ∙ rw other e
            ];
            given = λ j' e. (
              lookup-insert name name (length slots) slots ∙ rw ((==_iff name name).1 refl) e,
              omega (arith, some_injective e),
            );
            known = λ j' e. absurd (none-ne-some j' (sym new ∙ e));
            new = λ e less. refl;
            full = λ e. absurd (some-ne-none (length slots) e);
          })
  ]
]
