-- ===== src/Num/Ring.antt =====
-- Consequences of the ring laws of `Num`.
use traffic_emulator.Common.{◌≡◌, sym, ap, ◌∙◌}
use traffic_emulator.Num.{Num, IsOrdered, ◌⊕◌, ◌⊖◌, ◌⊗◌}

module _ {R : Type 0} ⦃n : Num R⦄ (laws : IsOrdered R) where
  open n use {nought, unit}
  open laws use {
    add_comm, add_assoc, nought-add, sub-add_cancel, add-sub_cancel, mul_comm, unit-mul, mul-add,
  }

  pub add-nought : (a : R) → a ⊕ nought ≡ a
  add-nought a = add_comm a nought ∙ nought-add a

  pub add_left_comm : (a b c : R) → a ⊕ (b ⊕ c) ≡ b ⊕ (a ⊕ c)
  add_left_comm a b c = sym (add_assoc a b c) ∙ ap (λ t. t ⊕ c) (add_comm a b) ∙ add_assoc b a c

  pub add_interchange : (a b c d : R) → (a ⊕ b) ⊕ (c ⊕ d) ≡ (a ⊕ c) ⊕ (b ⊕ d)
  add_interchange a b c d =
      add_assoc a b (c ⊕ d) ∙ ap (◌⊕◌ a) (add_left_comm b c d) ∙ sym (add_assoc a c (b ⊕ d))

  pub add-mul : (a b c : R) → (a ⊕ b) ⊗ c ≡ a ⊗ c ⊕ b ⊗ c
  add-mul a b c = rw (mul_comm (a ⊕ b) c, mul-add, mul_comm c a, mul_comm c b)

  pub eq_sub_of_add : (a b c : R) → a ⊕ b ≡ c → a ≡ c ⊖ b
  eq_sub_of_add a b c h = sym (add-sub_cancel a b) ∙ ap (λ t. t ⊖ b) h

  pub add-sub_cancel_left : (a b : R) → a ⊕ (b ⊖ a) ≡ b
  add-sub_cancel_left a b = add_comm a (b ⊖ a) ∙ sub-add_cancel b a

  pub sub_self : (a : R) → a ⊖ a ≡ nought
  sub_self a = sym (eq_sub_of_add nought a a (nought-add a))

  pub mul-sub_add : (a b c : R) → a ⊗ (b ⊖ c) ⊕ a ⊗ c ≡ a ⊗ b
  mul-sub_add a b c = sym (mul-add a (b ⊖ c) c) ∙ ap (◌⊗◌ a) (sub-add_cancel b c)

  pub mul-nought : (a : R) → a ⊗ nought ≡ nought
  mul-nought a =
      eq_sub_of_add (a ⊗ nought) (a ⊗ nought) (a ⊗ nought)
        (sym (mul-add a nought nought) ∙ ap (◌⊗◌ a) (nought-add nought))
      ∙ sub_self (a ⊗ nought)

  pub sum_of_sub : (a b c d : R) → (a ⊖ b) ⊕ (c ⊖ d) ≡ (a ⊕ c) ⊖ (b ⊕ d)
  sum_of_sub a b c d = eq_sub_of_add _ (b ⊕ d) (a ⊕ c) (
      add_interchange (a ⊖ b) (c ⊖ d) b d
      ∙ ap (λ t. t ⊕ (c ⊖ d ⊕ d)) (sub-add_cancel a b)
      ∙ ap (◌⊕◌ a) (sub-add_cancel c d))

  pub add-neg : (a b : R) → a ⊕ (nought ⊖ b) ≡ a ⊖ b
  add-neg a b =
      eq_sub_of_add _ b a
        (add_assoc a (nought ⊖ b) b ∙ ap (◌⊕◌ a) (sub-add_cancel nought b) ∙ add-nought a)

  pub neg-sub : (a b : R) → nought ⊖ (a ⊖ b) ≡ b ⊖ a
  neg-sub a b = sym (
      eq_sub_of_add (b ⊖ a) (a ⊖ b) nought
        (sum_of_sub b a a b ∙ ap (λ t. t ⊖ (a ⊕ b)) (add_comm b a) ∙ sub_self (a ⊕ b)))
