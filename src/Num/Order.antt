-- ===== src/Num/Order.antt =====
-- Consequences of the order laws of `Num`.
use traffic_emulator.Common.{◌≡◌, subst, ◌∙◌, false, arith}
use traffic_emulator.Num.{Num, IsOrdered, ◌⊕◌, ◌⊖◌, ◌⊗◌, ◌≼◌, ◌≺◌, min, max}
use traffic_emulator.Num.Ring.{mul-sub_add, add-neg, sub_self}

module _ {R : Type 0} ⦃n : Num R⦄ (laws : IsOrdered R) where
  open n use {nought, unit}
  open laws use {
    add_comm, nought-add, sub-add_cancel, add-sub_cancel, le_refl, le_trans, le_total, lt-eq-not-le,
    add_le_add_right, mul_nonneg, nought-lt-unit, mul_comm, unit-mul,
  }

  pub le_of_lt : (a b : R) → a ≺ b → a ≼ b
  le_of_lt a b h = ground (arith, le_total a b, lt-eq-not-le a b)

  pub le_of_not_lt : (a b : R) → n.lt a b ≡ false → b ≼ a
  le_of_not_lt a b h = ground (arith, lt-eq-not-le a b)

  pub add_le_add : (a b c d : R) → a ≼ b → c ≼ d → a ⊕ c ≼ b ⊕ d
  add_le_add a b c d h k =
      le_trans (a ⊕ c) (b ⊕ c) (b ⊕ d) (add_le_add_right a b c h)
        (rw (add_comm b c, add_comm b d) (add_le_add_right c d b k))

  pub sub_nonneg : (a b : R) → a ≼ b → nought ≼ b ⊖ a
  sub_nonneg a b h =
      subst (λ s. s ≼ b ⊖ a) (add-neg laws a a ∙ sub_self laws a)
        (subst (λ s. a ⊕ (nought ⊖ a) ≼ s) (add-neg laws b a) (add_le_add_right a b (nought ⊖ a) h))

  pub nonneg_of_sub : (a b : R) → nought ≼ b ⊖ a → a ≼ b
  nonneg_of_sub a b h =
      subst (λ s. s ≼ b) (nought-add a)
        (subst (λ s. nought ⊕ a ≼ s) (sub-add_cancel b a) (add_le_add_right nought (b ⊖ a) a h))

  pub nought-le-unit : nought ≼ unit
  nought-le-unit = le_of_lt nought unit nought-lt-unit

  pub mul_le_mul_left : (t a b : R) → nought ≼ t → a ≼ b → t ⊗ a ≼ t ⊗ b
  mul_le_mul_left t a b ht h =
      subst (λ s. t ⊗ a ≼ s) (mul-sub_add laws t b a)
        (subst (λ s. s ≼ t ⊗ (b ⊖ a) ⊕ t ⊗ a) (nought-add (t ⊗ a))
          (add_le_add_right nought (t ⊗ (b ⊖ a)) (t ⊗ a)
            (mul_nonneg t (b ⊖ a) ht (sub_nonneg a b h))))

  pub min_le_left : (a b : R) → min a b ≼ a
  min_le_left a b = ground (arith, le_total a b, le_refl a)

  pub min_le_right : (a b : R) → min a b ≼ b
  min_le_right a b = ground (arith, le_total a b, le_refl b)

  pub le-min : (a b c : R) → c ≼ a → c ≼ b → c ≼ min a b
  le-min a b c h k = ground arith

  pub le-max_left : (a b : R) → a ≼ max a b
  le-max_left a b = ground (arith, le_total a b, le_refl a)

  pub le-max_right : (a b : R) → b ≼ max a b
  le-max_right a b = ground (arith, le_total a b, le_refl b)

  pub max-le : (a b c : R) → a ≼ c → b ≼ c → max a b ≼ c
  max-le a b c h k = ground arith

  pub sub_nonpos : (a b : R) → a ≼ b → a ⊖ b ≼ nought
  sub_nonpos a b h =
      subst (λ s. a ⊖ b ≼ s) (add-neg laws b b ∙ sub_self laws b)
        (subst (λ s. s ≼ b ⊕ (nought ⊖ b)) (add-neg laws a b) (add_le_add_right a b (nought ⊖ b) h))

  pub lt_of_not_le : (a b : R) → n.le b a ≡ false → a ≺ b
  lt_of_not_le a b h = ground (arith, lt-eq-not-le a b)

  pub mul_le_mul_right : (t a b : R) → nought ≼ t → a ≼ b → a ⊗ t ≼ b ⊗ t
  mul_le_mul_right t a b ht h = rw (mul_comm a t, mul_comm b t) (mul_le_mul_left t a b ht h)

  -- A share in [0, 1] of a share in [0, 1] is one, and of what is not negative is no more than it.
  pub mul_le_of_le_unit : (t a : R) → t ≼ unit → nought ≼ a → t ⊗ a ≼ a
  mul_le_of_le_unit t a h ha = subst (λ s. t ⊗ a ≼ s) (unit-mul a) (mul_le_mul_right a t unit ha h)

  pub le_of_sub_nonpos : (a b : R) → a ⊖ b ≼ nought → a ≼ b
  le_of_sub_nonpos a b h =
      subst (λ s. s ≼ b) (sub-add_cancel a b)
        (subst (λ s. a ⊖ b ⊕ b ≼ s) (nought-add b) (add_le_add_right (a ⊖ b) nought b h))
