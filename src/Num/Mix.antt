-- ===== src/Num/Mix.antt =====
-- The damped update `(1 - t) * x + t * y`, which the prices and the routing take.
use traffic_emulator.Common.{◌≡◌, sym, ap, subst, ◌∙◌}
use traffic_emulator.Num.{Num, IsOrdered, ◌⊕◌, ◌⊖◌, ◌⊗◌, ◌≼◌}
use traffic_emulator.Num.Ring.{add_interchange, add-mul, add-sub_cancel_left}
use traffic_emulator.Num.Order.{sub_nonneg, add_le_add, mul_le_mul_left}

module _ {R : Type 0} ⦃n : Num R⦄ where
  unfoldable pub mix : R → R → R → R
  mix t x y = (n.unit ⊖ t) ⊗ x ⊕ t ⊗ y

module _ {R : Type 0} ⦃n : Num R⦄ (laws : IsOrdered R) where
  open n use {nought, unit}
  open laws use {add_comm, add_assoc, sub-add_cancel, unit-mul, mul-add, le_refl, le_trans}

  pub mix_self : (t x : R) → mix t x x ≡ x
  unfolding mix
  mix_self t x =
      sym (add-mul laws (unit ⊖ t) t x) ∙ ap (λ s. s ⊗ x) (sub-add_cancel unit t) ∙ unit-mul x

  pub mix-add : (t x x' y y' : R) → mix t (x ⊕ x') (y ⊕ y') ≡ mix t x y ⊕ mix t x' y'
  unfolding mix
  mix-add t x x' y y' =
      ap (λ s. s ⊕ t ⊗ (y ⊕ y')) (mul-add (unit ⊖ t) x x')
      ∙ ap (◌⊕◌ ((unit ⊖ t) ⊗ x ⊕ (unit ⊖ t) ⊗ x')) (mul-add t y y')
      ∙ add_interchange laws _ _ _ _

  -- The update moves `x` by a share of its distance to `y`.
  pub mix-eq-add : (t x y : R) → mix t x y ≡ x ⊕ t ⊗ (y ⊖ x)
  mix-eq-add t x y =
      ap (mix t x) (sym (add-sub_cancel_left laws x y))
      ∙ unfolded
      ∙ ap (λ s. s ⊕ t ⊗ (y ⊖ x)) (mix_self t x)
    where
      unfolded : mix t x (x ⊕ (y ⊖ x)) ≡ mix t x x ⊕ t ⊗ (y ⊖ x)
      unfolded =
          unfold mix in ap (◌⊕◌ ((unit ⊖ t) ⊗ x)) (mul-add t x (y ⊖ x)) ∙ sym (add_assoc _ _ _)

  module _ (t : R) (t_nonneg : nought ≼ t) (t_le_unit : t ≼ unit) where
    pub mix_mono : (x x' y y' : R) → x ≼ x' → y ≼ y' → mix t x y ≼ mix t x' y'
    unfolding mix
    mix_mono x x' y y' h k =
        add_le_add laws _ _ _ _
          (mul_le_mul_left laws (unit ⊖ t) x x' (sub_nonneg laws t unit t_le_unit) h)
          (mul_le_mul_left laws t y y' t_nonneg k)

    pub mix-le : (x y c : R) → x ≼ c → y ≼ c → mix t x y ≼ c
    mix-le x y c h k = subst (λ s. mix t x y ≼ s) (mix_self t c) (mix_mono x c y c h k)

    pub le-mix : (x y c : R) → c ≼ x → c ≼ y → c ≼ mix t x y
    le-mix x y c h k = subst (λ s. s ≼ mix t x y) (mix_self t c) (mix_mono c x c y h k)

  -- A share of the way that stays within the room `c - x` does not pass `c`.
  pub mix-le_of_room : (t x y c : R) → t ⊗ (y ⊖ x) ≼ c ⊖ x → mix t x y ≼ c
  mix-le_of_room t x y c h =
      subst (λ s. s ≼ c) (sym (mix-eq-add t x y))
        (subst (λ s. x ⊕ t ⊗ (y ⊖ x) ≼ s) (add-sub_cancel_left laws x c)
          (add_le_add laws x x (t ⊗ (y ⊖ x)) (c ⊖ x) (le_refl x) h))
