-- ===== src/Control/BestResponse/Batch/Flows.antt =====
-- Each flow of a batch is within its link.
use traffic_emulator.Common.{
  ◌≡◌, subst, ◌∙◌, ◌&&◌, List, [], ◌∷◌, length, All, arith, inl, inr, Bool-cases, ◌⊎◌,
  if◌then◌else◌,
}
use traffic_emulator.Num.{Num, IsOrdered, ◌⊖◌, ◌⊗◌, ◌≼◌, ◌≺◌, min}
use traffic_emulator.Num.Ring.{mul-nought, mul-sub_add, eq_sub_of_add}
use traffic_emulator.Num.Order.{
  le-min, min_le_right, lt_of_not_le, le_of_lt, sub_nonneg, mul_le_mul_left, nought-le-unit,
  sub_nonpos,
}
use traffic_emulator.Num.Elementary.{Elementary, IsElementary, half, two}
use traffic_emulator.Control.BestResponse.{is_available}
use traffic_emulator.Control.BestResponse.Bounds.{InBox}
use traffic_emulator.Control.BestResponse.Batch.{batch_flow, flows}

-- The logarithm above 1 is not negative, expm1 below 0 is not positive, and no float is nearer to 0
-- than 0.
pub record IsExponential (R : Type 0) ⦃n : Num R⦄ ⦃e : Elementary R⦄ : Type 0 where
  pub log_nonneg : (q : R) → n.unit ≺ q → n.nought ≼ e.log q
  pub expm1_nonpos : (x : R) → x ≼ n.nought → e.expm1 x ≼ n.nought
  pub toward_nought_nought : e.toward_nought n.nought ≡ n.nought

-- A link's capacity is positive, or it is 0 and the link is missing.
abbrev pub IsCapacity : {R : Type 0} ⦃n : Num R⦄ → R → Type 0
IsCapacity ⦃n⦄ mu = (n.nought ≺ mu) ⊎ (mu ≡ n.nought)

module _ {R : Type 0} ⦃n : Num R⦄ (laws : IsOrdered R) where
  neg-mul : (a b : R) → (n.nought ⊖ a) ⊗ b ≡ n.nought ⊖ a ⊗ b
  neg-mul a b = eq_sub_of_add laws _ _ _ (
      rw (laws.mul_comm (n.nought ⊖ a) b, laws.mul_comm a b)
        (mul-sub_add laws b n.nought a ∙ mul-nought laws b))

  neg-mul_nonneg : (a b : R) → n.nought ≼ a → b ≼ n.nought → n.nought ≼ (n.nought ⊖ a) ⊗ b
  neg-mul_nonneg a b ha hb = rw (neg-mul a b) (
      sub_nonneg laws (a ⊗ b) n.nought
        (subst (λ s. a ⊗ b ≼ s) (mul-nought laws a) (mul_le_mul_left laws a b n.nought ha hb)))

  neg-mul_nonpos : (a b : R) → n.nought ≼ a → n.nought ≼ b → (n.nought ⊖ a) ⊗ b ≼ n.nought
  neg-mul_nonpos a b ha hb =
      rw (neg-mul a b) (sub_nonpos laws n.nought (a ⊗ b) (laws.mul_nonneg a b ha hb))

  unit-le-two : n.unit ≼ two
  unit-le-two =
      subst (λ s. s ≼ two) (laws.nought-add n.unit)
        (laws.add_le_add_right n.nought n.unit n.unit (nought-le-unit laws))

  absurd_of_unit : n.unit ≼ n.nought → n.nought ≺ two
  absurd_of_unit h = ground (arith, laws.lt-eq-not-le n.nought n.unit, laws.nought-lt-unit, h)

  nought-lt-two : n.nought ≺ two
  nought-lt-two = elim (Bool-cases (n.le two n.nought)) [
    | inl below ↦ absurd_of_unit (laws.le_trans n.unit two n.nought unit-le-two below)
    | inr above ↦ lt_of_not_le laws n.nought two above
  ]

  half_nonneg : n.nought ≼ half
  half_nonneg = laws.div_nonneg n.unit two (nought-le-unit laws) nought-lt-two

module _ {R : Type 0} ⦃n : Num R⦄ ⦃e : Elementary R⦄ (laws : IsOrdered R)
    (elementary : IsElementary R) (exponential : IsExponential R) where
  toward_bounds :
      (mu : R) → IsCapacity mu → (n.nought ≼ e.toward_nought mu) × (e.toward_nought mu ≼ mu)
  toward_bounds mu (inl positive) =
      (elementary.toward_nought_nonneg mu positive, elementary.toward_nought_le mu positive)
  toward_bounds mu (inr none_there) =
      rw (none_there, exponential.toward_nought_nought)
        (laws.le_refl n.nought, laws.le_refl n.nought)

  IsCapacity-nonneg : (mu : R) → IsCapacity mu → n.nought ≼ mu
  IsCapacity-nonneg mu (inl positive) = le_of_lt laws n.nought mu positive
  IsCapacity-nonneg mu (inr none_there) = rw none_there (laws.le_refl n.nought)

  clipped_bounds :
      (mu x : R)
      → IsCapacity mu
      → n.nought ≼ x
      → (n.nought ≼ min x (e.toward_nought mu)) × (min x (e.toward_nought mu) ≼ mu)
  clipped_bounds mu x c h =
      let (low, high) = toward_bounds mu c in
      (
        le-min laws x (e.toward_nought mu) n.nought h low,
        laws.le_trans _ (e.toward_nought mu) mu (min_le_right laws x (e.toward_nought mu)) high,
      )

  -- the threshold form is not negative
  raw_nonneg :
      (mu q : R)
      → n.nought ≼ mu
      → n.unit ≺ q
      → n.nought ≼ (n.nought ⊖ mu) ⊗ e.expm1 ((n.nought ⊖ half) ⊗ e.log q)
  raw_nonneg mu q h above = neg-mul_nonneg laws mu _ h (
      exponential.expm1_nonpos _
        (neg-mul_nonpos laws half (e.log q) (half_nonneg laws) (exponential.log_nonneg q above)))

  active_nonneg :
      (mu q : R)
      → n.nought ≼ mu
      → n.nought ≼ (
          if is_available mu && n.lt n.unit q
          then (n.nought ⊖ mu) ⊗ e.expm1 ((n.nought ⊖ half) ⊗ e.log q)
          else n.nought)
  active_nonneg mu q h = elim (Bool-cases (is_available mu && n.lt n.unit q)) [
    | inl active ↦ rw active (raw_nonneg mu q h (ground (arith, active)))
    | inr idle ↦ rw idle (laws.le_refl n.nought)
  ]

  batch_flow_bounds :
      (alpha mu p : R)
      → IsCapacity mu
      → (n.nought ≼ batch_flow alpha mu p) × (batch_flow alpha mu p ≼ mu)
  unfolding batch_flow
  batch_flow_bounds alpha mu p c =
      clipped_bounds mu _ c (active_nonneg mu _ (IsCapacity-nonneg mu c))

  pub flows-InBox :
      (ps mus : List R) (alpha : R)
      → All IsCapacity mus
      → length ps ≡ length mus
      → InBox (flows ps mus alpha) mus
  flows-InBox ps [] alpha c same = tt
  flows-InBox [] (mu ∷ mus) alpha c same = absurd (omega arith)
  flows-InBox (p ∷ ps) (mu ∷ mus) alpha c same =
      (batch_flow_bounds alpha mu p c.0, flows-InBox ps mus alpha c.1 (omega arith))
