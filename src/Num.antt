-- ===== src/Num.antt =====
-- The numbers that the source computes with: numpy's float64 and Python's float, as an interface.
-- The code uses them through these operations alone. The laws are those of exact arithmetic: what
-- rounding does to a result is not modelled, and NaN and infinities are values that a model names
-- apart (an `Option` field) where the source stores them.
pub mod Ring
pub mod Order
pub mod Mix
pub mod Elementary
pub mod Vectors
pub mod Integers
use traffic_emulator.Common.{◌≡◌, Bool, true, not, ◌⊎◌, if◌then◌else◌}

pub record Num (R : Type 0) : Type 0 where
  pub nought : R
  pub unit : R
  pub add : R → R → R
  pub sub : R → R → R
  pub mul : R → R → R
  pub div : R → R → R
  pub le : R → R → Bool
  pub lt : R → R → Bool

module _ {R : Type 0} ⦃n : Num R⦄ where
  infixl 65 ◌⊕◌ ◌⊖◌
  infixl 70 ◌⊗◌ ◌⊘◌
  infix 50 ◌≼◌ ◌≺◌
  abbrev pub ◌⊕◌ : R → R → R
  ◌⊕◌ = n.add

  abbrev pub ◌⊖◌ : R → R → R
  ◌⊖◌ = n.sub

  abbrev pub ◌⊗◌ : R → R → R
  ◌⊗◌ = n.mul

  abbrev pub ◌⊘◌ : R → R → R
  ◌⊘◌ = n.div

  abbrev pub ◌≼◌ : R → R → Type 0
  x ≼ y = n.le x y ≡ true

  abbrev pub ◌≺◌ : R → R → Type 0
  x ≺ y = n.lt x y ≡ true

  -- `max` and `min` of two numbers, `np.maximum` and `np.minimum`
  abbrev pub max : R → R → R
  max x y = if n.le x y then y else x

  abbrev pub min : R → R → R
  min x y = if n.le x y then x else y

-- A commutative ring with a total order that its operations respect, and of division only that a
-- quotient by a positive number, times that number, does not exceed the dividend, and has its sign.
pub record IsOrdered (R : Type 0) ⦃n : Num R⦄ : Type 0 where
  pub add_comm : (a b : R) → a ⊕ b ≡ b ⊕ a
  pub add_assoc : (a b c : R) → a ⊕ b ⊕ c ≡ a ⊕ (b ⊕ c)
  pub nought-add : (a : R) → n.nought ⊕ a ≡ a
  pub sub-add_cancel : (a b : R) → a ⊖ b ⊕ b ≡ a
  pub add-sub_cancel : (a b : R) → a ⊕ b ⊖ b ≡ a
  pub mul_comm : (a b : R) → a ⊗ b ≡ b ⊗ a
  pub mul_assoc : (a b c : R) → a ⊗ b ⊗ c ≡ a ⊗ (b ⊗ c)
  pub unit-mul : (a : R) → n.unit ⊗ a ≡ a
  pub mul-add : (a b c : R) → a ⊗ (b ⊕ c) ≡ a ⊗ b ⊕ a ⊗ c
  pub le_refl : (a : R) → a ≼ a
  pub le_trans : (a b c : R) → a ≼ b → b ≼ c → a ≼ c
  pub le_total : (a b : R) → (a ≼ b) ⊎ (b ≼ a)
  pub lt-eq-not-le : (a b : R) → n.lt a b ≡ not (n.le b a)
  pub add_le_add_right : (a b c : R) → a ≼ b → a ⊕ c ≼ b ⊕ c
  pub mul_nonneg : (a b : R) → n.nought ≼ a → n.nought ≼ b → n.nought ≼ a ⊗ b
  pub mul_pos : (a b : R) → n.nought ≺ a → n.nought ≺ b → n.nought ≺ a ⊗ b
  pub nought-lt-unit : n.nought ≺ n.unit
  pub div-mul_le : (a b : R) → n.nought ≺ b → a ⊘ b ⊗ b ≼ a
  pub div_nonneg : (a b : R) → n.nought ≼ a → n.nought ≺ b → n.nought ≼ a ⊘ b
