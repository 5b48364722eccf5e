-- ===== src/Num/Integers.antt =====
-- The laws of `Num` can be met: the integers over the native numbers, with division rounded down.
-- Rates and times in whole units are such numbers.
use Prim.Native.Nat.{◌/◌}
use traffic_emulator.Common.{
  ℕ, zero, suc, ◌+◌, ◌-◌, ◌*◌, ◌≤◌, ◌≡◌, ap, Bool, true, arith, ltb, leb, if◌then◌else◌,
}
use traffic_emulator.Num.{Num, IsOrdered}

-- `negsuc n` is -(n + 1).
pub data ℤ : Type 0 where
  pos : ℕ → ℤ
  negsuc : ℕ → ℤ

abbrev pos_part : ℤ → ℕ
pos_part (pos n) = n
pos_part (negsuc n) = 0

abbrev neg_part : ℤ → ℕ
neg_part (pos n) = 0
neg_part (negsuc n) = suc n

-- a - b, as an integer.
abbrev sub_ℕ : ℕ → ℕ → ℤ
sub_ℕ a b = if leb b a then pos (a - b) else negsuc (b - a - 1)

infixl 65 ◌+ℤ◌ ◌-ℤ◌
infixl 70 ◌*ℤ◌
unfoldable pub ◌+ℤ◌ : ℤ → ℤ → ℤ
a +ℤ b = sub_ℕ (pos_part a + pos_part b) (neg_part a + neg_part b)

unfoldable pub ◌-ℤ◌ : ℤ → ℤ → ℤ
a -ℤ b = sub_ℕ (pos_part a + neg_part b) (neg_part a + pos_part b)

unfoldable pub ◌*ℤ◌ : ℤ → ℤ → ℤ
a *ℤ b =
    sub_ℕ (pos_part a * pos_part b + neg_part a * neg_part b)
      (pos_part a * neg_part b + neg_part a * pos_part b)

unfoldable pub div_ℤ : ℤ → ℤ → ℤ
div_ℤ (pos a) (pos b) = pos (a / b)
div_ℤ (negsuc a) (pos b) = negsuc (a / b)
div_ℤ a (negsuc b) = pos 0

abbrev pub le_ℤ : ℤ → ℤ → Bool
le_ℤ a b = leb (pos_part a + neg_part b) (pos_part b + neg_part a)

abbrev pub lt_ℤ : ℤ → ℤ → Bool
lt_ℤ a b = ltb (pos_part a + neg_part b) (pos_part b + neg_part a)

instance abbrev pub integers : Num ℤ
integers = record {
  nought = pos 0;
  unit = pos 1;
  add = ◌+ℤ◌;
  sub = ◌-ℤ◌;
  mul = ◌*ℤ◌;
  div = div_ℤ;
  le = le_ℤ;
  lt = lt_ℤ;
}

ext : (a b : ℤ) → pos_part a + neg_part b ≡ pos_part b + neg_part a → a ≡ b
ext a b h = ground arith

+ℤ_parts :
    (a b : ℤ)
    → pos_part (a +ℤ b) + neg_part a + neg_part b ≡ neg_part (a +ℤ b) + pos_part a + pos_part b
unfolding ◌+ℤ◌
+ℤ_parts a b = ground arith

-ℤ_parts :
    (a b : ℤ)
    → pos_part (a -ℤ b) + neg_part a + pos_part b ≡ neg_part (a -ℤ b) + pos_part a + neg_part b
unfolding ◌-ℤ◌
-ℤ_parts a b = ground arith

pos_part-*ℤ : (a b : ℤ) → pos_part (a *ℤ b) ≡ pos_part a * pos_part b + neg_part a * neg_part b
unfolding ◌*ℤ◌
pos_part-*ℤ a b = ground arith

neg_part-*ℤ : (a b : ℤ) → neg_part (a *ℤ b) ≡ pos_part a * neg_part b + neg_part a * pos_part b
unfolding ◌*ℤ◌
neg_part-*ℤ a b = ground arith

ruleset products = (pos_part-*ℤ, neg_part-*ℤ)

mul_assoc : (a b c : ℤ) → a *ℤ b *ℤ c ≡ a *ℤ (b *ℤ c)
mul_assoc a b c = ext _ _ (simp products (omega arith))

mul-add : (a b c : ℤ) → a *ℤ (b +ℤ c) ≡ a *ℤ b +ℤ a *ℤ c
mul-add a b c = ext _ _ (
    simp products (
      omega (
        arith,
        ap (λ t. pos_part a * t) (+ℤ_parts b c),
        ap (λ t. neg_part a * t) (+ℤ_parts b c),
        +ℤ_parts (a *ℤ b) (a *ℤ c),
        pos_part-*ℤ a b,
        neg_part-*ℤ a b,
        pos_part-*ℤ a c,
        neg_part-*ℤ a c,
      )))

div-mul_le_nat : (a b : ℕ) → a / b * b ≤ a
div-mul_le_nat a b = grind arith

lt-div-add-one-mul : (a b : ℕ) → suc a ≤ suc (a / suc b) * suc b
lt-div-add-one-mul a b = grind arith

div-mul_le : (a b : ℤ) → lt_ℤ (pos 0) b ≡ true → le_ℤ (div_ℤ a b *ℤ b) a ≡ true
unfolding div_ℤ
div-mul_le (pos a) (pos b) h = simp products (ground (arith, div-mul_le_nat a b))
div-mul_le (negsuc a) (pos zero) h = ground arith
div-mul_le (negsuc a) (pos (suc b)) h = simp products (ground (arith, lt-div-add-one-mul a b))
div-mul_le a (negsuc b) h = ground arith

mul_nonneg :
    (a b : ℤ) → le_ℤ (pos 0) a ≡ true → le_ℤ (pos 0) b ≡ true → le_ℤ (pos 0) (a *ℤ b) ≡ true
mul_nonneg (pos a) (pos b) h k = simp products (ground arith)
mul_nonneg (pos a) (negsuc b) h k = ground arith
mul_nonneg (negsuc a) b h k = ground arith

mul_pos : (a b : ℤ) → lt_ℤ (pos 0) a ≡ true → lt_ℤ (pos 0) b ≡ true → lt_ℤ (pos 0) (a *ℤ b) ≡ true
mul_pos (pos zero) b h k = ground arith
mul_pos (pos (suc a)) (pos zero) h k = ground arith
mul_pos (pos (suc a)) (pos (suc b)) h k = simp products (ground arith)
mul_pos (pos (suc a)) (negsuc b) h k = ground arith
mul_pos (negsuc a) b h k = ground arith

pub integers-IsOrdered : IsOrdered ℤ
unfolding ◌+ℤ◌ ◌-ℤ◌ ◌*ℤ◌ div_ℤ
integers-IsOrdered = record {
  add_comm = λ a b. ground arith;
  add_assoc = λ a b c. ground arith;
  nought-add = λ a. ground arith;
  sub-add_cancel = λ a b. ground arith;
  add-sub_cancel = λ a b. ground arith;
  mul_comm = λ a b. ground arith;
  mul_assoc = mul_assoc;
  unit-mul = λ a. ground arith;
  mul-add = mul-add;
  le_refl = λ a. ground arith;
  le_trans = λ a b c h k. ground arith;
  le_total = λ a b. ground arith;
  lt-eq-not-le = λ a b. ground arith;
  add_le_add_right = λ a b c h. ground arith;
  mul_nonneg = mul_nonneg;
  mul_pos = mul_pos;
  nought-lt-unit = ground arith;
  div-mul_le = div-mul_le;
  div_nonneg = λ a b h k. ground arith;
}
