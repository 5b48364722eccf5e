-- ===== src/Num/Elementary.antt =====
-- The functions of numpy on float64 that the source calls beside the arithmetic, as an interface.
use traffic_emulator.Common.{ℕ, List, ◌&&◌, Bool}
use traffic_emulator.Num.{Num, ◌⊕◌, ◌⊖◌, ◌⊘◌, ◌≼◌, ◌≺◌, max}

pub record Elementary (R : Type 0) : Type 0 where
  pub is_finite : R → Bool
  pub log : R → R
  pub expm1 : R → R
  pub sqrt : R → R
  pub norm : List R → R
  pub sin : R → R
  pub cos : R → R
  pub pi : R
  -- `np.nextafter(x, 0.0)`
  pub toward_nought : R → R
  -- `literal m k` is the float literal m * 10^-k
  pub literal : ℕ → ℕ → R

module _ {R : Type 0} ⦃n : Num R⦄ where
  -- `x == y`, of values that are not NaN
  abbrev pub eq : R → R → Bool
  eq x y = n.le x y && n.le y x

  -- `2.0` and `0.5`
  abbrev pub two : R
  two = n.unit ⊕ n.unit

  abbrev pub half : R
  half = n.unit ⊘ two

  -- `abs(x)`
  abbrev pub abs : R → R
  abs x = max x (n.nought ⊖ x)

-- an int that becomes a float
module _ {R : Type 0} ⦃e : Elementary R⦄ where
  abbrev pub number : ℕ → R
  number k = e.literal k 0

-- What the best response relies on: of a positive number, the next float towards zero is not
-- negative and not larger.
pub record IsElementary (R : Type 0) ⦃n : Num R⦄ ⦃e : Elementary R⦄ : Type 0 where
  pub toward_nought_nonneg : (x : R) → n.nought ≺ x → n.nought ≼ e.toward_nought x
  pub toward_nought_le : (x : R) → n.nought ≺ x → e.toward_nought x ≼ x
