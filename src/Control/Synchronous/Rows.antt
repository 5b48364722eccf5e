-- ===== src/Control/Synchronous/Rows.antt =====
-- The rows of a routing: flows within their links, and the demand carried up to the tolerance of the
-- best response. A damped step between two such rows is one.
use traffic_emulator.Common.{suc, ◌≡◌, sym, ap, subst, ◌∙◌, List, [], ◌∷◌, length, arith}
use traffic_emulator.Num.{Num, IsOrdered, ◌⊕◌, ◌⊖◌, ◌≼◌}
use traffic_emulator.Num.Ring.{add-neg, neg-sub}
use traffic_emulator.Num.Order.{le-max_left, le-max_right, max-le}
use traffic_emulator.Num.Mix.{mix, mix-le, le-mix}
use traffic_emulator.Num.Elementary.{abs}
use traffic_emulator.Num.Vectors.{sum, mix_row, mix_rows, sum-mix_row}
use traffic_emulator.Control.BestResponse.Bounds.{InBox, Carries}

module _ {R : Type 0} ⦃n : Num R⦄ (laws : IsOrdered R) where
  open n use {nought, unit}

  sub_le_of_le_add : (x a b : R) → x ≼ a ⊕ b → x ⊖ b ≼ a
  sub_le_of_le_add x a b h =
      subst (λ s. s ≼ a) (add-neg laws x b)
        (subst (λ s. x ⊕ (nought ⊖ b) ≼ s) (add-neg laws (a ⊕ b) b ∙ laws.add-sub_cancel a b)
          (laws.add_le_add_right x (a ⊕ b) (nought ⊖ b) h))

  le_add_of_sub_le : (x a b : R) → x ⊖ b ≼ a → x ≼ a ⊕ b
  le_add_of_sub_le x a b h =
      subst (λ s. s ≼ a ⊕ b) (laws.sub-add_cancel x b) (laws.add_le_add_right (x ⊖ b) a b h)

  -- `abs(x - lam) <= tolerance`, without the absolute value
  near_bounds :
      (tolerance lam x : R)
      → abs (x ⊖ lam) ≼ tolerance
      → (x ≼ tolerance ⊕ lam) × (lam ≼ tolerance ⊕ x)
  near_bounds tolerance lam x h =
      let v = x ⊖ lam in
      let above : v ≼ tolerance = laws.le_trans v _ tolerance (le-max_left laws v (nought ⊖ v)) h in
      let below : nought ⊖ v ≼ tolerance =
        laws.le_trans _ _ tolerance (le-max_right laws v (nought ⊖ v)) h in
      (
        le_add_of_sub_le x tolerance lam above,
        le_add_of_sub_le lam tolerance x (subst (λ s. s ≼ tolerance) (neg-sub laws x lam) below),
      )

  near_of_bounds :
      (tolerance lam x : R) → x ≼ tolerance ⊕ lam → lam ≼ tolerance ⊕ x → abs (x ⊖ lam) ≼ tolerance
  near_of_bounds tolerance lam x h k =
      max-le laws (x ⊖ lam) (nought ⊖ (x ⊖ lam)) tolerance (sub_le_of_le_add x tolerance lam h)
        (subst (λ s. s ≼ tolerance) (sym (neg-sub laws x lam)) (sub_le_of_le_add lam tolerance x k))

  module _ (t : R) (t_nonneg : nought ≼ t) (t_le_unit : t ≼ unit) where
    -- A damped step between two values near the demand stays as near.
    near-mix :
        (tolerance lam x y : R)
        → abs (x ⊖ lam) ≼ tolerance
        → abs (y ⊖ lam) ≼ tolerance
        → abs (mix t x y ⊖ lam) ≼ tolerance
    near-mix tolerance lam x y h k =
        let (x_above, x_below) = near_bounds tolerance lam x h in
        let (y_above, y_below) = near_bounds tolerance lam y k in
        near_of_bounds tolerance lam (mix t x y)
          (mix-le laws t t_nonneg t_le_unit x y (tolerance ⊕ lam) x_above y_above)
          (lower (mix t x y) (
            le-mix laws t t_nonneg t_le_unit x y (lam ⊖ tolerance) (raise x x_below)
              (raise y y_below)))
      where
        raise : (z : R) → lam ≼ tolerance ⊕ z → lam ⊖ tolerance ≼ z
        raise z p =
            sub_le_of_le_add lam z tolerance (subst (λ s. lam ≼ s) (laws.add_comm tolerance z) p)

        lower : (z : R) → lam ⊖ tolerance ≼ z → lam ≼ tolerance ⊕ z
        lower z p =
            subst (λ s. lam ≼ s) (laws.add_comm z tolerance) (le_add_of_sub_le lam z tolerance p)

    mix_row-InBox : (x y mus : List R) → InBox x mus → InBox y mus → InBox (mix_row t x y) mus
    mix_row-InBox [] ys [] h k = tt
    mix_row-InBox [] ys (mu ∷ mus) h k = absurd h
    mix_row-InBox (x ∷ xs) [] [] h k = absurd h
    mix_row-InBox (x ∷ xs) [] (mu ∷ mus) h k = absurd k
    mix_row-InBox (x ∷ xs) (y ∷ ys) [] h k = absurd h
    mix_row-InBox (x ∷ xs) (y ∷ ys) (mu ∷ mus) h k = (
      (
        le-mix laws t t_nonneg t_le_unit x y nought h.0.0 k.0.0,
        mix-le laws t t_nonneg t_le_unit x y mu h.0.1 k.0.1,
      ),
      mix_row-InBox xs ys mus h.1 k.1,
    )

    mix_row-Carries :
        (tolerance lam : R) (x y : List R)
        → length x ≡ length y
        → Carries tolerance lam x
        → Carries tolerance lam y
        → Carries tolerance lam (mix_row t x y)
    mix_row-Carries tolerance lam x y hl h k =
        subst (λ s. abs (s ⊖ lam) ≼ tolerance) (sym (sum-mix_row laws t x y hl))
          (near-mix tolerance lam (sum x) (sum y) h k)

  pub InBox-length : (x mus : List R) → InBox x mus → length x ≡ length mus
  InBox-length [] [] b = omega arith
  InBox-length [] (mu ∷ mus) b = absurd b
  InBox-length (x ∷ xs) [] b = absurd b
  InBox-length (x ∷ xs) (mu ∷ mus) b = ap suc (InBox-length xs mus b.1)

-- The rows of a routing: each within its links, each carrying its source's demand up to the tolerance
-- that `tol` gives for the demand.
module _ {R : Type 0} ⦃n : Num R⦄ where
  pub data RowsGood (tol : R → R) : List (List R) → List R → List (List R) → Type 0 where
    no_rows : RowsGood tol [] [] []
    good_row :
        {mu row : List R} {lam : R} {mus rows : List (List R)} {lambdas : List R}
        → InBox row mu
        → Carries (tol lam) lam row
        → RowsGood tol mus lambdas rows
        → RowsGood tol (mu ∷ mus) (lam ∷ lambdas) (row ∷ rows)

module _ {R : Type 0} ⦃n : Num R⦄ (laws : IsOrdered R) (tol : R → R) where
  open n use {nought, unit}

  pub RowsGood-length :
      {mus : List (List R)} {lambdas : List R} {rows : List (List R)}
      → RowsGood tol mus lambdas rows
      → length rows ≡ length mus
  RowsGood-length no_rows = omega arith
  RowsGood-length (good_row b c g) = ap suc (RowsGood-length g)

  pub mix_rows-RowsGood :
      (t : R)
      → nought ≼ t
      → t ≼ unit
      → {mus : List (List R)} {lambdas : List R} {rows targets : List (List R)}
      → RowsGood tol mus lambdas rows
      → RowsGood tol mus lambdas targets
      → RowsGood tol mus lambdas (mix_rows t rows targets)
  mix_rows-RowsGood t h0 h1 no_rows no_rows = no_rows
  mix_rows-RowsGood t h0 h1 (good_row {mu = mu} {row = row} {lam = lam} b c g)
        (good_row {row = target} b' c' k) =
      let same : length row ≡ length target =
        omega (arith, InBox-length laws row mu b, InBox-length laws target mu b') in
      good_row (mix_row-InBox laws t h0 h1 row target mu b b')
        (mix_row-Carries laws t h0 h1 (tol lam) lam row target same c c')
        (mix_rows-RowsGood t h0 h1 g k)
