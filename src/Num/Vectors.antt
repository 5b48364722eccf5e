-- ===== src/Num/Vectors.antt =====
-- One- and two-dimensional numpy arrays of float64 as lists and lists of rows.
use traffic_emulator.Common.{◌≡◌, refl, sym, ap, ◌∙◌, List, [], ◌∷◌, length, zip_with, arith}
use traffic_emulator.Num.{Num, IsOrdered, ◌⊕◌, ◌⊖◌}
use traffic_emulator.Num.Ring.{sum_of_sub}
use traffic_emulator.Num.Mix.{mix, mix-add, mix_self}

module _ {R : Type 0} ⦃n : Num R⦄ where
  -- `x.sum()`
  abbrev pub sum : List R → R
  sum [] = n.nought
  sum (x ∷ xs) = x ⊕ sum xs

  -- `x.sum(axis=0)`
  abbrev pub column_sums : List (List R) → List R
  column_sums [] = []
  column_sums (row ∷ []) = row
  column_sums (row ∷ row' ∷ rows) = zip_with ◌⊕◌ row (column_sums (row' ∷ rows))

  -- `(1 - t) * x + t * y` on rows and on tables
  abbrev pub mix_row : R → List R → List R → List R
  mix_row t = zip_with (mix t)

  abbrev pub mix_rows : R → List (List R) → List (List R) → List (List R)
  mix_rows t = zip_with (mix_row t)

  abbrev pub sub_rows : List (List R) → List (List R) → List (List R)
  sub_rows = zip_with (zip_with ◌⊖◌)

-- Two operations that interchange on numbers do so on rows, and so with the sums of columns.
module _ {R : Type 0} ⦃n : Num R⦄ (f : R → R → R)
    (interchange : (x x' y y' : R) → f (x ⊕ x') (y ⊕ y') ≡ f x y ⊕ f x' y') where
  row_interchange :
      (a b c d : List R)
      → zip_with ◌⊕◌ (zip_with f a c) (zip_with f b d)
        ≡ zip_with f (zip_with ◌⊕◌ a b) (zip_with ◌⊕◌ c d)
  row_interchange [] b c d = refl
  row_interchange (x ∷ a) [] [] d = refl
  row_interchange (x ∷ a) [] (z ∷ c) d = refl
  row_interchange (x ∷ a) (y ∷ b) [] d = refl
  row_interchange (x ∷ a) (y ∷ b) (z ∷ c) [] = refl
  row_interchange (x ∷ a) (y ∷ b) (z ∷ c) (w ∷ d) =
      rw (row_interchange a b c d, interchange x y z w)

  pub column_sums-zip_with :
      (xs ys : List (List R))
      → length xs ≡ length ys
      → column_sums (zip_with (zip_with f) xs ys) ≡ zip_with f (column_sums xs) (column_sums ys)
  column_sums-zip_with [] ys h = refl
  column_sums-zip_with (x ∷ xs) [] h = absurd (omega arith)
  column_sums-zip_with (x ∷ []) (y ∷ []) h = refl
  column_sums-zip_with (x ∷ []) (y ∷ y' ∷ ys) h = absurd (omega arith)
  column_sums-zip_with (x ∷ x' ∷ xs) (y ∷ []) h = absurd (omega arith)
  column_sums-zip_with (x ∷ x' ∷ xs) (y ∷ y' ∷ ys) h =
      rw (column_sums-zip_with (x' ∷ xs) (y' ∷ ys) (omega arith))
        (row_interchange x (column_sums (x' ∷ xs)) y (column_sums (y' ∷ ys)))

  pub sum-zip_with :
      f n.nought n.nought ≡ n.nought
      → (xs ys : List R) → length xs ≡ length ys
      → sum (zip_with f xs ys) ≡ f (sum xs) (sum ys)
  sum-zip_with z [] [] h = sym z
  sum-zip_with z [] (y ∷ ys) h = absurd (omega arith)
  sum-zip_with z (x ∷ xs) [] h = absurd (omega arith)
  sum-zip_with z (x ∷ xs) (y ∷ ys) h =
      ap (◌⊕◌ (f x y)) (sum-zip_with z xs ys (omega arith))
      ∙ sym (interchange x (sum xs) y (sum ys))

module _ {R : Type 0} ⦃n : Num R⦄ (laws : IsOrdered R) where
  pub column_sums-mix_rows :
      (t : R) (xs ys : List (List R))
      → length xs ≡ length ys
      → column_sums (mix_rows t xs ys) ≡ mix_row t (column_sums xs) (column_sums ys)
  column_sums-mix_rows t = column_sums-zip_with (mix t) (mix-add laws t)

  pub column_sums-sub_rows :
      (xs ys : List (List R))
      → length xs ≡ length ys
      → column_sums (sub_rows xs ys) ≡ zip_with ◌⊖◌ (column_sums xs) (column_sums ys)
  column_sums-sub_rows = column_sums-zip_with ◌⊖◌ λ x x' y y'. sym (sum_of_sub laws x y x' y')

  pub sum-mix_row :
      (t : R) (xs ys : List R)
      → length xs ≡ length ys
      → sum (mix_row t xs ys) ≡ mix t (sum xs) (sum ys)
  sum-mix_row t = sum-zip_with (mix t) (mix-add laws t) (mix_self laws t n.nought)
