-- ===== src/Control/Central.antt =====
-- src/controller/central.py: the objective of the central solver and its gradient.
pub mod Solver
pub mod Outcome
use traffic_emulator.Common.{
  ◌≡◌, refl, arith, Bool, true, List, [], ◌∷◌, map, zip_with, All₂, all, if◌then◌else◌,
}
use traffic_emulator.Num.{Num, IsOrdered, ◌⊕◌, ◌⊖◌, ◌⊗◌, ◌⊘◌, ◌≺◌}
use traffic_emulator.Num.Vectors.{column_sums}
use traffic_emulator.Model.MarginalCosts.{marginal_cost}
use traffic_emulator.Control.Diagnostics.{marginal_costs, is_route}

module _ {R : Type 0} ⦃n : Num R⦄ where
  -- `mu / (mu - x) ** 2`
  abbrev pub slope : R → R → R
  slope x mu = mu ⊘ ((mu ⊖ x) ⊗ (mu ⊖ x))

  abbrev pub all_available : List (List R) → Bool
  all_available = all (all is_route)

  abbrev pub link_slope : R → R → R
  link_slope x mu = if is_route mu then slope x mu else n.nought

  -- `np.where(available, link + broker, 0.0)` on a row
  abbrev pub where_row : List R → List R → List R
  where_row = zip_with λ mu sum. if is_route mu then sum else n.nought

  unfoldable pub objective_gradient : List (List R) → List (List R) → List R → List (List R)
  objective_gradient lambda_ij links mus =
      let broker = zip_with slope (column_sums lambda_ij) mus in
      if all_available links
      then map (λ row. zip_with ◌⊕◌ row broker) (zip_with (zip_with slope) lambda_ij links)
      else zip_with where_row links
          (map (λ row. zip_with ◌⊕◌ row broker) (zip_with (zip_with link_slope) lambda_ij links))

  abbrev pub HasGap : R → R → R → Type 0
  HasGap eps x mu = eps ≺ mu ⊖ x

module _ {R : Type 0} ⦃n : Num R⦄ (laws : IsOrdered R) (eps : R) where
  open laws use {lt-eq-not-le}

  slope_lem : (x mu : R) → HasGap eps x mu → marginal_cost eps x mu ≡ slope x mu
  unfolding marginal_cost
  slope_lem x mu h = ground (arith, lt-eq-not-le eps (mu ⊖ x))

  slopes_lem :
      (xs mus : List R)
      → All₂ (HasGap eps) xs mus
      → zip_with (marginal_cost eps) xs mus ≡ zip_with slope xs mus
  slopes_lem [] [] h = refl
  slopes_lem [] (mu ∷ mus) h = elim h [ ]
  slopes_lem (x ∷ xs) [] h = elim h [ ]
  slopes_lem (x ∷ xs) (mu ∷ mus) (h, hs) = rw (slope_lem x mu h, slopes_lem xs mus hs) refl

  slope_rows_lem :
      (rows links : List (List R))
      → All₂ (All₂ (HasGap eps)) rows links
      → zip_with (zip_with (marginal_cost eps)) rows links ≡ zip_with (zip_with slope) rows links
  slope_rows_lem [] [] h = refl
  slope_rows_lem [] (link ∷ links) h = elim h [ ]
  slope_rows_lem (row ∷ rows) [] h = elim h [ ]
  slope_rows_lem (row ∷ rows) (link ∷ links) (h, hs) =
      rw (slopes_lem row link h, slope_rows_lem rows links hs) refl

  -- Where every link exists, and each link and broker keeps more than `eps` of its capacity, the
  -- gradient of the central solver's objective is the table of marginal costs of the diagnostics.
  pub objective_gradient-marginal_costs :
      (lambda_ij links : List (List R)) (mus : List R)
      → all_available links ≡ true
      → All₂ (All₂ (HasGap eps)) lambda_ij links
      → All₂ (HasGap eps) (column_sums lambda_ij) mus
      → objective_gradient lambda_ij links mus ≡ (marginal_costs lambda_ij links mus eps).m_links
  unfolding objective_gradient marginal_costs
  objective_gradient-marginal_costs lambda_ij links mus exist inside below =
      rw
        (exist, slope_rows_lem lambda_ij links inside, slopes_lem (column_sums lambda_ij) mus below)
        refl
