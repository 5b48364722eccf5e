-- ===== src/Control/Diagnostics/Certificate.antt =====
-- What a certificate says of the state that it was given for.
use traffic_emulator.Common.{
  ◌≡◌, refl, sym, subst, true, Option, List, [], ◌∷◌, map, zip_with, All, Result, ok, err,
  >>=-eq-ok, ◌>>=◌,
}
use traffic_emulator.Num.{Num, IsOrdered, ◌⊖◌, ◌≼◌, max}
use traffic_emulator.Num.Order.{le-max_left, le-max_right}
use traffic_emulator.Num.Elementary.{Elementary, abs}
use traffic_emulator.Num.Vectors.{sum, column_sums}
use traffic_emulator.Model.Topology.{Topology}
use traffic_emulator.Control.Diagnostics.{
  Residuals, RouteCosts, maximum, concat, select, is_route, marginal_costs, within_finite,
  maximum_or_infinite, unavailable_flows, route_costs, complementarities, fixed_point_gaps,
}

-- A value with the property, or an exception.
abbrev pub OrRaises : {A : Type 0} → (A → Type 0) → Result A → Type 0
OrRaises P (ok a) = P a
OrRaises P (err e) = Unit

pub or_raises :
    {A : Type 0} (P : A → Type 0) (m : Result A) → ((a : A) → m ≡ ok a → P a) → OrRaises P m
or_raises P (ok a) p = p a refl
or_raises P (err e) p = tt

pub OrRaises->>= :
    {A B : Type 0} (P : B → Type 0) (m : Result A) (later : A → Result B)
    → ((a : A) → m ≡ ok a → OrRaises P (later a))
    → OrRaises P (m >>= later)
OrRaises->>= P (ok a) later k = k a refl
OrRaises->>= P (err e) later k = tt

module _ {R : Type 0} ⦃n : Num R⦄ ⦃e : Elementary R⦄ where
  -- The state is feasible up to the tolerances, its prices are the marginal costs of its loads, and
  -- every source has a used route, whose costs agree.
  pub record IsCertified (active_tol eps : R) (topo : Topology R) (lambda_ij : List (List R))
      (prices : List R) (r : Residuals R) : Type 0 where
    pub demands_carried :
        All
          (λ gap. gap ≼ e.literal 1 8)
          (zip_with (λ row lam. abs (sum row ⊖ lam)) lambda_ij topo.lambdas_total)
    pub flows_nonnegative : All (λ x. n.nought ⊖ x ≼ e.literal 1 10) (concat lambda_ij)
    pub links_hold :
        All
          (λ gap. gap ≼ e.literal 1 10)
          (concat (
            zip_with
              (λ row mus. select (map is_route mus) (zip_with ◌⊖◌ row mus))
              lambda_ij
              topo.mu_links))
    pub brokers_hold :
        All (λ gap. gap ≼ e.literal 1 10) (zip_with ◌⊖◌ (column_sums lambda_ij) topo.mu_brokers)
    pub prices_marginal :
        All
          (λ gap. gap ≼ e.literal 1 8)
          (zip_with
            (λ p c. abs (p ⊖ c))
            prices
            (marginal_costs lambda_ij topo.mu_links topo.mu_brokers eps).c_brokers)
    pub none_unavailable : All (λ x. abs x ≼ n.nought) (unavailable_flows lambda_ij topo.mu_links)
    pub near_responses :
        (gaps : List R) × (fixed_point_gaps prices topo.mu_links topo.lambdas_total lambda_ij
          ≡ ok gaps)
        × (e.norm gaps ≼ e.literal 1 6)
    pub complementary :
        (kkt : List (List R)) × (complementarities lambda_ij topo.mu_links
            (marginal_costs lambda_ij topo.mu_links topo.mu_brokers eps).m_links
          ≡ ok kkt)
        × All (λ x. x ≼ e.literal 1 8) (concat kkt)
    pub costs_agree :
        (costs : List (RouteCosts R)) × (stationary : Option R) × (route_costs active_tol lambda_ij
            topo.mu_links
            (marginal_costs lambda_ij topo.mu_links topo.mu_brokers eps).m_links
          ≡ ok costs)
        × (maximum_or_infinite (map (λ (c : RouteCosts R). c.stationarity) costs) ≡ ok stationary)
        × (within_finite stationary (e.literal 1 6) ≡ true)
        × All (λ x. x ≼ e.literal 1 8) (map (λ (c : RouteCosts R). c.inactive_gap) costs)

  module _ (laws : IsOrdered R) where
    ok_injective : {a b : R} → ok a ≡ ok b → a ≡ b
    ok_injective h = cc

    pub maximum-above :
        (xs : List R) {m : R} (bound : R) → maximum xs ≡ ok m → m ≼ bound → All (λ x. x ≼ bound) xs
    maximum-above [] bound h k = tt
    maximum-above (x ∷ []) bound h k = (subst (λ y. y ≼ bound) (sym (ok_injective h)) k, tt)
    maximum-above (x ∷ y ∷ ys) {m} bound h k =
        let (rest, found, whole) = >>=-eq-ok (maximum (y ∷ ys)) _ h in
        let below : max x rest ≼ bound = subst (λ z. z ≼ bound) (sym (ok_injective whole)) k in
        (
          laws.le_trans x (max x rest) bound (le-max_left laws x rest) below,
          maximum-above (y ∷ ys) bound found
              (laws.le_trans rest (max x rest) bound (le-max_right laws x rest) below),
        )
