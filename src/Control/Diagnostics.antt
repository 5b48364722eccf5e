-- ===== src/Control/Diagnostics.antt =====
-- src/controller/diagnostics.py: the residuals of a state and its certificate. A source without a used
-- route has an infinite residual, which is None here; of a missing link the marginal cost is NaN in the
-- source and is not read here.
pub mod Certificate
use traffic_emulator.Common.{
  ℕ, Bool, true, false, not, ◌&&◌, Option, none, some, List, [], ◌∷◌, ◌++◌, map, length, zip_with,
  if◌then◌else◌, Result, ok, err, value_error, index_error, ◌>>=◌,
}
use traffic_emulator.Num.{Num, ◌⊕◌, ◌⊖◌, ◌⊗◌, ◌⊘◌, max}
use traffic_emulator.Num.Elementary.{Elementary, abs, number}
use traffic_emulator.Num.Vectors.{sum, column_sums}
use traffic_emulator.Model.Topology.{Topology}
use traffic_emulator.Model.MarginalCosts.{marginal_cost}
use traffic_emulator.Control.BestResponse.{best_response_available}
use traffic_emulator.Control.Synchronous.{minimum}

-- the residuals that have a tolerance
pub record Residuals (R : Type 0) : Type 0 where
  pub r_conservation : R
  pub r_nonnegative : R
  pub r_access_capacity : R
  pub r_service_capacity : R
  pub r_price : R
  pub r_fixed_point : R
  pub r_kkt_complementarity : R
  pub r_active_stationarity : Option R
  pub r_inactive_complementarity : R
  pub r_unavailable_routes : R

-- what one source's used and unused routes give
pub record RouteCosts (R : Type 0) : Type 0 where
  pub alpha : Option R
  pub spread : Option R
  pub stationarity : Option R
  pub inactive_gap : R

pub record MarginalTable (R : Type 0) : Type 0 where
  pub d_links : List (List R)
  pub d_brokers : List R
  pub c_links : List (List R)
  pub c_brokers : List R
  pub m_links : List (List R)

module _ {R : Type 0} ⦃n : Num R⦄ where
  -- `np.max`: an error on the empty array
  abbrev pub maximum : List R → Result R
  maximum [] = err value_error
  maximum (x ∷ []) = ok x
  maximum (x ∷ y ∷ ys) = maximum (y ∷ ys) >>= λ m. ok (max x m)

  abbrev pub concat : List (List R) → List R
  concat [] = []
  concat (row ∷ rows) = row ++ concat rows

  -- `row[mask]`
  abbrev pub select : List Bool → List R → List R
  select [] row = []
  select (keep ∷ mask) [] = []
  select (keep ∷ mask) (x ∷ row) = let rest = select mask row in if keep then x ∷ rest else rest

  abbrev pub delay : R → R → R → R
  delay eps x mu = n.unit ⊘ max (mu ⊖ x) eps

  -- `marginal_costs`
  unfoldable pub marginal_costs : List (List R) → List (List R) → List R → R → MarginalTable R
  marginal_costs lambda_ij links mus eps =
      let loads = column_sums lambda_ij in
      let costs = zip_with (zip_with (marginal_cost eps)) lambda_ij links in
      let broker_costs = zip_with (marginal_cost eps) loads mus in
      record {
        d_links = zip_with (zip_with (delay eps)) lambda_ij links;
        d_brokers = zip_with (delay eps) loads mus;
        c_links = costs;
        c_brokers = broker_costs;
        m_links = map (λ row. zip_with ◌⊕◌ row broker_costs) costs;
      }

  abbrev pub is_route : R → Bool
  is_route mu = n.lt n.nought mu

  abbrev pub used_routes : R → List R → List R → List Bool
  used_routes active_tol = zip_with λ x mu. n.lt active_tol x && is_route mu

  abbrev pub unused_routes : R → List R → List R → List Bool
  unused_routes active_tol = zip_with λ x mu. is_route mu && not (n.lt active_tol x && is_route mu)

  -- how far an unused route undercuts the cheapest used one
  abbrev pub undercut : R → List R → Result R
  undercut cheapest [] = ok n.nought
  undercut cheapest (m ∷ unused) = do
    least ← minimum (m ∷ unused)
    ok (max n.nought (cheapest ⊖ least))

  -- the largest cost difference weighted with the flow, over the routes of a source
  abbrev pub complementarity : List R → List R → List R → R → List R
  complementarity flows mus costs least =
      zip_with (λ route x. if route then x else n.nought) (map is_route mus)
        (zip_with (λ x m. abs (x ⊗ (m ⊖ least))) flows costs)

  abbrev pub least_cost : List R → Result R
  least_cost [] = ok n.nought
  least_cost (m ∷ costs) = minimum (m ∷ costs)

  abbrev pub complementarities :
      List (List R) → List (List R) → List (List R) → Result (List (List R))
  complementarities (flows ∷ rows) (mus ∷ links) (costs ∷ table) = do
    least ← least_cost (select (map is_route mus) costs)
    rest ← complementarities rows links table
    ok (complementarity flows mus costs least ∷ rest)
  complementarities rows links table = ok []

  -- `float(np.max(...))` where a None is infinite
  abbrev pub maximum_or_infinite : List (Option R) → Result (Option R)
  maximum_or_infinite [] = err value_error
  maximum_or_infinite (x ∷ []) = ok x
  maximum_or_infinite (x ∷ y ∷ ys) = do
    m ← maximum_or_infinite (y ∷ ys)
    ok (elim x [ none ↦ none | some a ↦ elim m [ none ↦ none | some b ↦ some (max a b) ] ])

  -- `abs(residual) <= tol`
  abbrev pub within : R → R → Bool
  within residual tol = n.le (abs residual) tol

  abbrev pub within_finite : Option R → R → Bool
  within_finite none tol = false
  within_finite (some residual) tol = within residual tol

  -- what is not there has no flow: `np.max(np.abs(lambda_ij[~available]), initial=0.0)`
  abbrev pub largest_from : R → List R → R
  largest_from m [] = m
  largest_from m (x ∷ xs) = largest_from (max m (abs x)) xs

  abbrev pub unavailable_flows : List (List R) → List (List R) → List R
  unavailable_flows rows links =
      concat (zip_with (λ row mus. select (map (λ mu. not (is_route mu)) mus) row) rows links)

  module _ ⦃e : Elementary R⦄ where
    -- one source with used routes
    abbrev pub costs_of_used : R → List R → List R → Result (RouteCosts R)
    costs_of_used m used unused = do
      let alpha = sum (m ∷ used) ⊘ number (length (m ∷ used))
      highest ← maximum (m ∷ used)
      lowest ← minimum (m ∷ used)
      furthest ← maximum (map (λ c. abs (c ⊖ alpha)) (m ∷ used))
      gap ← undercut lowest unused
      ok (record {
        alpha = some alpha;
        spread = some (highest ⊖ lowest);
        stationarity = some furthest;
        inactive_gap = gap;
      })

    abbrev pub route_costs_of : List R → List R → Result (RouteCosts R)
    route_costs_of [] unused =
        ok (record { alpha = none; spread = none; stationarity = none; inactive_gap = n.nought })
    route_costs_of (m ∷ used) unused = costs_of_used m used unused

    -- the loop over the sources
    abbrev pub route_costs :
        R → List (List R) → List (List R) → List (List R) → Result (List (RouteCosts R))
    route_costs active_tol (flows ∷ rows) (mus ∷ links) (costs ∷ table) = do
      first ←
          route_costs_of (select (used_routes active_tol flows mus) costs)
            (select (unused_routes active_tol flows mus) costs)
      rest ← route_costs active_tol rows links table
      ok (first ∷ rest)
    route_costs active_tol rows links table = ok []

    -- the best responses to the prices, and how far each row is from its own
    abbrev pub fixed_point_gaps : List R → List (List R) → List R → List (List R) → Result (List R)
    fixed_point_gaps prices (mus ∷ links) (lam ∷ lambdas) (flows ∷ rows) = do
      best ← best_response_available mus prices lam (e.literal 1 12) 320
      rest ← fixed_point_gaps prices links lambdas rows
      ok (e.norm (zip_with ◌⊖◌ flows best) ∷ rest)
    fixed_point_gaps prices links lambdas rows = ok []

    -- `compute_diagnostics`, its residuals
    unfoldable pub compute_diagnostics :
        List (List R) → List R → Topology R → R → R → Result (Residuals R)
    compute_diagnostics lambda_ij prices topo active_tol eps = do
      let links = topo.mu_links
      let mc = marginal_costs lambda_ij links topo.mu_brokers eps
      costs ← route_costs active_tol lambda_ij links mc.m_links
      kkt ← complementarities lambda_ij links mc.m_links
      complementary ← maximum (concat kkt)
      gaps ← fixed_point_gaps prices links topo.lambdas_total lambda_ij
      access_margin ← maximum (
          concat (
            zip_with (λ row mus. select (map is_route mus) (zip_with ◌⊖◌ row mus)) lambda_ij links))
      service_margin ← maximum (zip_with ◌⊖◌ (column_sums lambda_ij) topo.mu_brokers)
      conservation ←
          maximum (zip_with (λ row lam. abs (sum row ⊖ lam)) lambda_ij topo.lambdas_total)
      nonnegative ← maximum (map (λ x. max (n.nought ⊖ x) n.nought) (concat lambda_ij))
      price ← maximum (zip_with (λ p c. abs (p ⊖ c)) prices mc.c_brokers)
      stationary ← maximum_or_infinite (map (λ (c : RouteCosts R). c.stationarity) costs)
      inactive ← maximum (map (λ (c : RouteCosts R). c.inactive_gap) costs)
      ok (record {
        r_conservation = conservation;
        r_nonnegative = nonnegative;
        r_access_capacity = max access_margin n.nought;
        r_service_capacity = max service_margin n.nought;
        r_price = price;
        r_fixed_point = e.norm gaps;
        r_kkt_complementarity = complementary;
        r_active_stationarity = stationary;
        r_inactive_complementarity = inactive;
        r_unavailable_routes = largest_from n.nought (unavailable_flows lambda_ij links);
      })

    -- DEFAULT_TOLERANCES, and the test that none fails
    unfoldable pub certified : Residuals R → Bool
    certified r =
        within r.r_conservation (e.literal 1 8)
        && (within r.r_nonnegative (e.literal 1 10)
            && (within r.r_access_capacity (e.literal 1 10)
                && (within r.r_service_capacity (e.literal 1 10)
                    && (within r.r_price (e.literal 1 8)
                        && (within r.r_fixed_point (e.literal 1 6)
                            && (within r.r_kkt_complementarity (e.literal 1 8)
                                && (within_finite r.r_active_stationarity (e.literal 1 6)
                                    && (within r.r_inactive_complementarity (e.literal 1 8)
                                        && within r.r_unavailable_routes n.nought))))))))
