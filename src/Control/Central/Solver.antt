-- ===== src/Control/Central/Solver.antt =====
-- src/controller/central.py: `system_objective` and `solve_central`. scipy's `minimize` and
-- `least_squares` are arguments, as `linprog` is: `minimize` gives what it found and whether it
-- succeeded, `least_squares` the same or raises ValueError. The messages and counts that they report are
-- left out.
use Prim.Native.Nat.{◌%◌}
use traffic_emulator.Common.{
  ℕ, suc, ◌+◌, ◌*◌, Bool, true, false, not, ◌&&◌, ◌||◌, Option, none, some, List, [], ◌∷◌, ◌++◌,
  map, length, all, drop, replicate, zip_with, get_elem?, if◌then◌else◌, leb, ltb, ◌==◌, Result, ok,
  value_error, runtime_error, raise_if, or_raise, ◌>>=◌, ◌>>◌,
}
use traffic_emulator.Common.Sums.{get2, set2}
use traffic_emulator.Num.{Num, ◌⊕◌, ◌⊖◌, ◌⊗◌, ◌⊘◌}
use traffic_emulator.Num.Elementary.{Elementary, eq, abs, number}
use traffic_emulator.Num.Vectors.{sum, column_sums}
use traffic_emulator.Control.Diagnostics.{is_route, select, maximum, concat}
use traffic_emulator.Control.Feasibility.{
  LinearProgram, transportation_feasibility, count_from, reshape, take,
}
use traffic_emulator.Control.Central.{slope, all_available, objective_gradient}

-- The problem that `minimize` gets, with the Jacobians of its constraints.
pub record MinimizeProblem (R : Type 0) : Type 0 where
  pub fun : List R → Option R
  pub jac : List R → List R
  pub start : List R
  pub box : List (R × R)
  pub eq_fun : List R → List R
  pub eq_jac : List (List R)
  pub ineq_fun : List R → List R
  pub ineq_jac : List (List R)

-- The problem that `least_squares` gets; a start of NaN and a bound that is infinite are none.
pub record LeastSquaresProblem (R : Type 0) : Type 0 where
  pub residuals : List R → List R
  pub first_guess : List (Option R)
  pub lower_bounds : List (Option R)
  pub upper_bounds : List (Option R)

pub record Found (R : Type 0) : Type 0 where
  pub success : Bool
  pub x : List R

pub record CentralInfo (R : Type 0) : Type 0 where
  pub kkt_polish_residual : Option R
  pub objective : Option R

-- `zip(*np.where(active))`
abbrev edges_of_row : ℕ → ℕ → List Bool → List (ℕ × ℕ)
edges_of_row i j [] = []
edges_of_row i j (b ∷ row) =
    let rest = edges_of_row i (suc j) row in if b then (i, j) ∷ rest else rest

abbrev pub edges_from : ℕ → List (List Bool) → List (ℕ × ℕ)
edges_from i [] = []
edges_from i (row ∷ rows) = edges_of_row i 0 row ++ edges_from (suc i) rows

module _ {R : Type 0} ⦃n : Num R⦄ where
  -- `x / (mu - x)`
  abbrev pub sojourn : R → R → R
  sojourn x mu = x ⊘ (mu ⊖ x)

  -- a flow that is outside the open domain
  abbrev pub is_outside : R → R → Bool
  is_outside x mu = n.lt x n.nought || (if is_route mu then n.le mu x else not (eq x n.nought))

  abbrev pub all_inside : List R → List R → Bool
  all_inside xs mus = all not (zip_with is_outside xs mus)

  abbrev pub link_terms : List (List R) → List (List R) → List (List R)
  link_terms lambda_ij links =
      if all_available links
      then zip_with (zip_with sojourn) lambda_ij links
      else zip_with (λ xs mus. select (map is_route mus) (zip_with sojourn xs mus)) lambda_ij links

  -- none is infinite
  unfoldable pub system_objective : List (List R) → List (List R) → List R → Option R
  system_objective lambda_ij links mus =
      let loads = column_sums lambda_ij in
      if all (λ fine. fine) (zip_with all_inside lambda_ij links)
        && all not (zip_with (λ load mu. n.le mu load) loads mus)
      then some (sum (map sum (link_terms lambda_ij links)) ⊕ sum (zip_with sojourn loads mus))
      else none

  -- a matrix of 0 and 1, and its product with a vector
  abbrev indicator : ℕ → (ℕ → Bool) → List R
  indicator size test = map (λ k. if test k then n.unit else n.nought) (count_from 0 size)

  abbrev sums_of_rows : ℕ → ℕ → List (List R)
  sums_of_rows m width =
      map (λ i. indicator (m * width) (λ k. leb (i * width) k && ltb k (i * width + width)))
        (count_from 0 m)

  abbrev sums_of_columns : ℕ → ℕ → List (List R)
  sums_of_columns m width =
      map (λ j. indicator (m * width) (λ k. (k % width) == j)) (count_from 0 width)

  abbrev apply : List (List R) → List R → List R
  apply a x = map (λ row. sum (zip_with ◌⊗◌ row x)) a

  -- `xs[i]` and `a[i, j]`, of indices that are in range
  abbrev at : List R → ℕ → R
  at xs i = elim (get_elem? xs i) [ none ↦ n.nought | some x ↦ x ]

  abbrev at2 : List (List R) → ℕ → ℕ → R
  at2 a i j = elim (get2 a i j) [ none ↦ n.nought | some x ↦ x ]

  -- the flows that the polish may change
  abbrev is_active : R → R → R → Bool
  is_active active_tol x mu = n.lt active_tol x && n.lt n.nought mu

  -- the loop that writes a value at each edge
  abbrev pub placed_flows : List R → List (ℕ × ℕ) → List (List R) → List (List R)
  placed_flows [] edges a = a
  placed_flows (x ∷ xs) [] a = a
  placed_flows (x ∷ xs) ((i, j) ∷ edges) a = placed_flows xs edges (set2 a i j x)

  module _ ⦃e : Elementary R⦄ where
    -- `np.mean`, NaN of nothing
    abbrev mean : List R → Option R
    mean [] = none
    mean (x ∷ xs) = some (sum (x ∷ xs) ⊘ number (suc (length xs)))

    module _ (lambdas : List R) (links : List (List R)) (mus : List R) where
      abbrev pub no_flows : List (List R)
      no_flows = replicate (length links) (replicate (length mus) n.nought)

      abbrev pub minimize_problem : R → List (List R) → MinimizeProblem R
      minimize_problem margin l0 =
          let m = length links in
          let width = length mus in
          let a_eq = sums_of_rows m width in
          let a_col = sums_of_columns m width in
          record {
            fun = λ x. system_objective (reshape m width x) links mus;
            jac = λ x. concat (objective_gradient (reshape m width x) links mus);
            start = concat l0;
            box =
                map (λ mu. (n.nought, if n.lt n.nought mu then mu ⊖ margin else n.nought))
                  (concat links);
            eq_fun = λ x. zip_with ◌⊖◌ (apply a_eq x) lambdas;
            eq_jac = a_eq;
            ineq_fun = λ x. zip_with (λ mu load. mu ⊖ margin ⊖ load) mus (apply a_col x);
            ineq_jac = map (map λ c. n.nought ⊖ c) a_col;
          }

      abbrev pub candidate : List (ℕ × ℕ) → List R → List (List R)
      candidate edges z = placed_flows (take (length edges) z) edges no_flows

      abbrev pub kkt_equations : List (ℕ × ℕ) → List R → List R
      kkt_equations edges z =
          let flows = candidate edges z in
          let alpha = drop (length edges) z in
          let prices = zip_with slope (column_sums flows) mus in
          map
            (λ (edge : ℕ × ℕ).
              slope (at2 flows edge.0 edge.1) (at2 links edge.0 edge.1)
              ⊕ at prices edge.1
              ⊖ at alpha edge.0)
            edges
          ++ zip_with (λ row lam. sum row ⊖ lam) flows lambdas

      abbrev pub active_flows : R → List (List R) → List (List Bool)
      active_flows active_tol l_slsqp = zip_with (zip_with (is_active active_tol)) l_slsqp links

      abbrev pub polish_problem : R → R → List (List R) → LeastSquaresProblem R
      polish_problem margin active_tol l_slsqp =
          let active = active_flows active_tol l_slsqp in
          let edges = edges_from 0 active in
          let marginal0 = objective_gradient l_slsqp links mus in
          let alpha0 = zip_with (λ row costs. mean (select row costs)) active marginal0 in
          record {
            residuals = kkt_equations edges;
            first_guess = map (λ (edge : ℕ × ℕ). some (at2 l_slsqp edge.0 edge.1)) edges ++ alpha0;
            lower_bounds =
                replicate (length edges) (some n.nought) ++ replicate (length links) none;
            upper_bounds =
                map (λ (edge : ℕ × ℕ). some (at2 links edge.0 edge.1 ⊖ margin)) edges
                ++ replicate (length links) none;
          }

      -- `np.max(np.abs(rows - lambdas)) < 1e-8 and np.all(columns < mu_brokers)`
      abbrev pub is_accepted : List (List R) → Result Bool
      is_accepted flows = do
        off ← maximum (zip_with (λ row lam. abs (sum row ⊖ lam)) flows lambdas)
        ok (n.lt off (e.literal 1 8) && all (λ fine. fine) (zip_with n.lt (column_sums flows) mus))

      -- an unsuccessful polish is not looked at
      abbrev pub polish_accepted : Bool → List (List R) → Result Bool
      polish_accepted success flows = if success then is_accepted flows else ok false

      abbrev pub reported : List (List R) → Option R → List (List R) × CentralInfo R
      reported solution residual = (
        solution,
        record { kkt_polish_residual = residual; objective = system_objective solution links mus },
      )

      abbrev pub chosen :
          Bool → List (ℕ × ℕ) → List R → List (List R) → Result (List (List R) × CentralInfo R)
      chosen true edges z l_slsqp = do
        residual ← maximum (map abs (kkt_equations edges z))
        ok (reported (candidate edges z) (some residual))
      chosen false edges z l_slsqp = ok (reported l_slsqp none)

    module _ (linprog : LinearProgram R → Option (List R)) (minimize : MinimizeProblem R → Found R)
        (least_squares : LeastSquaresProblem R → Option (Found R)) where
      unfoldable pub solve_central :
          List R → List (List R) → List R → R → R → Result (List (List R) × CentralInfo R)
      solve_central lambdas links mus margin active_tol = do
        l0 ← transportation_feasibility linprog lambdas links mus margin none
        let result = minimize (minimize_problem lambdas links mus margin l0)
        raise_if (not result.success) runtime_error
        let l_slsqp = reshape (length links) (length mus) result.x
        let edges = edges_from 0 (active_flows lambdas links mus active_tol l_slsqp)
        polish ←
            or_raise (least_squares (polish_problem lambdas links mus margin active_tol l_slsqp))
              value_error
        accepted ←
            polish_accepted lambdas links mus polish.success
              (candidate lambdas links mus edges polish.x)
        chosen lambdas links mus accepted edges polish.x l_slsqp
