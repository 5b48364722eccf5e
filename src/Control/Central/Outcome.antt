-- ===== src/Control/Central/Outcome.antt =====
-- What `solve_central` returns, whatever the two solvers of scipy give.
use traffic_emulator.Common.{
  ℕ, ◌≡◌, ◌≢◌, Checked-map, ◌∙◌, ap, refl, Bool, true, false, not, Option, none, some, List, [],
  ◌∷◌, map, zip_with, length, all, All, Result, ok, err, value_error, runtime_error, raise_if,
  or_raise, ◌>>=◌, ◌>>◌, Checked, >>=-Checked, arith, or_raise-Checked,
}
use traffic_emulator.Num.{Num, IsOrdered, ◌⊖◌, ◌⊗◌, ◌≼◌}
use traffic_emulator.Num.Order.{le_of_lt}
use traffic_emulator.Num.Elementary.{Elementary, abs}
use traffic_emulator.Num.Vectors.{sum, column_sums}
use traffic_emulator.Control.Diagnostics.{maximum}
use traffic_emulator.Control.Diagnostics.Certificate.{maximum-above}
use traffic_emulator.Control.BestResponse.Outcome.{Ends}
use traffic_emulator.Control.Feasibility.{
  LinearProgram, reshape, transportation_feasibility, mask_of,
}
use traffic_emulator.Control.Feasibility.Headroom.{transportation_feasibility-Checked, IsRoomy}
use traffic_emulator.Control.Central.Solver.{
  MinimizeProblem, LeastSquaresProblem, Found, CentralInfo, system_objective, minimize_problem,
  polish_problem, candidate, kkt_equations, active_flows, edges_from, is_accepted, polish_accepted,
  chosen, solve_central,
}

>>=-Ends :
    {A B : Type 0} (Q : A → Type 0) (P : B → Type 0) (m : Result A) (later : A → Result B)
    → Checked Q m
    → ((a : A) → m ≡ ok a → Q a → Ends P (later a))
    → Ends P (m >>= later)
>>=-Ends Q P (ok a) later q k = k a refl q
>>=-Ends Q P (err value_error) later q k = tt
>>=-Ends Q P (err _) later q k = absurd q

fails-Ends :
    {B : Type 0} (P : B → Type 0) (bad : Bool) (later : Result B)
    → (bad ≡ false → Ends P later)
    → Ends P (raise_if bad runtime_error >> later)
fails-Ends P true later k = tt
fails-Ends P false later k = k refl

true_of_not : {b : Bool} → not b ≡ false → b ≡ true
true_of_not {b} h = ground (arith, h)

some-ne-none : {A : Type 0} (a : A) → some a ≢ none
some-ne-none a h = cc

none-ne-some : {A : Type 0} (a : A) → none ≢ some a
none-ne-some a h = cc

some_injective : {A : Type 0} {a b : A} → some a ≡ some b → a ≡ b
some_injective h = cc

module _ {R : Type 0} ⦃n : Num R⦄ ⦃e : Elementary R⦄ where
  maximum-Checked : (xs : List R) → Checked (λ m. Unit {0}) (maximum xs)
  maximum-Checked [] = tt
  maximum-Checked (x ∷ []) = tt
  maximum-Checked (x ∷ y ∷ ys) =
      >>=-Checked (λ m. Unit {0}) (λ m. Unit {0}) (maximum (y ∷ ys)) _ (maximum-Checked (y ∷ ys))
        λ m is_m _. tt

  module _ (lambdas : List R) (links : List (List R)) (mus : List R) where
    -- Each demand is carried within 1e-8, and each broker's load is below its capacity.
    pub record IsPolished (flows : List (List R)) : Type 0 where
      pub carried :
          All (λ gap. gap ≼ e.literal 1 8) (zip_with (λ row lam. abs (sum row ⊖ lam)) flows lambdas)
      pub below : all (λ fine. fine) (zip_with n.lt (column_sums flows) mus) ≡ true

    pub record IsSolved (minimize : MinimizeProblem R → Found R)
        (least_squares : LeastSquaresProblem R → Option (Found R)) (margin active_tol : R)
        (out : List (List R) × CentralInfo R) : Type 0 where
      -- the start, and what `minimize` found from it
      pub l0 : List (List R)
      pub l_slsqp : List (List R)
      pub succeeded : (minimize (minimize_problem lambdas links mus margin l0)).success ≡ true
      pub is_found :
          l_slsqp
          ≡ reshape
              (length links)
              (length mus)
              (minimize (minimize_problem lambdas links mus margin l0)).x
      pub roomy : IsRoomy (e.literal 5 1 ⊗ margin) (mask_of none links) links mus l0
      pub objective_is : (out.1).objective ≡ system_objective out.0 links mus
      pub polish : Found R
      pub is_polish :
          least_squares (polish_problem lambdas links mus margin active_tol l_slsqp) ≡ some polish
      pub unpolished :
          (out.1).kkt_polish_residual ≡ none
          → (out.0 ≡ l_slsqp)
            × (polish_accepted lambdas links mus polish.success (
                  candidate lambdas links mus
                    (edges_from 0 (active_flows lambdas links mus active_tol l_slsqp))
                    polish.x)
                ≡ ok false)
      pub polished :
          (r : R)
          → (out.1).kkt_polish_residual ≡ some r
          → (polish.success ≡ true)
            × IsPolished out.0
            × (out.0
                ≡ candidate lambdas links mus
                    (edges_from 0 (active_flows lambdas links mus active_tol l_slsqp))
                    polish.x)
            × (maximum (
                  map abs (
                    kkt_equations lambdas links mus
                      (edges_from 0 (active_flows lambdas links mus active_tol l_slsqp))
                      polish.x))
                ≡ ok r)

    -- An accepted table carries the demands below the capacities.
    is_accepted-Checked :
        IsOrdered R
        → (flows : List (List R))
        → Checked
            (λ accepted. accepted ≡ true → IsPolished flows)
            (is_accepted lambdas links mus flows)
    is_accepted-Checked laws flows =
        >>=-Checked (λ m. Unit {0}) (λ accepted. accepted ≡ true → IsPolished flows) _ _
          (maximum-Checked (zip_with (λ row lam. abs (sum row ⊖ lam)) flows lambdas))
          λ off is_off _ accepted. record {
            carried =
                maximum-above laws _ (e.literal 1 8) is_off
                  (le_of_lt laws off (e.literal 1 8) (ground (arith, accepted)));
            below = ground (arith, accepted);
          }

    polish_accepted-Checked :
        IsOrdered R
        → (success : Bool) (flows : List (List R))
        → Checked
            (λ accepted. accepted ≡ true → (success ≡ true) × IsPolished flows)
            (polish_accepted lambdas links mus success flows)
    polish_accepted-Checked laws true flows =
        Checked-map (λ accepted. accepted ≡ true → IsPolished flows)
          (λ accepted. accepted ≡ true → (true ≡ true) × IsPolished flows)
          (is_accepted lambdas links mus flows) (λ accepted _ fine yes. (refl, fine yes))
          (is_accepted-Checked laws flows)
    polish_accepted-Checked laws false flows = λ accepted. cc

    module _ (minimize : MinimizeProblem R → Found R)
        (least_squares : LeastSquaresProblem R → Option (Found R)) (margin active_tol : R)
        (l0 : List (List R))
        (roomy : IsRoomy (e.literal 5 1 ⊗ margin) (mask_of none links) links mus l0)
        (succeeded : (minimize (minimize_problem lambdas links mus margin l0)).success ≡ true) where
      abbrev l_slsqp_of : List (List R)
      l_slsqp_of =
          reshape (length links) (length mus)
            (minimize (minimize_problem lambdas links mus margin l0)).x

      abbrev edges_of : List (ℕ × ℕ)
      edges_of = edges_from 0 (active_flows lambdas links mus active_tol l_slsqp_of)

      chosen-Ends :
          (polish : Found R) (accepted : Bool)
          → least_squares (polish_problem lambdas links mus margin active_tol l_slsqp_of)
            ≡ some polish
          → polish_accepted lambdas links mus polish.success
              (candidate lambdas links mus edges_of polish.x)
            ≡ ok accepted
          → (accepted ≡ true
              → (polish.success ≡ true)
                × IsPolished (candidate lambdas links mus edges_of polish.x))
          → Ends
              (IsSolved minimize least_squares margin active_tol)
              (chosen lambdas links mus accepted edges_of polish.x l_slsqp_of)
      chosen-Ends polish true is_polish tested fine =
          let z = polish.x in
          >>=-Ends (λ m. Unit {0}) (IsSolved minimize least_squares margin active_tol)
            (maximum (map abs (kkt_equations lambdas links mus edges_of z))) _
            (maximum-Checked (map abs (kkt_equations lambdas links mus edges_of z)))
            λ residual is_residual _. record {
              l0 = l0;
              l_slsqp = l_slsqp_of;
              succeeded = succeeded;
              is_found = refl;
              roomy = roomy;
              objective_is = refl;
              polish = polish;
              is_polish = is_polish;
              unpolished = λ h. absurd (some-ne-none residual h);
              polished = λ r h. (
                (fine refl).0,
                (fine refl).1,
                refl,
                is_residual ∙ ap (λ (m : R). ok m) (some_injective h),
              );
            }
      chosen-Ends polish false is_polish tested fine = record {
        l0 = l0;
        l_slsqp = l_slsqp_of;
        succeeded = succeeded;
        is_found = refl;
        roomy = roomy;
        objective_is = refl;
        polish = polish;
        is_polish = is_polish;
        unpolished = λ h. (refl, tested);
        polished = λ r h. absurd (none-ne-some r h);
      }

module _ {R : Type 0} ⦃n : Num R⦄ ⦃e : Elementary R⦄ (linprog : LinearProgram R → Option (List R))
    (minimize : MinimizeProblem R → Found R)
    (least_squares : LeastSquaresProblem R → Option (Found R)) where
  -- Whatever the solvers give, the central solver raises ValueError or RuntimeError, or it returns a
  -- routing with its objective. A polish residual is reported exactly if the polished flows are
  -- returned: they are what the successful `least_squares` found on the active edges, they carry each
  -- demand within 1e-8, keep each broker's load below its capacity, and the residual is the largest of
  -- the KKT equations at them. Otherwise the polish failed one of these tests and the routing is what
  -- the successful `minimize` found from the max-headroom routing.
  pub solve_central-IsSolved :
      IsOrdered R
      → (lambdas : List R) (links : List (List R)) (mus : List R) (margin active_tol : R)
      → Ends
          (IsSolved lambdas links mus minimize least_squares margin active_tol)
          (solve_central linprog minimize least_squares lambdas links mus margin active_tol)
  unfolding solve_central
  solve_central-IsSolved laws lambdas links mus margin active_tol =
      let P = IsSolved lambdas links mus minimize least_squares margin active_tol in
      >>=-Ends (IsRoomy (e.literal 5 1 ⊗ margin) (mask_of none links) links mus) P
        (transportation_feasibility linprog lambdas links mus margin none) _
        (transportation_feasibility-Checked linprog laws lambdas links mus margin none)
        λ l0 is_l0 roomy.
          let result = minimize (minimize_problem lambdas links mus margin l0) in
          let l_slsqp = reshape (length links) (length mus) result.x in
          let edges = edges_from 0 (active_flows lambdas links mus active_tol l_slsqp) in
          fails-Ends P (not result.success) _ λ succeeded.
            let problem = polish_problem lambdas links mus margin active_tol l_slsqp in
            >>=-Ends {A = Found R} (λ polish. least_squares problem ≡ some polish) P
              (or_raise (least_squares problem) value_error) _
              (or_raise-Checked (least_squares problem))
              λ polish _ is_polish.
                let flows = candidate lambdas links mus edges polish.x in
                >>=-Ends
                  (λ accepted.
                    accepted ≡ true → (polish.success ≡ true) × IsPolished lambdas links mus flows)
                  P (polish_accepted lambdas links mus polish.success flows) _
                  (polish_accepted-Checked lambdas links mus laws polish.success flows)
                  λ accepted tested fine.
                    chosen-Ends lambdas links mus minimize least_squares margin active_tol l0 roomy
                      (true_of_not succeeded) polish accepted is_polish tested fine
