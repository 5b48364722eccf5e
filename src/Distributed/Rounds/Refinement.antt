-- ===== src/Distributed/Rounds/Refinement.antt =====
-- A round of the distributed run in which every worker answers computes what one iteration of the
-- centralised Algorithm 1 computes.
use traffic_emulator.Common.{
  ℕ, suc, ◌+◌, ◌≡◌, ◌≢◌, refl, sym, ap, subst, ◌∙◌, Bool, true, false, List, [], ◌∷◌, All, arith,
  if◌then◌else◌, Result, ok, err, value_error, runtime_error, ReturnsUnless, unless_ok, unless_err,
  Result-cases, inl, inr, length, map, some, Returns, Returns-total, >>=-eq-ok,
}
use traffic_emulator.Num.{Num, IsOrdered, ◌≼◌, ◌⊖◌}
use traffic_emulator.Num.Elementary.{Elementary, IsElementary}
use traffic_emulator.Model.Topology.Valid.{IsValid-links_nonneg}
use traffic_emulator.Model.MarginalCosts.{mm1_marginal_cost_vectorized}
use traffic_emulator.Control.BestResponse.Bounds.{best_response_available-Good}
use traffic_emulator.Control.Synchronous.{
  SystemState, holds, respond, respond_all, answer, broker_price, update_prices, iteration_step,
  apply_common_step, compute_broker_loads, source_best_response,
}
use traffic_emulator.Control.Synchronous.Rows.{RowsGood, no_rows, good_row, InBox-length}
use traffic_emulator.Control.Synchronous.Responses.{br_tolerance}
use traffic_emulator.Distributed.Broker.{Report}
use traffic_emulator.Distributed.Source.{SourceReport}
use traffic_emulator.Distributed.Controller.{ControllerService}
use traffic_emulator.Distributed.Measures.{record_round}
use traffic_emulator.Control.Synchronous.Iteration.{IsIterated, iteration_step-IsFeasible}
use traffic_emulator.Distributed.Rounds.Safety.{IsServing, assign_row-same}
use traffic_emulator.Distributed.Rounds.{
  PriceReply, priced, SourceReply, failed_reply, best, failed_brokers, prices_of, collect_rows,
  apply_round, conclude, round, Unpublished, publish, RoundEnd, reports_of, source_metrics_of,
}

ok_injective : {A : Type 0} {a b : A} → ok a ≡ ok b → a ≡ b
ok_injective h = cc

cons_congr : {A : Type 0} {x y : A} {xs ys : List A} → x ≡ y → xs ≡ ys → x ∷ xs ≡ y ∷ ys
cons_congr h k = cc

module _ {R : Type 0} ⦃n : Num R⦄ where
  -- Each broker answers its request, with its price and its load, as `broker_price` computes it.
  pub data BrokersAnswer (gamma eps : R)
      : List R → List R → List R → List (PriceReply R) → Type 0 where
    all_priced : BrokersAnswer gamma eps [] [] [] []
    price_answer :
        {price load mu : R} (new_price : R) {ps loads mus : List R} (report : Report R)
        {replies : List (PriceReply R)}
        → broker_price price load mu gamma eps ≡ ok new_price
        → BrokersAnswer gamma eps ps loads mus replies
        → BrokersAnswer gamma eps
            (price ∷ ps)
            (load ∷ loads)
            (mu ∷ mus)
            (priced new_price report ∷ replies)

  -- the reply of a source to what `respond` gives it
  abbrev pub source_reply : List R × Bool → SourceReport R → SourceReply R
  source_reply (row, true) report = failed_reply
  source_reply (row, false) report = best row report

  module _ ⦃e : Elementary R⦄ where
    -- Each source answers the new prices as `SourceWorker` computes them.
    pub data SourcesAnswer (prices : List R)
        : List (List R) → List R → List (SourceReply R) → Type 0 where
      all_answered : SourcesAnswer prices [] [] []
      row_answer :
          {mu : List R} {lam : R} {mus : List (List R)} {lambdas : List R} (r : List R × Bool)
          (report : SourceReport R) {replies : List (SourceReply R)}
          → respond holds mu prices lam [] ≡ ok r
          → SourcesAnswer prices mus lambdas replies
          → SourcesAnswer prices (mu ∷ mus) (lam ∷ lambdas) (source_reply r report ∷ replies)

  prices_of-broker_price :
      (gamma eps : R) {ps loads mus : List R} {replies : List (PriceReply R)}
      → BrokersAnswer gamma eps ps loads mus replies
      → prices_of replies ≡ update_prices ps loads mus gamma eps
  unfolding update_prices mm1_marginal_cost_vectorized broker_price
  prices_of-broker_price gamma eps all_priced = refl
  prices_of-broker_price gamma eps (price_answer q report h a) =
      cons_congr (sym (ok_injective h)) (prices_of-broker_price gamma eps a)

  none_failed :
      (gamma eps : R) (j : ℕ) {ps loads mus : List R} {replies : List (PriceReply R)}
      → BrokersAnswer gamma eps ps loads mus replies
      → failed_brokers j replies ≡ []
  none_failed gamma eps j all_priced = refl
  none_failed gamma eps j (price_answer q report h a) = none_failed gamma eps (suc j) a

module _ {R : Type 0} ⦃n : Num R⦄ ⦃e : Elementary R⦄ (laws : IsOrdered R)
    (elementary : IsElementary R) where
  open n use {nought}

  abbrev elsewhere : List R → List R × Bool → Result (List R × Bool)
  elsewhere held r = ok (if r.1 then held else r.0, r.1)

  abbrev joins : ℕ → List (List R) × List ℕ → List R × Bool → Result (List (List R) × List ℕ)
  joins i rest first = ok (first.0 ∷ rest.0, if first.1 then i ∷ rest.1 else rest.1)

  true-ne-false : true ≢ false
  true-ne-false h = cc

  -- What a source finds does not depend on the row that is held.
  answer-elsewhere :
      (held : List R) (found : Result (List R)) (r : List R × Bool)
      → answer holds [] found ≡ ok r
      → answer holds held found ≡ elsewhere held r
  answer-elsewhere held (ok row) r h = ap (elsewhere held) (ok_injective h)
  answer-elsewhere held (err value_error) r h = ap (elsewhere held) (ok_injective h)
  answer-elsewhere held (err runtime_error) r h = ap (elsewhere held) (ok_injective h)
  answer-elsewhere held (err _) r h = cc

  answer-found :
      (found : Result (List R)) (row : List R)
      → answer holds [] found ≡ ok (row, false)
      → found ≡ ok row
  answer-found (ok row') row h = ap (λ r. ok r.0) (ok_injective h)
  answer-found (err value_error) row h = absurd (true-ne-false (ap (λ r. r.1) (ok_injective h)))
  answer-found (err runtime_error) row h = absurd (true-ne-false (ap (λ r. r.1) (ok_injective h)))
  answer-found (err _) row h = cc

  -- The rows that the controller collects are those that `iteration_step` computes.
  collect_rows-respond_all :
      (prices : List R) (i : ℕ) {mus rows : List (List R)} {lambdas : List R}
      {replies : List (SourceReply R)} {r : List (List R) × List ℕ}
      → All (All λ mu. nought ≼ mu) mus
      → RowsGood br_tolerance mus lambdas rows
      → SourcesAnswer prices mus lambdas replies
      → respond_all holds prices i mus lambdas rows ≡ ok r
      → collect_rows i replies rows ≡ ok r
  unfolding respond source_best_response
  collect_rows-respond_all prices i p no_rows all_answered h = h
  collect_rows-respond_all prices i {r = r} p
        (good_row {mu = mu} {row = old} {lam = lam} {mus = mus} {rows = rows} {lambdas = lambdas} b
          c g)
        (row_answer (row, true) report found a) h =
      let (first, responded, later) = >>=-eq-ok (respond holds mu prices lam old) _ h in
      let (rest, others, joined) =
        >>=-eq-ok (respond_all holds prices (i + 1) mus lambdas rows) _ later in
      let held : (old, true) ≡ first = ok_injective (
        sym (answer-elsewhere old (source_best_response mu prices lam) (row, true) found)
        ∙ responded) in
      rw (collect_rows-respond_all prices (i + 1) p.1 g a others) (ap (joins i rest) held ∙ joined)
  collect_rows-respond_all prices i {r = r} p
        (good_row {mu = mu} {row = old} {lam = lam} {mus = mus} {rows = rows} {lambdas = lambdas} b
          c g)
        (row_answer (row, false) report found a) h =
      let (first, responded, later) = >>=-eq-ok (respond holds mu prices lam old) _ h in
      let (rest, others, joined) =
        >>=-eq-ok (respond_all holds prices (i + 1) mus lambdas rows) _ later in
      let answered : (row, false) ≡ first = ok_injective (
        sym (answer-elsewhere old (source_best_response mu prices lam) (row, false) found)
        ∙ responded) in
      let (b', c') =
        best_response_available-Good laws elementary mu prices lam (e.literal 1 12) 320 p.0
          (answer-found (source_best_response mu prices lam) row found) in
      rw
        (
          assign_row-same old row
              (omega (arith, InBox-length laws row mu b', InBox-length laws old mu b)),
          collect_rows-respond_all prices (i + 1) p.1 g a others,
        )
        (ap (joins i rest) answered ∙ joined)

  -- the service after the step
  abbrev applied_service :
      ControllerService R
      → List (List R) × List ℕ
      → SystemState R × R × R
      → List ℕ × ControllerService R
  applied_service service rows r = (
    rows.1,
    record service { state = r.0; br_failures_total = service.br_failures_total + length rows.1 },
  )

  conclude_applied :
      (routed : Bool) (k : ℕ) (t0 last now : R) (price_replies : List (PriceReply R))
      (source_replies : List (SourceReply R)) (service : ControllerService R)
      {rows : List (List R) × List ℕ} {r : SystemState R × R × R}
      → collect_rows 0 source_replies (service.state).lambda_ij ≡ ok rows
      → apply_common_step service.state service.topology rows.0
          (prices_of price_replies)
          (service.p).eta
          (service.p).eps
          (service.p).delta_s
          (service.p).safe_step_variant
          rows.1
        ≡ ok r
      → failed_brokers 0 price_replies ≡ []
      → ReturnsUnless
          (Unpublished routed price_replies source_replies service)
          (λ done. (done.applied_at ≡ now) × ((done.service).state ≡ r.0))
          (conclude routed [] k t0 last now price_replies source_replies service)
  unfolding apply_round record_round
  conclude_applied routed k t0 last now price_replies source_replies service {rows} {r} collected
        stepped f =
      let Q = Unpublished routed price_replies source_replies service in
      let P = λ (done : RoundEnd R). (done.applied_at ≡ now) × ((done.service).state ≡ r.0) in
      let applied = applied_service service rows r in
      let done : apply_round price_replies source_replies service ≡ ok applied =
        rw (collected, stepped) refl in
      elim (Result-cases (publish routed applied.1)) [
        | inl (sent, published) ↦
            let recorded =
              record_round k (now ⊖ t0) (now ⊖ last) (reports_of price_replies)
                (map source_metrics_of source_replies) applied.0 applied.1 in
            unless_ok Q P
              (record { applied_at = now; measured = some recorded.0; service = recorded.1 })
              (rw (done, published) refl) (refl, refl)
        | inr (error, raised) ↦
            unless_err Q P error (rw (done, raised) refl) (f, applied, done, raised)
      ]

  -- From a feasible routing, if each broker answers its price and load as `broker_price` computes them,
  -- and each source answers the new prices with its best response or that it failed: the round of the
  -- distributed controller is applied, and its new state is the one that `iteration_step` with failures
  -- held computes from the same state (which returns); unless after the step a routing cannot be sent or
  -- the diagnostics of the record raise.
  pub round-iteration_step :
      (routed : Bool) (k : ℕ) (t0 last now : R) (price_replies : List (PriceReply R))
      (source_replies : List (SourceReply R)) (service : ControllerService R)
      → IsServing service
      → BrokersAnswer
          (service.p).gamma
          (service.p).eps
          (service.state).prices
          (compute_broker_loads (service.state).lambda_ij)
          (service.topology).mu_brokers
          price_replies
      → SourcesAnswer
          (prices_of price_replies)
          (service.topology).mu_links
          (service.topology).lambdas_total
          source_replies
      → ReturnsUnless
          (Unpublished routed price_replies source_replies service)
          (λ done.
            (done.applied_at ≡ now)
            × Returns
                (λ r. (done.service).state ≡ r.0)
                (iteration_step service.state service.topology
                  (service.p).eta
                  (service.p).gamma
                  (service.p).eps
                  (service.p).delta_s
                  holds
                  (service.p).safe_step_variant))
          (round routed k t0 last now price_replies source_replies service)
  unfolding round iteration_step
  round-iteration_step routed k t0 last now price_replies source_replies service g brokers sources =
      let p = service.p in
      let topo = service.topology in
      let state = service.state in
      let (r, stepped, good) =
        Returns-total (IsIterated p.delta_s topo state)
          (iteration_step state topo p.eta p.gamma p.eps p.delta_s holds p.safe_step_variant)
          (iteration_step-IsFeasible laws elementary state topo p.eta p.gamma p.eps p.delta_s
            p.safe_step_variant g.topology_valid g.feasible g.prices_length g.eta_positive
            g.eta-le-unit g.variant_known) in
      let new_prices =
        update_prices state.prices (compute_broker_loads state.lambda_ij) topo.mu_brokers p.gamma
          p.eps in
      let priced_alike = prices_of-broker_price p.gamma p.eps brokers in
      let (rows, responded, applied) =
        >>=-eq-ok (respond_all holds new_prices 0 topo.mu_links topo.lambdas_total state.lambda_ij)
          _ stepped in
      let collected =
        collect_rows-respond_all new_prices 0 (IsValid-links_nonneg laws topo g.topology_valid)
          g.feasible.rows_good
          (subst (λ ps. SourcesAnswer ps topo.mu_links topo.lambdas_total source_replies)
            priced_alike sources)
          responded in
      let applied' =
        subst
          (λ ps.
            apply_common_step state topo rows.0 ps p.eta p.eps p.delta_s p.safe_step_variant rows.1
            ≡ ok r)
          (sym priced_alike) applied in
      subst
        (λ failed.
          ReturnsUnless (Unpublished routed price_replies source_replies service)
            (λ done.
              (done.applied_at ≡ now)
              × Returns (λ r'. (done.service).state ≡ r'.0)
                  (iteration_step state topo p.eta p.gamma p.eps p.delta_s holds
                    p.safe_step_variant))
            (conclude routed failed k t0 last now price_replies source_replies service))
        (sym (none_failed p.gamma p.eps 0 brokers))
        (subst
          (λ m.
            ReturnsUnless (Unpublished routed price_replies source_replies service)
              (λ done. (done.applied_at ≡ now) × Returns (λ r'. (done.service).state ≡ r'.0) m)
              (conclude routed [] k t0 last now price_replies source_replies service))
          (sym stepped)
          (conclude_applied routed k t0 last now price_replies source_replies service collected
            applied' (none_failed p.gamma p.eps 0 brokers)))
