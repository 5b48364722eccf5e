-- ===== src/Distributed/Broker/Fifo.antt =====
-- The broker's queue is first in, first out, and its server serves one unit after the other on the
-- virtual clock, whatever the order in which the coroutines run.
use traffic_emulator.Common.{
  ◌+◌, ◌≡◌, refl, sym, ap, ◌∙◌, Option, none, some, List, [], ◌∷◌, ◌++◌, map, length, length-append,
  arith, ok, Returns, Returns-total, returns,
}
use traffic_emulator.Common.Sums.{sum_of, sum_of-append}
use traffic_emulator.Num.{Num}
use traffic_emulator.Control.Synchronous.{broker_price, update_prices}
use traffic_emulator.Model.MarginalCosts.{mm1_marginal_cost_vectorized}
use traffic_emulator.Distributed.Broker.{
  BrokerWorker, WorkUnit, Served, Outcome, Action, receive, serve, wake, price_message, act, acts,
  answer_price, metrics, begin_service, end_service,
}

append_assoc : {A : Type 0} (xs ys zs : List A) → (xs ++ ys) ++ zs ≡ xs ++ (ys ++ zs)
append_assoc [] ys zs = refl
append_assoc (x ∷ xs) ys zs = ap (x ∷◌) (append_assoc xs ys zs)

append_nil : {A : Type 0} (xs : List A) → xs ++ [] ≡ xs
append_nil [] = refl
append_nil (x ∷ xs) = ap (x ∷◌) (append_nil xs)

map_append : {A B : Type 0} (f : A → B) (xs ys : List A) → map f (xs ++ ys) ≡ map f xs ++ map f ys
map_append f [] ys = refl
map_append f (x ∷ xs) ys = ap (f x ∷◌) (map_append f xs ys)

module _ {R : Type 0} where
  -- the unit that the server holds
  abbrev pub held : BrokerWorker R → List (Served R)
  held b = elim b.serving [ none ↦ [] | some v ↦ v ∷ [] ]

  -- the units that a history receives, in order
  abbrev pub received : List (Action R) → List (WorkUnit R)
  received [] = []
  received (receive u ∷ later) = u ∷ received later
  received (serve drawn ∷ later) = received later
  received (wake ∷ later) = received later
  received (price_message price load keep ∷ later) = received later

  -- the units that were taken or wait, oldest first
  abbrev pub line : List (Served R) → BrokerWorker R → List (WorkUnit R)
  line finished b = map (λ v. v.work) (finished ++ held b) ++ b.queue

module _ {R : Type 0} ⦃n : Num R⦄ where
  -- What a history of the worker leaves.
  pub record IsHistory (actions : List (Action R)) (b : BrokerWorker R) (o : Outcome R)
      : Type 0 where
    pub in_order : line o.finished o.worker ≡ line [] b ++ received actions
    pub counted : (o.worker).completed_total ≡ b.completed_total + length o.finished
    pub reported :
        sum_of (λ report. report.reported_completed) o.reports + (o.worker).completed
        ≡ b.completed + length o.finished

  begin_service-IsHistory :
      (drawn : R) (b : BrokerWorker R) (serving : Option (Served R)) (queue : List (WorkUnit R))
      → let before = record b { serving = serving; queue = queue } in
        IsHistory
          (serve drawn ∷ [])
          before
          (record { finished = []; reports = []; worker = begin_service drawn before })
  begin_service-IsHistory drawn b (some v) queue = record {
    in_order = sym (append_nil _);
    counted = omega arith;
    reported = omega arith;
  }
  begin_service-IsHistory drawn b none [] = record {
    in_order = refl;
    counted = omega arith;
    reported = omega arith;
  }
  begin_service-IsHistory drawn b none (u ∷ rest) = record {
    in_order = sym (append_nil _);
    counted = omega arith;
    reported = omega arith;
  }

  end_service-IsHistory :
      (b : BrokerWorker R) (serving : Option (Served R))
      → let before = record b { serving = serving } in
        IsHistory (wake ∷ []) before (record {
          finished = (end_service before).0;
          reports = [];
          worker = (end_service before).1;
        })
  end_service-IsHistory b (some v) = record {
    in_order = sym (append_nil _);
    counted = omega arith;
    reported = omega arith;
  }
  end_service-IsHistory b none = record {
    in_order = sym (append_nil _);
    counted = omega arith;
    reported = omega arith;
  }

  act-IsHistory : (a : Action R) (b : BrokerWorker R) → Returns (IsHistory (a ∷ []) b) (act a b)
  unfolding act answer_price metrics broker_price update_prices mm1_marginal_cost_vectorized
  act-IsHistory (receive u) b = record {
    in_order = sym (append_assoc (map (λ v. v.work) (held b)) b.queue (u ∷ []));
    counted = omega arith;
    reported = omega arith;
  }
  act-IsHistory (serve drawn) b = begin_service-IsHistory drawn b b.serving b.queue
  act-IsHistory wake b = end_service-IsHistory b b.serving
  act-IsHistory (price_message price load keep) b = record {
    in_order = sym (append_nil _);
    counted = omega arith;
    reported = omega arith;
  }

  received-append :
      (a : Action R) (later : List (Action R))
      → received (a ∷ later) ≡ received (a ∷ []) ++ received later
  received-append (receive u) later = refl
  received-append (serve drawn) later = refl
  received-append wake later = refl
  received-append (price_message price load keep) later = refl

  -- what is finished first stands first in the line
  line-append :
      (xs ys : List (Served R)) (b : BrokerWorker R)
      → line (xs ++ ys) b ≡ map (λ v. v.work) xs ++ line ys b
  line-append xs ys b =
      ap (λ vs. map (λ v. v.work) vs ++ b.queue) (append_assoc xs ys (held b))
      ∙ ap (λ us. us ++ b.queue) (map_append (λ v. v.work) xs (ys ++ held b))
      ∙ append_assoc (map (λ v. v.work) xs) (map (λ v. v.work) (ys ++ held b)) b.queue

  join-IsHistory :
      (a : Action R) (later : List (Action R)) (b : BrokerWorker R) (first rest : Outcome R)
      → IsHistory (a ∷ []) b first
      → IsHistory later first.worker rest
      → IsHistory (a ∷ later) b (record {
        finished = first.finished ++ rest.finished;
        reports = first.reports ++ rest.reports;
        worker = rest.worker;
      })
  join-IsHistory a later b first rest h k = record {
    in_order =
        line-append first.finished rest.finished rest.worker
        ∙ ap (λ us. map (λ v. v.work) first.finished ++ us) k.in_order
        ∙ sym (
            append_assoc (map (λ v. v.work) first.finished) (line [] first.worker) (received later))
        ∙ ap (λ us. us ++ received later)
            (sym (line-append first.finished [] first.worker)
              ∙ ap (λ vs. line vs first.worker) (append_nil first.finished)
              ∙ h.in_order)
        ∙ append_assoc (line [] b) (received (a ∷ [])) (received later)
        ∙ ap (λ us. line [] b ++ us) (sym (received-append a later));
    counted = omega (arith, h.counted, k.counted, length-append first.finished rest.finished);
    reported = omega (
      arith,
      h.reported,
      k.reported,
      length-append first.finished rest.finished,
      sum_of-append (λ report. report.reported_completed) first.reports rest.reports,
    );
  }

  pub acts-cons :
      (a : Action R) (later : List (Action R)) (b : BrokerWorker R) {first rest : Outcome R}
      → act a b ≡ ok first
      → acts later first.worker ≡ ok rest
      → acts (a ∷ later) b
        ≡ ok (record {
          finished = first.finished ++ rest.finished;
          reports = first.reports ++ rest.reports;
          worker = rest.worker;
        })
  unfolding acts
  acts-cons a later b began ended = rw (began, ended)

  -- Every history of the worker returns. The units finished, the one in service and those that wait
  -- are, in this order, the ones that were there at the start followed by the ones received: first in,
  -- first out, and none is lost or doubled. Each finished unit is counted once in the total, and once
  -- in a report or in the window that is open.
  pub acts-IsHistory :
      (actions : List (Action R)) (b : BrokerWorker R)
      → Returns (IsHistory actions b) (acts actions b)
  unfolding acts
  acts-IsHistory [] b = record {
    in_order = sym (append_nil _);
    counted = omega arith;
    reported = omega arith;
  }
  acts-IsHistory (a ∷ later) b =
      let (first, began, h) = Returns-total (IsHistory (a ∷ []) b) (act a b) (act-IsHistory a b) in
      let (rest, ended, k) =
        Returns-total (IsHistory later first.worker) (acts later first.worker)
          (acts-IsHistory later first.worker) in
      returns (IsHistory (a ∷ later) b)
        (record {
          finished = first.finished ++ rest.finished;
          reports = first.reports ++ rest.reports;
          worker = rest.worker;
        })
        (acts-cons a later b began ended) (join-IsHistory a later b first rest h k)
