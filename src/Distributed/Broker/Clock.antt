-- ===== src/Distributed/Broker/Clock.antt =====
-- The virtual clock of the broker's server: it serves one unit at a time, each after it arrived and
-- after the unit before it was done, however late the process wakes up.
use traffic_emulator.Common.{
  ◌≡◌, refl, sym, subst, Option, none, some, List, [], ◌∷◌, ◌++◌, Returns, Returns-total, returns,
}
use traffic_emulator.Num.{Num, IsOrdered, ◌⊕◌, ◌≼◌, max}
use traffic_emulator.Num.Order.{le-max_left, le-max_right}
use traffic_emulator.Model.MarginalCosts.{mm1_marginal_cost_vectorized}
use traffic_emulator.Control.Synchronous.{broker_price, update_prices}
use traffic_emulator.Distributed.Broker.{
  BrokerWorker, WorkUnit, Served, Outcome, Action, receive, serve, wake, price_message, act, acts,
  answer_price, metrics, begin_service, end_service,
}
use traffic_emulator.Distributed.Broker.Fifo.{held, acts-cons}

module _ {R : Type 0} ⦃n : Num R⦄ where
  -- From time `t` to time `f` the units are served one after the other.
  abbrev pub IsSerial : R → List (Served R) → R → Type 0
  IsSerial t [] f = t ≡ f
  IsSerial t (v ∷ vs) f =
      (t ≼ v.broker_start)
      × ((v.work).broker_arrival ≼ v.broker_start)
      × (v.broker_start ≼ v.broker_complete)
      × IsSerial v.broker_complete vs f

  -- No drawn service time is negative.
  abbrev pub HasDraws : List (Action R) → Type 0
  HasDraws [] = Unit
  HasDraws (serve drawn ∷ later) = (n.nought ≼ drawn) × HasDraws later
  HasDraws (_ ∷ later) = HasDraws later

  HasDraws-head :
      (a : Action R) (later : List (Action R)) → HasDraws (a ∷ later) → HasDraws (a ∷ [])
  HasDraws-head (receive u) later h = tt
  HasDraws-head (serve drawn) later h = (h.0, tt)
  HasDraws-head wake later h = tt
  HasDraws-head (price_message price load keep) later h = tt

  HasDraws-tail : (a : Action R) (later : List (Action R)) → HasDraws (a ∷ later) → HasDraws later
  HasDraws-tail (receive u) later h = h
  HasDraws-tail (serve drawn) later h = h.1
  HasDraws-tail wake later h = h
  HasDraws-tail (price_message price load keep) later h = h

  split-IsSerial :
      (xs ys : List (Served R)) (t f : R)
      → IsSerial t (xs ++ ys) f
      → (m : R) × IsSerial t xs m × IsSerial m ys f
  split-IsSerial [] ys t f h = (t, refl, h)
  split-IsSerial (v ∷ xs) ys t f (h0, h1, h2, h) =
      let (m, p, q) = split-IsSerial xs ys v.broker_complete f h in (m, (h0, h1, h2, p), q)

  join-IsSerial :
      (xs ys : List (Served R)) (t m f : R)
      → IsSerial t xs m
      → IsSerial m ys f
      → IsSerial t (xs ++ ys) f
  join-IsSerial [] ys t m f h k = subst (λ s. IsSerial s ys f) (sym h) k
  join-IsSerial (v ∷ xs) ys t m f (h0, h1, h2, h) k =
      (h0, h1, h2, join-IsSerial xs ys v.broker_complete m f h k)

  append_assoc-IsSerial :
      (xs ys zs : List (Served R)) (t f : R)
      → IsSerial t (xs ++ (ys ++ zs)) f
      → IsSerial t ((xs ++ ys) ++ zs) f
  append_assoc-IsSerial [] ys zs t f h = h
  append_assoc-IsSerial (v ∷ xs) ys zs t f (h0, h1, h2, h) =
      (h0, h1, h2, append_assoc-IsSerial xs ys zs v.broker_complete f h)

  -- what an outcome served and holds, from time `t` to the time when the server is free
  abbrev pub ServesFrom : R → Outcome R → Type 0
  ServesFrom t o = IsSerial t (o.finished ++ held o.worker) (o.worker).free_at

  module _ (laws : IsOrdered R) where
    le-add : (x d : R) → n.nought ≼ d → x ≼ x ⊕ d
    le-add x d h =
        subst (λ s. s ≼ x ⊕ d) (laws.nought-add x)
          (subst (λ s. n.nought ⊕ x ≼ s) (laws.add_comm d x) (laws.add_le_add_right n.nought d x h))

    begin_service-ServesFrom :
        (drawn t : R) (b : BrokerWorker R) (serving : Option (Served R)) (queue : List (WorkUnit R))
        → n.nought ≼ drawn
        → let before = record b { serving = serving; queue = queue } in
          IsSerial t (held before) b.free_at
          → ServesFrom t
              (record { finished = []; reports = []; worker = begin_service drawn before })
    begin_service-ServesFrom drawn t b (some v) queue h s = s
    begin_service-ServesFrom drawn t b none [] h s = s
    begin_service-ServesFrom drawn t b none (u ∷ rest) h s =
        let start = max u.broker_arrival b.free_at in
        (
          subst (λ k. k ≼ start) (sym s) (le-max_right laws u.broker_arrival b.free_at),
          le-max_left laws u.broker_arrival b.free_at,
          le-add start drawn h,
          refl,
        )

    end_service-ServesFrom :
        (t : R) (b : BrokerWorker R) (serving : Option (Served R))
        → let before = record b { serving = serving } in
          IsSerial t (held before) b.free_at
          → ServesFrom t (record {
            finished = (end_service before).0;
            reports = [];
            worker = (end_service before).1;
          })
    end_service-ServesFrom t b (some v) s = s
    end_service-ServesFrom t b none s = s

    act-ServesFrom :
        (a : Action R) (t : R) (b : BrokerWorker R)
        → HasDraws (a ∷ [])
        → IsSerial t (held b) b.free_at
        → Returns (ServesFrom t) (act a b)
    unfolding act answer_price metrics broker_price update_prices mm1_marginal_cost_vectorized
    act-ServesFrom (receive u) t b h s = s
    act-ServesFrom (serve drawn) t b h s =
        begin_service-ServesFrom drawn t b b.serving b.queue h.0 s
    act-ServesFrom wake t b h s = end_service-ServesFrom t b b.serving s
    act-ServesFrom (price_message price load keep) t b h s = s

    -- In a history without negative service times, of a worker whose server is free at `free_at` or
    -- holds a unit until then, all units finished and the one in service were served one after the
    -- other from time `t` on: each starts after it arrived and after the one before it was completed,
    -- and is completed no earlier than it starts. The last completion is the new `free_at`.
    pub acts-ServesFrom :
        (actions : List (Action R)) (t : R) (b : BrokerWorker R)
        → HasDraws actions
        → IsSerial t (held b) b.free_at
        → Returns (ServesFrom t) (acts actions b)
    unfolding acts
    acts-ServesFrom [] t b h s = s
    acts-ServesFrom (a ∷ later) t b h s =
        let (first, began, p) =
          Returns-total (ServesFrom t) (act a b)
            (act-ServesFrom a t b (HasDraws-head a later h) s) in
        let (m, done, going) =
          split-IsSerial first.finished (held first.worker) t (first.worker).free_at p in
        let (rest, ended, q) =
          Returns-total (ServesFrom m) (acts later first.worker)
            (acts-ServesFrom later m first.worker (HasDraws-tail a later h) going) in
        returns (ServesFrom t)
          (record {
            finished = first.finished ++ rest.finished;
            reports = first.reports ++ rest.reports;
            worker = rest.worker;
          })
          (acts-cons a later b began ended)
          (append_assoc-IsSerial first.finished rest.finished (held rest.worker) t
            (rest.worker).free_at
            (join-IsSerial first.finished (rest.finished ++ held rest.worker) t m
              (rest.worker).free_at done q))
