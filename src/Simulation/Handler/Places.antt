-- ===== src/Simulation/Handler/Places.antt =====
-- Where the work units are: a weight of units, summed over the queues and over the events that carry
-- a unit, and what the handler's parts do to it. The weight of everything counts the units; a weight
-- of one unit says in how many places that unit is.
use traffic_emulator.Common.{
  ℕ, ◌+◌, ◌≡◌, none, some, List, [], ◌∷◌, get_elem?, arith, if◌then◌else◌, ok, ◌==◌, inl, inr, ◌⊎◌,
  List-cases,
}
use traffic_emulator.Common.Sums.{get2, sum_of, sum_of-append, sum_of-set, sum2_of, sum2_of-set2}
use traffic_emulator.Num.{Num}
use traffic_emulator.Simulation.Queues.{Queue, push, pop}
use traffic_emulator.Simulation.Events.{Event, access_service_start, broker_service_start}
use traffic_emulator.Simulation.Engine.{Heap, IsHeap}
use traffic_emulator.Simulation.Handler.{
  Handler, scheduled, with_access, with_broker, join_access, join_broker, leave_access,
  leave_broker, idle, now, at_access, at_broker,
}

-- the weight of one unit alone
abbrev pub only : ℕ → ℕ → ℕ
only r k = if r == k then 1 else 0

abbrev pub each : ℕ → ℕ
each k = 1

module _ {R : Type 0} (w : ℕ → ℕ) where
  abbrev pub waiting : Queue R → ℕ
  waiting q = sum_of w q.queue

  abbrev pub carried : Event R → ℕ
  carried e = elim e.request_id [ none ↦ 0 | some r ↦ w r ]

module _ {R : Type 0} (w : ℕ → ℕ) where
  waiting-push : (r : ℕ) (q : Queue R) → waiting w (push r q) ≡ w r + waiting w q
  waiting-push r q = omega (arith, sum_of-append w q.queue (r ∷ []))

module _ {R G H : Type 0} ⦃p : Heap R H⦄ (w : ℕ → ℕ) where
  abbrev pub places : Handler R G H → ℕ
  places h =
      sum2_of (waiting w) (h.state).access_queues
      + sum_of (waiting w) (h.state).broker_queues
      + sum_of (carried w) (p.contents (h.engine).event_queue)

  pub places-with_access :
      (i j : ℕ) (q q' : Queue R) (h : Handler R G H)
      → get2 (h.state).access_queues i j ≡ some q
      → places (with_access i j q' h) + waiting w q ≡ places h + waiting w q'
  places-with_access i j q q' h found =
      omega (arith, sum2_of-set2 (waiting w) (h.state).access_queues i j q q' found)

  pub places-with_broker :
      (j : ℕ) (q q' : Queue R) (h : Handler R G H)
      → get_elem? (h.state).broker_queues j ≡ some q
      → places (with_broker j q' h) + waiting w q ≡ places h + waiting w q'
  places-with_broker j q q' h found =
      omega (arith, sum_of-set (waiting w) (h.state).broker_queues j q q' found)

  module _ ⦃n : Num R⦄ (heap : IsHeap R H) where
    pub places-scheduled :
        (e : Event R) (h : Handler R G H) → places (scheduled e h) ≡ carried w e + places h
    places-scheduled e h = omega (arith, heap.sum-heappush (carried w) (h.engine).event_queue e)

    -- A unit that joins a queue is in one more place, as a service event or in the queue.
    pub places-join_access :
        (i j r : ℕ) (q : Queue R) (h : Handler R G H)
        → get2 (h.state).access_queues i j ≡ some q
        → places (join_access i j r q h) ≡ w r + places h
    unfolding join_access
    places-join_access i j r q h found =
        grind
          (arith, places-scheduled, places-with_access i j q (push r q) h found, waiting-push w r q)

    pub places-join_broker :
        (j r : ℕ) (q : Queue R) (h : Handler R G H)
        → get_elem? (h.state).broker_queues j ≡ some q
        → places (join_broker j r q h) ≡ w r + places h
    unfolding join_broker
    places-join_broker j r q h found =
        grind
          (arith, places-scheduled, places-with_broker j q (push r q) h found, waiting-push w r q)

module _ {R G H : Type 0} ⦃p : Heap R H⦄ where
  -- What leaving a queue does: the next unit starts, or the queue falls idle.
  pub leave_access-cases :
      (i j : ℕ) (q : Queue R) (h : Handler R G H)
      → ((q.queue ≡ []) × (leave_access i j q h ≡ ok (with_access i j (idle q) h)))
        ⊎ ((r : ℕ) × (rest : List ℕ) × (q.queue ≡ r ∷ rest)
            × (leave_access i j q h
                ≡ ok (
                    scheduled
                      (at_access access_service_start (now h) i j r)
                      (with_access i j (record q { queue = rest }) h))))
  unfolding leave_access pop
  leave_access-cases i j q h = elim (List-cases q.queue) [
    | inl empty ↦ inl (empty, rw empty)
    | inr (r, rest, found) ↦ inr (r, rest, found, rw found)
  ]

  pub leave_broker-cases :
      (j : ℕ) (q : Queue R) (h : Handler R G H)
      → ((q.queue ≡ []) × (leave_broker j q h ≡ ok (with_broker j (idle q) h)))
        ⊎ ((r : ℕ) × (rest : List ℕ) × (q.queue ≡ r ∷ rest)
            × (leave_broker j q h
                ≡ ok (
                    scheduled
                      (at_broker broker_service_start (now h) j r)
                      (with_broker j (record q { queue = rest }) h))))
  unfolding leave_broker pop
  leave_broker-cases j q h = elim (List-cases q.queue) [
    | inl empty ↦ inl (empty, rw empty)
    | inr (r, rest, found) ↦ inr (r, rest, found, rw found)
  ]
