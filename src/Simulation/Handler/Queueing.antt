-- ===== src/Simulation/Handler/Queueing.antt =====
-- Joining and leaving a queue: the state stays well formed and a unit that joins has one more place.
use traffic_emulator.Common.{
  ℕ, ◌<◌, ◌≡◌, refl, sym, ap, subst, true, some, List, [], ◌∷◌, length, get_elem?, arith, ok, inl,
  inr, ◌⊎◌, Bool-cases, else_of_true, then_of_false,
}
use traffic_emulator.Common.Sums.{get2, sum_of}
use traffic_emulator.Num.{Num}
use traffic_emulator.Simulation.Queues.{Queue, push}
use traffic_emulator.Simulation.Events.{
  EventType, access_service_start, access_service_complete, broker_arrival, broker_service_start,
  broker_service_complete,
}
use traffic_emulator.Simulation.Engine.{Heap, IsHeap}
use traffic_emulator.Simulation.Handler.{
  Handler, scheduled, with_access, with_broker, join_access, join_broker, leave_access,
  leave_broker, idle, now, at_access, at_broker,
}
use traffic_emulator.Simulation.Handler.Places.{
  places, places-scheduled, places-with_access, places-with_broker, leave_access-cases,
  leave_broker-cases,
}
use traffic_emulator.Simulation.Handler.Shape.{
  IsWellFormed, stranded, malformed, scheduled-IsWellFormed, with_access-IsWellFormed,
  with_broker-IsWellFormed,
}

module _ {R : Type 0} where
  stranded-rest :
      (rest : List ℕ) (q : Queue R) {r : ℕ}
      → q.queue ≡ r ∷ rest
      → stranded q ≡ 0
      → stranded (record q { queue = rest }) ≡ 0
  stranded-rest rest q found fine = ground (arith, ap length found)

  stranded-empty : (q : Queue R) → q.queue ≡ [] → stranded (idle q) ≡ 0
  stranded-empty q found = ap length found

module _ {R : Type 0} (n_sources n_brokers : ℕ) where
  -- a service event at a link or a broker of the topology is well formed
  pub access_event-fine :
      (kind : EventType) (t : R) (i j r : ℕ)
      → (kind ≡ access_service_start) ⊎ (kind ≡ access_service_complete)
      → i < n_sources
      → j < n_brokers
      → malformed n_sources n_brokers (at_access kind t i j r) ≡ 0
  access_event-fine kind t i j r (inl k) hi hj = rw k (ground arith)
  access_event-fine kind t i j r (inr k) hi hj = rw k (ground arith)

  pub broker_event-fine :
      (kind : EventType) (t : R) (j r : ℕ)
      → (kind ≡ broker_service_start) ⊎ (kind ≡ broker_service_complete) ⊎ (kind ≡ broker_arrival)
      → j < n_brokers
      → malformed n_sources n_brokers (at_broker kind t j r) ≡ 0
  broker_event-fine kind t j r (inl k) hj = rw k (ground arith)
  broker_event-fine kind t j r (inr (inl k)) hj = rw k (ground arith)
  broker_event-fine kind t j r (inr (inr k)) hj = rw k (ground arith)

module _ {R G H : Type 0} ⦃p : Heap R H⦄ where
  join_access-cases :
      (i j r : ℕ) (q : Queue R) (h : Handler R G H)
      → ((q.is_busy ≡ true) × (join_access i j r q h ≡ with_access i j (push r q) h))
        ⊎ (join_access i j r q h ≡ scheduled (at_access access_service_start (now h) i j r) h)
  unfolding join_access
  join_access-cases i j r q h = elim (Bool-cases q.is_busy) [
    | inl b ↦ inl (b, else_of_true _ _ b)
    | inr b ↦ inr (then_of_false _ _ b)
  ]

  join_broker-cases :
      (j r : ℕ) (q : Queue R) (h : Handler R G H)
      → ((q.is_busy ≡ true) × (join_broker j r q h ≡ with_broker j (push r q) h))
        ⊎ (join_broker j r q h ≡ scheduled (at_broker broker_service_start (now h) j r) h)
  unfolding join_broker
  join_broker-cases j r q h = elim (Bool-cases q.is_busy) [
    | inl b ↦ inl (b, else_of_true _ _ b)
    | inr b ↦ inr (then_of_false _ _ b)
  ]

  pub join_access-counter :
      (i j r : ℕ) (q : Queue R) (h : Handler R G H)
      → (join_access i j r q h).request_id_counter ≡ h.request_id_counter
  unfolding join_access
  join_access-counter i j r q h = ground arith

  pub join_access-completed :
      (i j r : ℕ) (q : Queue R) (h : Handler R G H)
      → ((join_access i j r q h).state).completed ≡ (h.state).completed
  unfolding join_access
  join_access-completed i j r q h = ground arith

  pub join_access-requests :
      (i j r : ℕ) (q : Queue R) (h : Handler R G H)
      → ((join_access i j r q h).state).requests ≡ (h.state).requests
  unfolding join_access
  join_access-requests i j r q h = ground arith

  pub join_broker-counter :
      (j r : ℕ) (q : Queue R) (h : Handler R G H)
      → (join_broker j r q h).request_id_counter ≡ h.request_id_counter
  unfolding join_broker
  join_broker-counter j r q h = ground arith

  pub join_broker-completed :
      (j r : ℕ) (q : Queue R) (h : Handler R G H)
      → ((join_broker j r q h).state).completed ≡ (h.state).completed
  unfolding join_broker
  join_broker-completed j r q h = ground arith

  pub join_broker-requests :
      (j r : ℕ) (q : Queue R) (h : Handler R G H)
      → ((join_broker j r q h).state).requests ≡ (h.state).requests
  unfolding join_broker
  join_broker-requests j r q h = ground arith

  -- What leaving a queue leaves alone: every unit's places, the counts and the records.
  pub record IsLeft (h h' : Handler R G H) : Type 0 where
    pub places_same : (w : ℕ → ℕ) → places w h' ≡ places w h
    pub counter_same : h'.request_id_counter ≡ h.request_id_counter
    pub completed_same : (h'.state).completed ≡ (h.state).completed
    pub requests_same : (h'.state).requests ≡ (h.state).requests

  module _ ⦃n : Num R⦄ (heap : IsHeap R H) (n_sources n_brokers : ℕ) where
    pub join_access-IsWellFormed :
        (i j r : ℕ) {q : Queue R} (h : Handler R G H)
        → i < n_sources
        → j < n_brokers
        → get2 (h.state).access_queues i j ≡ some q
        → IsWellFormed n_sources n_brokers h
        → IsWellFormed n_sources n_brokers (join_access i j r q h)
    join_access-IsWellFormed i j r {q} h i_lt j_lt found wf = elim (join_access-cases i j r q h) [
      | inl (b, joined) ↦
          subst (IsWellFormed n_sources n_brokers) (sym joined)
            (with_access-IsWellFormed n_sources n_brokers i j (push r q) h found (rw b refl) wf)
      | inr joined ↦ subst (IsWellFormed n_sources n_brokers) (sym joined) (
          scheduled-IsWellFormed n_sources n_brokers heap
            (at_access access_service_start (now h) i j r) h
            (access_event-fine n_sources n_brokers access_service_start (now h) i j r (inl refl)
              i_lt j_lt)
            wf)
    ]

    pub join_broker-IsWellFormed :
        (j r : ℕ) {q : Queue R} (h : Handler R G H)
        → j < n_brokers
        → get_elem? (h.state).broker_queues j ≡ some q
        → IsWellFormed n_sources n_brokers h
        → IsWellFormed n_sources n_brokers (join_broker j r q h)
    join_broker-IsWellFormed j r {q} h j_lt found wf = elim (join_broker-cases j r q h) [
      | inl (b, joined) ↦
          subst (IsWellFormed n_sources n_brokers) (sym joined)
            (with_broker-IsWellFormed n_sources n_brokers j (push r q) h found (rw b refl) wf)
      | inr joined ↦ subst (IsWellFormed n_sources n_brokers) (sym joined) (
          scheduled-IsWellFormed n_sources n_brokers heap
            (at_broker broker_service_start (now h) j r) h
            (broker_event-fine n_sources n_brokers broker_service_start (now h) j r (inl refl) j_lt)
            wf)
    ]

    pub leave_access-Leaves :
        (i j : ℕ) {q : Queue R} (h : Handler R G H)
        → i < n_sources
        → j < n_brokers
        → get2 (h.state).access_queues i j ≡ some q
        → stranded q ≡ 0
        → IsWellFormed n_sources n_brokers h
        → (h' : Handler R G H) × (leave_access i j q h ≡ ok h')
          × IsWellFormed n_sources n_brokers h'
          × IsLeft h h'
    leave_access-Leaves i j {q} h i_lt j_lt found fine wf = elim (leave_access-cases i j q h) [
      | inl (empty, left) ↦ (
        with_access i j (idle q) h,
        left,
        with_access-IsWellFormed n_sources n_brokers i j (idle q) h found (stranded-empty q empty)
            wf,
        record {
          places_same = λ w. omega (arith, places-with_access w i j q (idle q) h found);
          counter_same = refl;
          completed_same = refl;
          requests_same = refl;
        },
      )
      | inr (r, rest, waits, left) ↦
          let q' = record q { queue = rest } in
          let h1 = with_access i j q' h in
          let ev = at_access access_service_start (now h) i j r in
          (
            scheduled ev h1,
            left,
            scheduled-IsWellFormed n_sources n_brokers heap ev h1
                (access_event-fine n_sources n_brokers access_service_start (now h) i j r (inl refl)
                  i_lt j_lt)
                (with_access-IsWellFormed n_sources n_brokers i j q' h found
                  (stranded-rest rest q waits fine) wf),
            record {
              places_same = λ w. omega (
                arith,
                places-scheduled w heap ev h1,
                places-with_access w i j q q' h found,
                ap (sum_of w) waits,
              );
              counter_same = refl;
              completed_same = refl;
              requests_same = refl;
            },
          )
    ]

    pub leave_broker-Leaves :
        (j : ℕ) {q : Queue R} (h : Handler R G H)
        → j < n_brokers
        → get_elem? (h.state).broker_queues j ≡ some q
        → stranded q ≡ 0
        → IsWellFormed n_sources n_brokers h
        → (h' : Handler R G H) × (leave_broker j q h ≡ ok h')
          × IsWellFormed n_sources n_brokers h'
          × IsLeft h h'
    leave_broker-Leaves j {q} h j_lt found fine wf = elim (leave_broker-cases j q h) [
      | inl (empty, left) ↦ (
        with_broker j (idle q) h,
        left,
        with_broker-IsWellFormed n_sources n_brokers j (idle q) h found (stranded-empty q empty) wf,
        record {
          places_same = λ w. omega (arith, places-with_broker w j q (idle q) h found);
          counter_same = refl;
          completed_same = refl;
          requests_same = refl;
        },
      )
      | inr (r, rest, waits, left) ↦
          let q' = record q { queue = rest } in
          let h1 = with_broker j q' h in
          let ev = at_broker broker_service_start (now h) j r in
          (
            scheduled ev h1,
            left,
            scheduled-IsWellFormed n_sources n_brokers heap ev h1
                (broker_event-fine n_sources n_brokers broker_service_start (now h) j r (inl refl)
                  j_lt)
                (with_broker-IsWellFormed n_sources n_brokers j q' h found
                  (stranded-rest rest q waits fine) wf),
            record {
              places_same = λ w. omega (
                arith,
                places-scheduled w heap ev h1,
                places-with_broker w j q q' h found,
                ap (sum_of w) waits,
              );
              counter_same = refl;
              completed_same = refl;
              requests_same = refl;
            },
          )
    ]
