-- ===== src/Simulation/Handler/Effects/Services.antt =====
-- The handlers that start a service, and the arrival at a broker: the unit moves on.
use traffic_emulator.Common.{
  ℕ, ◌+◌, ◌<◌, ◌≡◌, refl, ◌∙◌, some, get_elem?_total, set, length-set, arith, inl, inr, Returns,
}
use traffic_emulator.Num.{Num, ◌⊕◌, ◌⊘◌}
use traffic_emulator.Simulation.Events.{Event, access_service_complete, broker_service_complete}
use traffic_emulator.Simulation.Engine.{Heap, IsHeap}
use traffic_emulator.Simulation.Handler.{
  Handler, Rng, with_access, with_broker, busy, now, at_access, at_broker, handle_access_start,
  handle_broker_arrival, handle_broker_start,
}
use traffic_emulator.Simulation.Handler.Places.{
  places-scheduled, places-with_access, places-with_broker, places-join_broker,
}
use traffic_emulator.Simulation.Handler.Shape.{
  IsWellFormed, get2_total, scheduled-IsWellFormed, with_access-IsWellFormed,
  with_broker-IsWellFormed,
}
use traffic_emulator.Simulation.Handler.Queueing.{
  access_event-fine, broker_event-fine, join_broker-IsWellFormed, join_broker-counter,
  join_broker-completed, join_broker-requests,
}
use traffic_emulator.Simulation.Handler.Effects.{IsMove, renewed}

module _ {R G H : Type 0} ⦃p : Heap R H⦄ ⦃n : Num R⦄ (heap : IsHeap R H)
    (n_sources n_brokers : ℕ) where
  pub handle_access_start-IsMove :
      ⦃rng : Rng R G⦄ (event : Event R) (h : Handler R G H) {i j r : ℕ}
      → event.source_id ≡ some i
      → event.broker_id ≡ some j
      → event.request_id ≡ some r
      → i < n_sources
      → j < n_brokers
      → IsWellFormed n_sources n_brokers h
      → Returns
          (λ h'. IsWellFormed n_sources n_brokers h' × IsMove r h h')
          (handle_access_start event h)
  unfolding handle_access_start
  handle_access_start-IsMove ⦃rng⦄ event h {i} {j} {r} hi hj hr i_lt j_lt wf =
      let (q, found) =
        get2_total n_sources n_brokers (h.state).access_queues i j wf.access_queues.0 i_lt j_lt in
      let (mu, served) =
        get2_total n_sources n_brokers (h.topology).mu_links i j ((wf.fits).sized).links i_lt
          j_lt in
      let drawn = rng.exponential (n.unit ⊘ mu) h.rng in
      let drawn_h = record h { rng = drawn.1 } in
      let started = with_access i j (busy q) drawn_h in
      let ev = at_access access_service_complete (now h ⊕ drawn.0) i j r in
      rw (hi, hj, hr, found, served)
        (
          scheduled-IsWellFormed n_sources n_brokers heap ev started
              (access_event-fine n_sources n_brokers access_service_complete (now h ⊕ drawn.0) i j r
                (inr refl) i_lt j_lt)
              (with_access-IsWellFormed n_sources n_brokers i j (busy q) drawn_h found refl
                (renewed heap n_sources n_brokers drawn.1 wf)),
          record {
            moved = λ w.
                (omega (
                  arith,
                  places-scheduled w heap ev started,
                  places-with_access w i j q (busy q) drawn_h found,
                ));
            counter_same = refl;
            completed_same = refl;
            kept = λ k known. known;
          },
        )

  pub handle_broker_start-IsMove :
      ⦃rng : Rng R G⦄ (event : Event R) (h : Handler R G H) {j r : ℕ}
      → event.broker_id ≡ some j
      → event.request_id ≡ some r
      → j < n_brokers
      → IsWellFormed n_sources n_brokers h
      → Returns
          (λ h'. IsWellFormed n_sources n_brokers h' × IsMove r h h')
          (handle_broker_start event h)
  unfolding handle_broker_start
  handle_broker_start-IsMove ⦃rng⦄ event h {j} {r} hj hr j_lt wf =
      let (q, found) =
        get_elem?_total (h.state).broker_queues j (omega (arith, wf.broker_queues.0)) in
      let (mu, served) =
        get_elem?_total (h.topology).mu_brokers j (omega (arith, ((wf.fits).sized).capacities)) in
      let drawn = rng.exponential (n.unit ⊘ mu) h.rng in
      let drawn_h = record h { rng = drawn.1 } in
      let started = with_broker j (busy q) drawn_h in
      let ev = at_broker broker_service_complete (now h ⊕ drawn.0) j r in
      rw (hj, hr, found, served)
        (
          scheduled-IsWellFormed n_sources n_brokers heap ev started
              (broker_event-fine n_sources n_brokers broker_service_complete (now h ⊕ drawn.0) j r
                (inr (inl refl)) j_lt)
              (with_broker-IsWellFormed n_sources n_brokers j (busy q) drawn_h found refl
                (renewed heap n_sources n_brokers drawn.1 wf)),
          record {
            moved = λ w. omega (
              arith,
              places-scheduled w heap ev started,
              places-with_broker w j q (busy q) drawn_h found,
            );
            counter_same = refl;
            completed_same = refl;
            kept = λ k known. known;
          },
        )

  pub handle_broker_arrival-IsMove :
      (event : Event R) (h : Handler R G H) {j r : ℕ}
      → event.broker_id ≡ some j
      → event.request_id ≡ some r
      → j < n_brokers
      → IsWellFormed n_sources n_brokers h
      → Returns
          (λ h'. IsWellFormed n_sources n_brokers h' × IsMove r h h')
          (handle_broker_arrival event h)
  unfolding handle_broker_arrival
  handle_broker_arrival-IsMove event h {j} {r} hj hr j_lt wf =
      let (count, counted) =
        get_elem?_total (h.control).window_arrivals j (omega (arith, wf.arrivals)) in
      let (q, found) =
        get_elem?_total (h.state).broker_queues j (omega (arith, wf.broker_queues.0)) in
      let arrivals = set (h.control).window_arrivals j (count + 1) in
      let h0 = record h { control = record (h.control) { window_arrivals = arrivals } } in
      let wf0 : IsWellFormed n_sources n_brokers h0 = record {
        fits = wf.fits;
        arrivals = length-set (h.control).window_arrivals j (count + 1) ∙ wf.arrivals;
        access_arrivals = wf.access_arrivals;
        access_queues = wf.access_queues;
        broker_queues = wf.broker_queues;
        events = wf.events;
      } in
      rw (hj, hr, counted, found)
        (
          join_broker-IsWellFormed heap n_sources n_brokers j r h0 j_lt found wf0,
          record {
            moved = λ w. places-join_broker w heap j r q h0 found;
            counter_same = join_broker-counter j r q h0;
            completed_same = join_broker-completed j r q h0;
            kept = λ k known. rw (join_broker-requests j r q h0) known;
          },
        )
