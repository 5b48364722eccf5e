-- ===== src/Simulation/Handler/Attended/Services.antt =====
-- The handlers keep every busy station attended: those of the services and of the arrivals.
use traffic_emulator.Common.{
  ℕ, ◌+◌, ◌≡◌, refl, none, some, length, get_elem?, arith, subst, sym, else_of_true, then_of_false,
  index_error, key_error, inl, inr, Bool-cases,
}
use traffic_emulator.Common.Sums.{get2}
use traffic_emulator.Common.Dict.{lookup}
use traffic_emulator.Num.{Num, ◌⊕◌, ◌⊘◌}
use traffic_emulator.Control.Diagnostics.Certificate.{OrRaises, OrRaises->>=}
use traffic_emulator.Simulation.Queues.{Queue, push}
use traffic_emulator.Simulation.Events.{
  Event, source_arrival, access_service_start, access_service_complete, broker_arrival,
  broker_service_start, broker_service_complete,
}
use traffic_emulator.Simulation.Engine.{Heap, IsHeap}
use traffic_emulator.Simulation.Handler.{
  Handler, Rng, scheduled, with_access, with_broker, with_request, busy, now, at_access, at_broker,
  at_source, add_one, add_one2, route_probs, from_ℕ, complete, join_access, join_broker,
  leave_access, leave_broker, handle_access_start, handle_access_complete, handle_broker_arrival,
  handle_broker_start, handle_broker_complete, handle_source_arrival,
}
use traffic_emulator.Simulation.Handler.Places.{leave_access-cases, leave_broker-cases}
use traffic_emulator.Simulation.Handler.Attended.{
  Station, link, server, serves, none_given, Attends, kept-Attends, scheduled-Attends,
  with_access-Attends, with_broker-Attends, idle_access-Attends, idle_broker-Attends,
}
use traffic_emulator.Simulation.Handler.Attended.Serving.{
  looked_up, of_ok, same_link, same_server, own_link, own_server, serves_none,
}

module _ {R G H : Type 0} ⦃n : Num R⦄ ⦃p : Heap R H⦄ (heap : IsHeap R H) where
  abbrev pub Attended : Handler R G H → Type 0
  Attended = Attends none_given

  -- an event that serves no station is not missed
  pub dropped :
      (event : Event R) (h : Handler R G H)
      → ((s : Station) → serves s event ≡ 0)
      → Attends (λ s. serves s event) h
      → Attended h
  dropped event h idle_event a s q found is_busy = omega (arith, idle_event s, a s q found is_busy)

  -- one more event takes none away
  pub scheduled_more : (e : Event R) (h : Handler R G H) → Attended h → Attended (scheduled e h)
  scheduled_more e h = scheduled-Attends heap none_given none_given e h (λ s. omega arith)

  join_access-Attended :
      (i j r : ℕ) (q : Queue R) (h : Handler R G H)
      → get2 (h.state).access_queues i j ≡ some q
      → Attended h
      → Attended (join_access i j r q h)
  unfolding join_access
  join_access-Attended i j r q h found a = elim (Bool-cases q.is_busy) [
    | inl waits ↦
        subst Attended (sym (else_of_true _ _ waits))
          (with_access-Attends none_given i j (push r q) h (λ b. a (link i j) q found waits) a)
    | inr starts ↦
        subst Attended (sym (then_of_false _ _ starts))
          (scheduled_more (at_access access_service_start (now h) i j r) h a)
  ]

  join_broker-Attended :
      (j r : ℕ) (q : Queue R) (h : Handler R G H)
      → get_elem? (h.state).broker_queues j ≡ some q
      → Attended h
      → Attended (join_broker j r q h)
  unfolding join_broker
  join_broker-Attended j r q h found a = elim (Bool-cases q.is_busy) [
    | inl waits ↦
        subst Attended (sym (else_of_true _ _ waits))
          (with_broker-Attends none_given j (push r q) h (λ b. a (server j) q found waits) a)
    | inr starts ↦
        subst Attended (sym (then_of_false _ _ starts))
          (scheduled_more (at_broker broker_service_start (now h) j r) h a)
  ]

  pub handle_access_start-Attended :
      ⦃rng : Rng R G⦄ (event : Event R) (h : Handler R G H)
      → event.event_type ≡ access_service_start
      → Attends (λ s. serves s event) h
      → OrRaises Attended (handle_access_start event h)
  unfolding handle_access_start
  handle_access_start-Attended ⦃rng⦄ event h kind a =
      looked_up Attended event.source_id index_error _ λ i hi.
        looked_up Attended event.broker_id index_error _ λ j hj.
          looked_up Attended event.request_id index_error _ λ r hr.
            looked_up Attended (get2 (h.state).access_queues i j) key_error _ λ q hq.
              looked_up Attended (get2 (h.topology).mu_links i j) index_error _ λ mu hm.
                let drawn = rng.exponential (n.unit ⊘ mu) h.rng in
                let drawn_h = record h { rng = drawn.1 } in
                let given = λ (s : Station). serves s event in
                scheduled-Attends heap given none_given
                  (at_access access_service_complete (now h ⊕ drawn.0) i j r)
                  (with_access i j (busy q) drawn_h)
                  (same_link event access_service_complete (now h ⊕ drawn.0) i j r refl
                    (rw kind refl) hi hj)
                  (with_access-Attends given i j (busy q) drawn_h
                    (λ b. omega (arith, own_link event i j (rw kind refl) hi hj)) a)

  pub handle_broker_start-Attended :
      ⦃rng : Rng R G⦄ (event : Event R) (h : Handler R G H)
      → event.event_type ≡ broker_service_start
      → Attends (λ s. serves s event) h
      → OrRaises Attended (handle_broker_start event h)
  unfolding handle_broker_start
  handle_broker_start-Attended ⦃rng⦄ event h kind a =
      looked_up Attended event.broker_id index_error _ λ j hj.
        looked_up Attended event.request_id index_error _ λ r hr.
          looked_up Attended (get_elem? (h.state).broker_queues j) key_error _ λ q hq.
            looked_up Attended (get_elem? (h.topology).mu_brokers j) index_error _ λ mu hm.
              let drawn = rng.exponential (n.unit ⊘ mu) h.rng in
              let drawn_h = record h { rng = drawn.1 } in
              let given = λ (s : Station). serves s event in
              scheduled-Attends heap given none_given
                (at_broker broker_service_complete (now h ⊕ drawn.0) j r)
                (with_broker j (busy q) drawn_h)
                (same_server event broker_service_complete (now h ⊕ drawn.0) j r refl (rw kind refl)
                  hj)
                (with_broker-Attends given j (busy q) drawn_h
                  (λ b. omega (arith, own_server event j (rw kind refl) hj)) a)

  leave_access-Attended :
      (event : Event R) (i j : ℕ) (q : Queue R) (h : Handler R G H)
      → event.event_type ≡ access_service_complete
      → event.source_id ≡ some i
      → event.broker_id ≡ some j
      → get2 (h.state).access_queues i j ≡ some q
      → Attends (λ s. serves s event) h
      → OrRaises Attended (leave_access i j q h)
  leave_access-Attended event i j q h kind hi hj found a = elim (leave_access-cases i j q h) [
    | inl (empty, left) ↦ rw left (idle_access-Attends event i j q h kind hi hj a)
    | inr (r, rest, waits, left) ↦ rw left (
        scheduled-Attends heap (λ s. serves s event) none_given
          (at_access access_service_start (now h) i j r)
          (with_access i j (record q { queue = rest }) h)
          (same_link event access_service_start (now h) i j r refl (rw kind refl) hi hj)
          (with_access-Attends (λ s. serves s event) i j (record q { queue = rest }) h
            (λ b. omega (arith, own_link event i j (rw kind refl) hi hj)) a))
  ]

  leave_broker-Attended :
      (event : Event R) (j : ℕ) (q : Queue R) (h : Handler R G H)
      → event.event_type ≡ broker_service_complete
      → event.broker_id ≡ some j
      → get_elem? (h.state).broker_queues j ≡ some q
      → Attends (λ s. serves s event) h
      → OrRaises Attended (leave_broker j q h)
  leave_broker-Attended event j q h kind hj found a = elim (leave_broker-cases j q h) [
    | inl (empty, left) ↦ rw left (idle_broker-Attends event j q h kind hj a)
    | inr (r, rest, waits, left) ↦ rw left (
        scheduled-Attends heap (λ s. serves s event) none_given
          (at_broker broker_service_start (now h) j r) (with_broker j (record q { queue = rest }) h)
          (same_server event broker_service_start (now h) j r refl (rw kind refl) hj)
          (with_broker-Attends (λ s. serves s event) j (record q { queue = rest }) h
            (λ b. omega (arith, own_server event j (rw kind refl) hj)) a))
  ]

  pub handle_access_complete-Attended :
      (event : Event R) (h : Handler R G H)
      → event.event_type ≡ access_service_complete
      → Attends (λ s. serves s event) h
      → OrRaises Attended (handle_access_complete event h)
  unfolding handle_access_complete
  handle_access_complete-Attended event h kind a =
      looked_up Attended event.source_id index_error _ λ i hi.
        looked_up Attended event.broker_id index_error _ λ j hj.
          looked_up Attended event.request_id index_error _ λ r hr.
            looked_up Attended (lookup r (h.state).requests) key_error _ λ req hreq.
              let stamped = with_request r (record req { access_complete = some (now h) }) h in
              looked_up Attended (get2 (stamped.state).access_queues i j) key_error _ λ q hq.
                OrRaises->>= Attended (leave_access i j q stamped) _ λ left is_left.
                  scheduled_more (at_broker broker_arrival (now left) j r) left (
                    of_ok Attended (leave_access i j q stamped) left
                      (leave_access-Attended event i j q stamped kind hi hj hq
                        (kept-Attends (λ s. serves s event) h stamped refl refl refl a))
                      is_left)

  pub handle_broker_complete-Attended :
      (event : Event R) (h : Handler R G H)
      → event.event_type ≡ broker_service_complete
      → Attends (λ s. serves s event) h
      → OrRaises Attended (handle_broker_complete event h)
  unfolding handle_broker_complete
  handle_broker_complete-Attended event h kind a =
      looked_up Attended event.broker_id index_error _ λ j hj.
        looked_up Attended event.request_id index_error _ λ r hr.
          looked_up Attended (lookup r (h.state).requests) key_error _ λ req h_req.
            let done = complete r req h in
            looked_up Attended (get_elem? (done.state).broker_queues j) key_error _ λ q hq.
              leave_broker-Attended event j q done kind hj hq
                (kept-Attends (λ s. serves s event) h done refl refl refl a)

  pub handle_broker_arrival-Attended :
      (event : Event R) (h : Handler R G H)
      → event.event_type ≡ broker_arrival
      → Attends (λ s. serves s event) h
      → OrRaises Attended (handle_broker_arrival event h)
  unfolding handle_broker_arrival
  handle_broker_arrival-Attended event h kind a =
      let b = dropped event h (serves_none event (rw kind refl) (rw kind refl)) a in
      looked_up Attended event.broker_id index_error _ λ j hj.
        looked_up Attended event.request_id index_error _ λ r hr.
          OrRaises->>= Attended (add_one (h.control).window_arrivals j) _ λ arrivals is_arrivals.
            let counted = record h {
              control = record (h.control) { window_arrivals = arrivals };
            } in
            looked_up Attended (get_elem? (h.state).broker_queues j) key_error _
              λ q hq. join_broker-Attended j r q counted hq b

  pub handle_source_arrival-Attended :
      ⦃rng : Rng R G⦄ (event : Event R) (h : Handler R G H)
      → event.event_type ≡ source_arrival
      → Attends (λ s. serves s event) h
      → OrRaises Attended (handle_source_arrival event h)
  unfolding handle_source_arrival
  handle_source_arrival-Attended ⦃rng⦄ event h kind a =
      let b = dropped event h (serves_none event (rw kind refl) (rw kind refl)) a in
      looked_up Attended event.source_id index_error _ λ i hi.
        looked_up Attended (get_elem? (h.topology).lambdas_total i) index_error _ λ lam_i h_lam.
          let drawn = rng.exponential (n.unit ⊘ lam_i) h.rng in
          looked_up Attended (get_elem? (h.control).x_ij i) index_error _ λ flows h_flows.
            let n_brokers = length (h.topology).brokers in
            OrRaises->>= Attended
              (rng.choice n_brokers (route_probs flows n_brokers (from_ℕ n_brokers)) drawn.1) _
              λ chosen is_chosen.
                OrRaises->>= Attended (add_one2 (h.control).window_access_arrivals i chosen.0) _
                  λ arrivals is_arrivals.
                    looked_up Attended (get2 (h.state).access_queues i chosen.0) key_error _ λ q hq.
                      let h0 = record h {
                        rng = chosen.1;
                        control = record (h.control) { window_access_arrivals = arrivals };
                      } in
                      let ev = at_source (now h ⊕ drawn.0) i in
                      let sent : Handler R G H =
                        with_request h.request_id_counter
                          (record {
                            arrival = now h;
                            source = i;
                            access_complete = none;
                            broker_complete = none;
                          })
                          (record (scheduled ev h0) {
                            request_id_counter = h.request_id_counter + 1;
                          }) in
                      join_access-Attended i chosen.0 h.request_id_counter q sent hq (
                        kept-Attends none_given (scheduled ev h0) sent refl refl refl
                          (scheduled_more ev h0 (kept-Attends none_given h h0 refl refl refl b)))
