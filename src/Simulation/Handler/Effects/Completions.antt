-- ===== src/Simulation/Handler/Effects/Completions.antt =====
-- The handlers of a completed service: at an access link the unit moves on to its broker, at a broker
-- it is completed.
use traffic_emulator.Common.{
  ℕ, ◌<◌, ◌≡◌, refl, ap, ◌∙◌, true, some, get_elem?_total, arith, inr, Returns,
}
use traffic_emulator.Common.Sums.{le-sum_of, le-sum2_of}
use traffic_emulator.Common.Dict.{contains, lookup_total}
use traffic_emulator.Num.{Num}
use traffic_emulator.Simulation.Events.{Event, broker_arrival}
use traffic_emulator.Simulation.Engine.{Heap, IsHeap}
use traffic_emulator.Simulation.Handler.{
  Handler, with_request, complete, now, at_broker, handle_access_complete, handle_broker_complete,
}
use traffic_emulator.Simulation.Handler.Places.{places-scheduled}
use traffic_emulator.Simulation.Handler.Shape.{
  IsWellFormed, get2_total, stranded, scheduled-IsWellFormed,
}
use traffic_emulator.Simulation.Handler.Queueing.{
  broker_event-fine, leave_access-Leaves, leave_broker-Leaves,
}
use traffic_emulator.Simulation.Handler.Effects.{IsMove, IsCompletion, kept_insert, kept_complete}

module _ {R G H : Type 0} ⦃p : Heap R H⦄ ⦃n : Num R⦄ (heap : IsHeap R H)
    (n_sources n_brokers : ℕ) where
  pub handle_access_complete-IsMove :
      (event : Event R) (h : Handler R G H) {i j r : ℕ}
      → event.source_id ≡ some i
      → event.broker_id ≡ some j
      → event.request_id ≡ some r
      → i < n_sources
      → j < n_brokers
      → contains r (h.state).requests ≡ true
      → IsWellFormed n_sources n_brokers h
      → Returns
          (λ h'. IsWellFormed n_sources n_brokers h' × IsMove r h h')
          (handle_access_complete event h)
  unfolding handle_access_complete
  handle_access_complete-IsMove event h {i} {j} {r} hi hj hr i_lt j_lt known wf =
      let (req, recorded) = lookup_total r (h.state).requests known in
      let stamped = with_request r (record req { access_complete = some (now h) }) h in
      let wf0 : IsWellFormed n_sources n_brokers stamped = record {
        fits = wf.fits;
        arrivals = wf.arrivals;
        access_arrivals = wf.access_arrivals;
        access_queues = wf.access_queues;
        broker_queues = wf.broker_queues;
        events = wf.events;
      } in
      let (q, found) =
        get2_total n_sources n_brokers (h.state).access_queues i j wf.access_queues.0 i_lt j_lt in
      let fine : stranded q ≡ 0 =
        omega
          (arith, le-sum2_of stranded (h.state).access_queues i j q found, wf.access_queues.1) in
      let (left, leaves, left_wf, same) =
        leave_access-Leaves heap n_sources n_brokers i j stamped i_lt j_lt found fine wf0 in
      let ev = at_broker broker_arrival (now left) j r in
      rw (hi, hj, hr, recorded, found)
        (rw leaves (
          scheduled-IsWellFormed n_sources n_brokers heap ev left
              (broker_event-fine n_sources n_brokers broker_arrival (now left) j r (inr (inr refl))
                j_lt)
              left_wf,
          record {
            moved = λ w. omega (arith, places-scheduled w heap ev left, same.places_same w);
            counter_same = same.counter_same;
            completed_same = same.completed_same;
            kept = λ k was. kept_insert k r _ _ same.requests_same was;
          },
        ))

  pub handle_broker_complete-IsCompletion :
      (event : Event R) (h : Handler R G H) {j r : ℕ}
      → event.broker_id ≡ some j
      → event.request_id ≡ some r
      → j < n_brokers
      → contains r (h.state).requests ≡ true
      → IsWellFormed n_sources n_brokers h
      → Returns
          (λ h'. IsWellFormed n_sources n_brokers h' × IsCompletion r h h')
          (handle_broker_complete event h)
  unfolding handle_broker_complete complete
  handle_broker_complete-IsCompletion event h {j} {r} hj hr j_lt known wf =
      let (req, recorded) = lookup_total r (h.state).requests known in
      let done = complete r req h in
      let wf0 : IsWellFormed n_sources n_brokers done = record {
        fits = wf.fits;
        arrivals = wf.arrivals;
        access_arrivals = wf.access_arrivals;
        access_queues = wf.access_queues;
        broker_queues = wf.broker_queues;
        events = wf.events;
      } in
      let (q, found) =
        get_elem?_total (h.state).broker_queues j (omega (arith, wf.broker_queues.0)) in
      let fine : stranded q ≡ 0 =
        omega (arith, le-sum_of stranded (h.state).broker_queues j q found, wf.broker_queues.1) in
      let (left, leaves, left_wf, same) =
        leave_broker-Leaves heap n_sources n_brokers j done j_lt found fine wf0 in
      rw (hj, hr, recorded, found)
        (rw leaves (
          left_wf,
          record {
            left = same.places_same;
            counter_same = same.counter_same;
            counted = same.completed_same;
            kept = λ k other was.
                ap (contains k) same.requests_same
                ∙ kept_complete k r (h.state).keep_requests _ (h.state).requests other was;
          },
        ))
