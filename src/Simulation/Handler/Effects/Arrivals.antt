-- ===== src/Simulation/Handler/Effects/Arrivals.antt =====
-- The handler of a source's arrival: a unit enters, and the next arrival is scheduled.
use traffic_emulator.Common.{
  ℕ, ◌+◌, ◌<◌, ◌≡◌, refl, ap, ◌∙◌, none, some, List, length, get_elem?_total, arith, ReturnsUnless,
  unless_ok, unless_err, Result-cases, inl, inr,
}
use traffic_emulator.Common.Sums.{get2, set2}
use traffic_emulator.Common.Dict.{contains, contains-insert}
use traffic_emulator.Num.{Num, ◌⊕◌, ◌⊘◌}
use traffic_emulator.Simulation.Queues.{Queue, Request}
use traffic_emulator.Simulation.Events.{Event}
use traffic_emulator.Simulation.Engine.{Heap, IsHeap}
use traffic_emulator.Simulation.Handler.{
  Handler, Rng, IsRng, scheduled, with_request, send, now, at_source, handle_source_arrival,
  route_probs, from_ℕ, ChoiceRefused,
}
use traffic_emulator.Simulation.Handler.Places.{places, places-scheduled, places-join_access}
use traffic_emulator.Simulation.Handler.Shape.{
  IsWellFormed, IsTable, get2_total, set2-IsTable, scheduled-IsWellFormed,
}
use traffic_emulator.Simulation.Handler.Queueing.{
  join_access-IsWellFormed, join_access-counter, join_access-completed, join_access-requests,
}
use traffic_emulator.Simulation.Handler.Effects.{IsEntry}

module _ {R G H : Type 0} ⦃p : Heap R H⦄ ⦃n : Num R⦄ (heap : IsHeap R H)
    (n_sources n_brokers : ℕ) where
  send-IsEntry :
      (i j : ℕ) {q : Queue R} (h : Handler R G H)
      → i < n_sources
      → j < n_brokers
      → get2 (h.state).access_queues i j ≡ some q
      → IsWellFormed n_sources n_brokers h
      → IsWellFormed n_sources n_brokers (send i j q h) × IsEntry h (send i j q h)
  unfolding send
  send-IsEntry i j {q} h i_lt j_lt found wf =
      let r = h.request_id_counter in
      let req : Request R = record {
        arrival = now h;
        source = i;
        access_complete = none;
        broker_complete = none;
      } in
      let h1 = with_request r req (record h { request_id_counter = r + 1 }) in
      let wf1 : IsWellFormed n_sources n_brokers h1 = record {
        fits = wf.fits;
        arrivals = wf.arrivals;
        access_arrivals = wf.access_arrivals;
        access_queues = wf.access_queues;
        broker_queues = wf.broker_queues;
        events = wf.events;
      } in
      (
        join_access-IsWellFormed heap n_sources n_brokers i j r h1 i_lt j_lt found wf1,
        record {
          entered = λ w. places-join_access w heap i j r q h1 found;
          numbered = join_access-counter i j r q h1;
          completed_same = join_access-completed i j r q h1;
          recorded = λ k.
              ap (contains k) (join_access-requests i j r q h1)
              ∙ contains-insert k r req (h.state).requests;
        },
      )

  -- the next arrival of the source is scheduled, and counted at the link
  arrival_scheduled :
      (i : ℕ) (t : R) (g : G) (arrivals : List (List ℕ)) (h : Handler R G H)
      → i < n_sources
      → IsTable n_sources n_brokers arrivals
      → IsWellFormed n_sources n_brokers h
      → let counted = record h {
        rng = g;
        control = record (h.control) { window_access_arrivals = arrivals };
      } in
        let next = scheduled (at_source t i) counted in
        IsWellFormed n_sources n_brokers next × ((w : ℕ → ℕ) → places w next ≡ places w h)
  arrival_scheduled i t g arrivals h i_lt table wf =
      let counted = record h {
        rng = g;
        control = record (h.control) { window_access_arrivals = arrivals };
      } in
      (
        scheduled-IsWellFormed n_sources n_brokers heap (at_source t i) counted
            (ground (arith, i_lt))
            (record {
              fits = wf.fits;
              arrivals = wf.arrivals;
              access_arrivals = table;
              access_queues = wf.access_queues;
              broker_queues = wf.broker_queues;
              events = wf.events;
            }),
        λ w. omega (arith, places-scheduled w heap (at_source t i) counted),
      )

  pub handle_source_arrival-IsEntry :
      ⦃rng : Rng R G⦄ (fair : IsRng R G) (event : Event R) (h : Handler R G H) {i : ℕ}
      → event.source_id ≡ some i
      → i < n_sources
      → IsWellFormed n_sources n_brokers h
      → ReturnsUnless
          (ChoiceRefused event h)
          (λ h'. IsWellFormed n_sources n_brokers h' × IsEntry h h')
          (handle_source_arrival event h)
  unfolding handle_source_arrival
  handle_source_arrival-IsEntry ⦃rng⦄ fair event h {i} hi i_lt wf =
      let (lam, rated) =
        get_elem?_total (h.topology).lambdas_total i (omega (arith, ((wf.fits).sized).rates)) in
      let drawn = rng.exponential (n.unit ⊘ lam) h.rng in
      let (flows, planned) =
        get_elem?_total (h.control).x_ij i (omega (arith, (wf.fits).routing)) in
      let count = length (h.topology).brokers in
      let probs = route_probs flows count (from_ℕ count) in
      let Q = ChoiceRefused event h in
      let P = λ (h' : Handler R G H). IsWellFormed n_sources n_brokers h' × IsEntry h h' in
      elim (Result-cases (rng.choice count probs drawn.1)) [
        | inr (e, refused) ↦
            unless_err Q P e (rw (hi, rated, planned, refused) refl)
              (i, lam, flows, hi, rated, planned, refused)
        | inl (chosen, picked) ↦
            let j = chosen.0 in
            let j_lt : j < n_brokers = omega (
              arith,
              fair.choice-lt count probs drawn.1 chosen
                  (omega (arith, ((wf.fits).sized).brokers, ((wf.fits).sized).some_broker)) picked,
              ((wf.fits).sized).brokers,
            ) in
            let (arrived, counted) =
              get2_total n_sources n_brokers (h.control).window_access_arrivals i j
                wf.access_arrivals i_lt j_lt in
            let (q, found) =
              get2_total n_sources n_brokers (h.state).access_queues i j wf.access_queues.0 i_lt
                j_lt in
            let arrivals = set2 (h.control).window_access_arrivals i j (arrived + 1) in
            let next = scheduled (at_source (now h ⊕ drawn.0) i) (record h {
              rng = chosen.1;
              control = record (h.control) { window_access_arrivals = arrivals };
            }) in
            let (next_wf, same) =
              arrival_scheduled i (now h ⊕ drawn.0) chosen.1 arrivals h i_lt
                (set2-IsTable n_sources n_brokers (h.control).window_access_arrivals i j
                  (arrived + 1) wf.access_arrivals)
                wf in
            let (sent_wf, sent) = send-IsEntry i j next i_lt j_lt found next_wf in
            unless_ok Q P (send i j q next) (rw (hi, rated, planned, picked, counted, found) refl) (
              sent_wf,
              record {
                entered = λ w. omega (arith, sent.entered w, same w);
                numbered = sent.numbered;
                completed_same = sent.completed_same;
                recorded = sent.recorded;
              },
            )
      ]
