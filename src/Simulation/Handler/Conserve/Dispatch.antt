-- ===== src/Simulation/Handler/Conserve/Dispatch.antt =====
-- `handle_event` on the event that the engine pops, and with it the whole run.
use traffic_emulator.Common.{
  ℕ, ◌+◌, ◌≡◌, refl, subst, true, Option, none, some, arith, Result, ok, err, Error, Returns,
  ReturnsUnless, ReturnsUnless-map,
}
use traffic_emulator.Common.Dict.{contains}
use traffic_emulator.Num.{Num, IsOrdered}
use traffic_emulator.Num.Elementary.{Elementary, IsElementary}
use traffic_emulator.Simulation.Events.{
  Event, EventType, source_arrival, access_service_start, access_service_complete, broker_arrival,
  broker_service_start, broker_service_complete, controller_tick,
}
use traffic_emulator.Simulation.Engine.{Heap, IsHeap, Engine}
use traffic_emulator.Simulation.Handler.{
  Handler, Params, Rng, IsRng, ChoiceRefused, windowed_stochastic, handle_source_arrival,
  handle_access_start, handle_access_complete, handle_broker_arrival, handle_broker_start,
  handle_broker_complete,
}
use traffic_emulator.Simulation.Handler.Tick.{
  handle_event, dispatch, handle_controller_tick, TickRefused, Refused,
}
use traffic_emulator.Simulation.Handler.Places.{places, carried, only, each}
use traffic_emulator.Simulation.Handler.Shape.{
  IsWellFormed, StaysSized, malformed, unfit, present, misplaced_range, missing_total,
}
use traffic_emulator.Simulation.Handler.Effects.{IsEntry, IsMove, IsCompletion}
use traffic_emulator.Simulation.Handler.Effects.Services.{
  handle_access_start-IsMove, handle_broker_arrival-IsMove, handle_broker_start-IsMove,
}
use traffic_emulator.Simulation.Handler.Effects.Completions.{
  handle_access_complete-IsMove, handle_broker_complete-IsCompletion,
}
use traffic_emulator.Simulation.Handler.Effects.Arrivals.{handle_source_arrival-IsEntry}
use traffic_emulator.Simulation.Handler.Quiet.{IsQuiet, handle_controller_tick-IsQuiet}
use traffic_emulator.Simulation.Handler.Conserve.{
  IsSound, in_hand, IsMove-IsSound, IsCompletion-IsSound, IsEntry-IsSound, IsQuiet-IsSound,
}

no_unit : (o : Option ℕ) → present o ≡ 0 → o ≡ none
no_unit none h = refl
no_unit (some r) h = absurd (omega arith)

unless_map :
    {A : Type 0} (Q : Error → Type 0) (P P' : A → Type 0) (m : Result A)
    → ((a : A) → P a → P' a)
    → Returns P m
    → ReturnsUnless Q P' m
unless_map Q P P' (ok a) f p = f a p
unless_map Q P P' (err e) f p = absurd p

module _ {R G H : Type 0} ⦃p : Heap R H⦄ where
  abbrev pub engine_of : Handler R G H → Engine R H
  engine_of h = h.engine

  abbrev pub with_engine : Engine R H → Handler R G H → Handler R G H
  with_engine engine h = record h { engine = engine }

  -- the state that the handler of a popped event gets
  abbrev pub popped_state : Event R → H → Handler R G H → Handler R G H
  popped_state event rest h =
      with_engine (record (h.engine) { now = event.timestamp; event_queue = rest }) h

module _ {R G H : Type 0} ⦃n : Num R⦄ ⦃e : Elementary R⦄ ⦃rng : Rng R G⦄ ⦃p : Heap R H⦄
    (laws : IsOrdered R) (elementary : IsElementary R) (fair : IsRng R G) (heap : IsHeap R H)
    (n_sources n_brokers : ℕ) (params : Params R) (windowed : params.mode ≡ windowed_stochastic)
    (stays : StaysSized n_sources n_brokers params.topology_at) where
  -- popping an event takes its unit in hand
  popped-IsSound :
      (h : Handler R G H) (event : Event R) (rest : H)
      → IsSound n_sources n_brokers none h
      → p.heappop (h.engine).event_queue ≡ some (event, rest)
      → (malformed n_sources n_brokers event ≡ 0)
        × IsSound n_sources n_brokers event.request_id (popped_state event rest h)
  popped-IsSound h event rest s popped =
      let parts : (w : ℕ → ℕ)
          → in_hand w event.request_id + places w (popped_state event rest h) ≡ places w h =
        λ w. omega (arith, heap.sum-heappop (carried w) (h.engine).event_queue popped) in
      let bad = heap.sum-heappop (malformed n_sources n_brokers) (h.engine).event_queue popped in
      let wf = s.well_formed in
      (
        omega (arith, bad, wf.events),
        record {
          well_formed = record {
            fits = wf.fits;
            arrivals = wf.arrivals;
            access_arrivals = wf.access_arrivals;
            access_queues = wf.access_queues;
            broker_queues = wf.broker_queues;
            events = omega (arith, bad, wf.events);
          };
          conserved = omega (arith, s.conserved, parts each);
          placed_once = λ r. omega (arith, s.placed_once r, parts (only r));
          not_yet = λ r far. omega (arith, s.not_yet r far, parts (only r));
          recorded = λ r there. s.recorded r (omega (arith, there, parts (only r)));
        },
      )

  hand_over :
      (event : Event R) (h : Handler R G H) {o : Option ℕ}
      → event.request_id ≡ o
      → IsSound n_sources n_brokers event.request_id h
      → IsSound n_sources n_brokers o h
  hand_over event h same s = subst (λ o. IsSound n_sources n_brokers o h) same s

  abbrev IsEntered : Handler R G H → Handler R G H → Type 0
  IsEntered h h' = IsWellFormed n_sources n_brokers h' × IsEntry h h'

  abbrev IsCompleted : ℕ → Handler R G H → Handler R G H → Type 0
  IsCompleted r h h' = IsWellFormed n_sources n_brokers h' × IsCompletion r h h'

  abbrev IsTicked : Handler R G H → Handler R G H → Type 0
  IsTicked h h' = IsWellFormed n_sources n_brokers h' × IsQuiet h h'

  after_move :
      (Q : Error → Type 0) (r : ℕ) (h : Handler R G H) (m : Result (Handler R G H))
      → IsSound n_sources n_brokers (some r) h
      → Returns (λ h'. IsWellFormed n_sources n_brokers h' × IsMove r h h') m
      → ReturnsUnless Q (IsSound n_sources n_brokers none) m
  after_move Q r h m sound =
      unless_map Q (λ h'. IsWellFormed n_sources n_brokers h' × IsMove r h h')
        (IsSound n_sources n_brokers none) m
        (λ h' after. IsMove-IsSound n_sources n_brokers r h h' sound after.0 after.1)

  in_hand-recorded :
      (r : ℕ) (h : Handler R G H)
      → IsSound n_sources n_brokers (some r) h
      → contains r (h.state).requests ≡ true
  in_hand-recorded r h s = s.recorded r (ground arith)

  dispatch-IsSound :
      (kind : EventType) (event : Event R) (h : Handler R G H)
      → unfit n_sources n_brokers kind event ≡ 0
      → IsSound n_sources n_brokers event.request_id h
      → ReturnsUnless
          (Refused params kind event h)
          (IsSound n_sources n_brokers none)
          (dispatch params kind event h)
  unfolding dispatch
  dispatch-IsSound source_arrival event h fine s =
      let (i, hi, i_lt) = misplaced_range n_sources event.source_id (omega (arith, fine)) in
      let sound = hand_over event h (no_unit event.request_id (omega (arith, fine))) s in
      ReturnsUnless-map (ChoiceRefused event h) (IsEntered h) (IsSound n_sources n_brokers none)
        (handle_source_arrival event h)
        (λ h' after. IsEntry-IsSound n_sources n_brokers h h' sound after.0 after.1)
        (handle_source_arrival-IsEntry heap n_sources n_brokers fair event h hi i_lt
          sound.well_formed)
  dispatch-IsSound access_service_start event h fine s =
      let (i, hi, i_lt) = misplaced_range n_sources event.source_id (omega (arith, fine)) in
      let (j, hj, j_lt) = misplaced_range n_brokers event.broker_id (omega (arith, fine)) in
      let (r, hr) = missing_total event.request_id (omega (arith, fine)) in
      let sound = hand_over event h hr s in
      after_move (λ e. ⊥) r h (handle_access_start event h) sound
        (handle_access_start-IsMove heap n_sources n_brokers event h hi hj hr i_lt j_lt
          sound.well_formed)
  dispatch-IsSound access_service_complete event h fine s =
      let (i, hi, i_lt) = misplaced_range n_sources event.source_id (omega (arith, fine)) in
      let (j, hj, j_lt) = misplaced_range n_brokers event.broker_id (omega (arith, fine)) in
      let (r, hr) = missing_total event.request_id (omega (arith, fine)) in
      let sound = hand_over event h hr s in
      after_move (λ e. ⊥) r h (handle_access_complete event h) sound
        (handle_access_complete-IsMove heap n_sources n_brokers event h hi hj hr i_lt j_lt
          (in_hand-recorded r h sound) sound.well_formed)
  dispatch-IsSound broker_arrival event h fine s =
      let (j, hj, j_lt) = misplaced_range n_brokers event.broker_id (omega (arith, fine)) in
      let (r, hr) = missing_total event.request_id (omega (arith, fine)) in
      let sound = hand_over event h hr s in
      after_move (λ e. ⊥) r h (handle_broker_arrival event h) sound
        (handle_broker_arrival-IsMove heap n_sources n_brokers event h hj hr j_lt sound.well_formed)
  dispatch-IsSound broker_service_start event h fine s =
      let (j, hj, j_lt) = misplaced_range n_brokers event.broker_id (omega (arith, fine)) in
      let (r, hr) = missing_total event.request_id (omega (arith, fine)) in
      let sound = hand_over event h hr s in
      after_move (λ e. ⊥) r h (handle_broker_start event h) sound
        (handle_broker_start-IsMove heap n_sources n_brokers event h hj hr j_lt sound.well_formed)
  dispatch-IsSound broker_service_complete event h fine s =
      let (j, hj, j_lt) = misplaced_range n_brokers event.broker_id (omega (arith, fine)) in
      let (r, hr) = missing_total event.request_id (omega (arith, fine)) in
      let sound = hand_over event h hr s in
      unless_map (λ e. ⊥) (IsCompleted r h) (IsSound n_sources n_brokers none)
        (handle_broker_complete event h)
        (λ h' after. IsCompletion-IsSound n_sources n_brokers r h h' sound after.0 after.1)
        (handle_broker_complete-IsCompletion heap n_sources n_brokers event h hj hr j_lt
          (in_hand-recorded r h sound) sound.well_formed)
  dispatch-IsSound controller_tick event h fine s =
      let sound = hand_over event h (no_unit event.request_id fine) s in
      ReturnsUnless-map (TickRefused params h) (IsTicked h) (IsSound n_sources n_brokers none)
        (handle_controller_tick params event h)
        (λ h' after. IsQuiet-IsSound n_sources n_brokers h h' sound after.0 after.1)
        (handle_controller_tick-IsQuiet laws elementary heap n_sources n_brokers params event h
          windowed stays sound.well_formed)

  -- On a sound state, with a windowed controller and numbers, generator and heap that keep their
  -- laws, `handle_event` on the event that the engine pops returns, and the state is sound again: all
  -- tables keep the topology's size and all events are well formed, no unit waits in an idle queue,
  -- the completed units and those in the system add up to the units that entered, no unit is in two
  -- places, and each unit in the system has its record. An exception is only raised where the
  -- generator refuses the probabilities of an arrival's row, or at a controller tick where the
  -- capacity model or the diagnostics of the telemetry record raise it.
  pub handle_event-IsSound :
      (h : Handler R G H) (event : Event R) (rest : H)
      → IsSound n_sources n_brokers none h
      → p.heappop (h.engine).event_queue ≡ some (event, rest)
      → ReturnsUnless
          (Refused params event.event_type event (popped_state event rest h))
          (IsSound n_sources n_brokers none)
          (handle_event params event (popped_state event rest h))
  unfolding handle_event
  handle_event-IsSound h event rest s popped =
      let (fine, sound) = popped-IsSound h event rest s popped in
      dispatch-IsSound event.event_type event (popped_state event rest h) fine sound

  -- From some sound state, the event that the engine popped was refused with this exception.
  abbrev pub IsRefused : Error → Type 0
  IsRefused error =
      (h : Handler R G H) × (event : Event R) × (rest : H) × IsSound n_sources n_brokers none h
      × (p.heappop (h.engine).event_queue ≡ some (event, rest))
      × Refused params event.event_type event (popped_state event rest h) error
