-- ===== src/Simulation/Handler/Tick.antt =====
-- src/simulation/handler.py: the controller at the end of a window, and `handle_event`. Of the
-- telemetry record the state that it keeps and the exceptions of its diagnostics are modelled, not
-- what it writes.
use traffic_emulator.Common.{
  ℕ, ◌+◌, Bool, false, Option, none, some, List, [], ◌∷◌, map, length, zip_with, if◌then◌else◌, leb,
  Result, ok, err, index_error, value_error, raise_if, ◌>>◌, ◌||◌, replicate, runtime_error,
  or_raise, ◌>>=◌, ◌≡◌, ◌⊎◌, Error,
}
use traffic_emulator.Num.{Num, ◌⊕◌, ◌⊖◌, ◌⊗◌, ◌⊘◌, max}
use traffic_emulator.Num.Elementary.{Elementary}
use traffic_emulator.Num.Vectors.{mix_row, column_sums}
use traffic_emulator.Model.Topology.{Topology}
use traffic_emulator.Control.Synchronous.{initial_state, holds, paper, respond, iteration_step}
use traffic_emulator.Control.Diagnostics.{compute_diagnostics}
use traffic_emulator.Simulation.Events.{
  Event, EventType, source_arrival, access_service_start, access_service_complete, broker_arrival,
  broker_service_start, broker_service_complete, controller_tick,
}
use traffic_emulator.Simulation.Engine.{Heap, Engine}
use traffic_emulator.Simulation.Queues.{SimulationState}
use traffic_emulator.Simulation.Handler.{
  Handler, Params, Control, windowed_stochastic, capacity_safe_event_driven, Rng, now, scheduled,
  from_ℕ, ChoiceRefused, handle_source_arrival, handle_access_start, handle_access_complete,
  handle_broker_arrival, handle_broker_start, handle_broker_complete,
}

module _ {R : Type 0} where
  abbrev pub at_tick : R → Event R
  at_tick t = record {
    timestamp = t;
    event_type = controller_tick;
    source_id = none;
    broker_id = none;
    request_id = none;
  }

module _ {R : Type 0} ⦃n : Num R⦄ where
  -- counts of a window as rates
  abbrev pub rates : R → List ℕ → List R
  rates window = map λ k. from_ℕ k ⊘ window

  -- the counts of the window become rates and an estimate, and start again at 0
  unfoldable pub measure : Params R → Control R → Control R
  measure params c =
      let inst_rate = rates params.window c.window_arrivals in
      record c {
        last_broker_rate = inst_rate;
        last_access_rate = map (rates params.window) c.window_access_arrivals;
        window_arrivals = map (λ _. 0) c.window_arrivals;
        window_access_arrivals = map (map λ _. 0) c.window_access_arrivals;
        lambda_hat = mix_row params.beta c.lambda_hat inst_rate;
      }

  module _ ⦃e : Elementary R⦄ where
    -- `mu_j / np.maximum(mu_j - self.lambda_hat, 1e-6)**2`
    abbrev pub measured_cost : R → R → R
    measured_cost mu load = let gap = max (mu ⊖ load) (e.literal 1 6) in mu ⊘ (gap ⊗ gap)

    -- the loop over the sources: each split moves toward its best response, or is kept
    abbrev pub windowed_splits :
        R → List R → ℕ → List (List R) → List R → List (List R) → Result (List (List R) × List ℕ)
    windowed_splits eta prices i [] lambdas rows = ok (rows, [])
    windowed_splits eta prices i (mu_row ∷ mu_rows) [] rows = err index_error
    windowed_splits eta prices i (mu_row ∷ mu_rows) (lam ∷ lambdas) [] = err index_error
    windowed_splits eta prices i (mu_row ∷ mu_rows) (lam ∷ lambdas) (row ∷ rows) = do
      (x_br, held) ← respond holds mu_row prices lam row
      (rest, failures) ← windowed_splits eta prices (i + 1) mu_rows lambdas rows
      ok (if held then (row ∷ rest, i ∷ failures) else (mix_row eta row x_br ∷ rest, failures))

    unfoldable pub windowed_update : Params R → Topology R → Control R → Result (Control R)
    windowed_update params topology c = do
      let p_inst = zip_with measured_cost topology.mu_brokers c.lambda_hat
      let prices = mix_row params.gamma c.prices p_inst
      (x_ij, failures) ←
          (if leb params.warmup_windows c.window_idx
            then windowed_splits params.eta prices 0 topology.mu_links topology.lambdas_total c.x_ij
            else ok (c.x_ij, []))
      ok (record c { prices = prices; x_ij = x_ij; br_failures = failures })

    -- the state that `iteration_step` updates in place is written back
    unfoldable pub algorithm1_update : Params R → Topology R → Control R → Result (Control R)
    algorithm1_update params topology c = do
      state ← or_raise c.controller_state runtime_error
      (state', s_t, residual) ←
          iteration_step state topology params.eta params.gamma params.eps params.delta_s holds
            paper
      ok (record c {
        controller_state = some state';
        x_ij = state'.lambda_ij;
        prices = state'.prices;
        s_j = state'.s_j;
        s_t = state'.s_t;
        br_failures = state'.br_failures;
      })

    unfoldable pub update : Params R → Topology R → Control R → Result (Control R)
    unfolding windowed_update algorithm1_update
    update params topology c = elim params.mode [
      | windowed_stochastic ↦ windowed_update params topology c
      | capacity_safe_event_driven ↦ algorithm1_update params topology c
    ]

    -- the snapshot of `_record_telemetry` computes the diagnostics, which may raise
    unfoldable pub record_telemetry : Params R → Topology R → Control R → Result (Unit {0})
    record_telemetry params topology c =
        if params.recording
        then (compute_diagnostics c.x_ij c.prices topology (e.literal 1 7) (e.literal 1 12)
            >>= λ diag. ok tt)
        else ok tt

    -- the counters after the update, and what a telemetry record remembers
    unfoldable pub close_window : Params R → Control R → Control R
    close_window params c = record c {
      br_failures_total = c.br_failures_total + length c.br_failures;
      window_idx = c.window_idx + 1;
      prev_x_ij = if params.recording then some c.x_ij else c.prev_x_ij;
      prev_prices = if params.recording then some c.prices else c.prev_prices;
    }

module _ {R G H : Type 0} ⦃n : Num R⦄ ⦃e : Elementary R⦄ ⦃p : Heap R H⦄ (params : Params R) where
  -- the topology of this window
  abbrev pub current_topology : Handler R G H → Result (Topology R)
  current_topology h = elim params.topology_at [
    | none ↦ ok h.topology
    | some topology_at ↦ topology_at (h.control).window_idx (now h)
  ]

  unfoldable pub handle_controller_tick : Event R → Handler R G H → Result (Handler R G H)
  unfolding measure update close_window record_telemetry
  handle_controller_tick event h = do
    topology ← current_topology h
    updated ← update params topology (measure params h.control)
    recorded ← record_telemetry params topology updated
    ok (
        scheduled (at_tick (now h ⊕ params.window)) (record h {
          topology = topology;
          control = close_window params updated;
          window_latencies = if params.recording then [] else h.window_latencies;
        }))

  -- why the tick raises: the capacity model has no topology, the update fails, or the diagnostics of
  -- the telemetry record do
  abbrev pub TickRefused : Handler R G H → Error → Type 0
  TickRefused h e =
      (current_topology h ≡ err e)
      ⊎ ((topology : Topology R) × (c : Control R) × (current_topology h ≡ ok topology)
          × (update params topology (measure params h.control) ≡ ok c)
          × (record_telemetry params topology c ≡ err e))

  -- why the handler of an event that fits raises: the generator refuses its probabilities, or the tick
  -- does
  abbrev pub Refused : ⦃rng : Rng R G⦄ → EventType → Event R → Handler R G H → Error → Type 0
  Refused source_arrival event h e = ChoiceRefused event h e
  Refused controller_tick event h e = TickRefused h e
  Refused _ event h e = ⊥

  -- the chain of tests on `event.event_type`
  unfoldable pub dispatch :
      ⦃rng : Rng R G⦄ → EventType → Event R → Handler R G H → Result (Handler R G H)
  unfolding handle_controller_tick
  dispatch source_arrival event h = handle_source_arrival event h
  dispatch access_service_start event h = handle_access_start event h
  dispatch access_service_complete event h = handle_access_complete event h
  dispatch broker_arrival event h = handle_broker_arrival event h
  dispatch broker_service_start event h = handle_broker_start event h
  dispatch broker_service_complete event h = handle_broker_complete event h
  dispatch controller_tick event h = handle_controller_tick event h

  unfoldable pub handle_event : ⦃rng : Rng R G⦄ → Event R → Handler R G H → Result (Handler R G H)
  unfolding dispatch
  handle_event event h = dispatch event.event_type event h

-- `SimulationHandler.__init__`: in the capacity-safe mode the given routing must keep the margin.
module _ {R : Type 0} ⦃n : Num R⦄ where
  abbrev exceeds : R → List R → List R → Bool
  exceeds delta_s [] mus = false
  exceeds delta_s (load ∷ loads) [] = false
  exceeds delta_s (load ∷ loads) (mu ∷ mus) = n.lt (mu ⊖ delta_s) load || exceeds delta_s loads mus

  abbrev pub first_control : Params R → Topology R → List (List R) → Control R
  first_control params topology x_ij =
      let n_brokers = length topology.brokers in
      record {
        x_ij = x_ij;
        window_arrivals = replicate n_brokers 0;
        window_access_arrivals = replicate (length topology.sources) (replicate n_brokers 0);
        last_broker_rate = [];
        last_access_rate = [];
        lambda_hat = replicate n_brokers n.nought;
        prices = replicate n_brokers n.nought;
        window_idx = 0;
        s_j = none;
        s_t = none;
        br_failures = [];
        br_failures_total = 0;
        controller_state = none;
        prev_x_ij = none;
        prev_prices = none;
      }

  unfoldable pub init_control : Params R → Topology R → List (List R) → Result (Control R)
  init_control params topology x_ij =
      let first = first_control params topology x_ij in
      elim params.mode [
        | windowed_stochastic ↦ ok first
        | capacity_safe_event_driven ↦
            raise_if (exceeds params.delta_s (column_sums x_ij) topology.mu_brokers) value_error
            >> (let state = initial_state topology params.eps x_ij in
                ok (record first {
                  controller_state = some state;
                  x_ij = state.lambda_ij;
                  prices = state.prices;
                }))
      ]

module _ {R G H : Type 0} ⦃n : Num R⦄ ⦃p : Heap R H⦄ where
  unfoldable pub init_handler :
      Params R
      → Engine R H
      → Topology R
      → SimulationState R
      → List (List R)
      → G
      → Option (List (R × ℕ × R))
      → Result (Handler R G H)
  unfolding init_control
  init_handler params engine topology state x_ij rng latency_log = do
    control ← init_control params topology x_ij
    ok (
        scheduled (at_tick params.window) (record {
          engine = engine;
          topology = topology;
          state = state;
          request_id_counter = 0;
          rng = rng;
          window_latencies = [];
          latency_log = latency_log;
          control = control;
        }))
