-- ===== src/Simulation/Handler.antt =====
-- src/simulation/handler.py: the state of `SimulationHandler` and the handlers of the events of work
-- units. numpy's random generator is an interface; the parameters that the source keeps in the
-- handler are its `Params`.
pub mod Places
pub mod Shape
pub mod Queueing
pub mod Effects
pub mod Tick
pub mod Quiet
pub mod Conserve
pub mod Attended
use Prim.Native.Nat.{◌<◌}
use traffic_emulator.Common.{
  ℕ, zero, suc, ◌+◌, ◌≡◌, Bool, true, false, not, Option, none, some, List, [], ◌∷◌, ◌++◌, map,
  length, get_elem?, set, replicate, if◌then◌else◌, Result, ok, err, Error, index_error, key_error,
  or_raise, ◌>>=◌,
}
use traffic_emulator.Common.Sums.{get2, set2}
use traffic_emulator.Common.Dict.{lookup, insert, erase}
use traffic_emulator.Num.{Num, ◌⊕◌, ◌⊖◌, ◌⊘◌}
use traffic_emulator.Num.Vectors.{sum}
use traffic_emulator.Model.Topology.{Topology}
use traffic_emulator.Simulation.Queues.{Queue, Request, SimulationState, is_empty, push, pop}
use traffic_emulator.Simulation.Events.{
  Event, EventType, source_arrival, access_service_start, access_service_complete, broker_arrival,
  broker_service_start, broker_service_complete,
}
use traffic_emulator.Simulation.Engine.{Heap, Engine, schedule}
use traffic_emulator.Control.Synchronous.{SystemState}

-- `np.random.Generator`: a draw and the generator after it.
pub record Rng (R G : Type 0) : Type 0 where
  -- `exponential(scale)`
  pub exponential : R → G → R × G
  -- `choice(n, p=probs)`, which may refuse its probabilities
  pub choice : ℕ → List R → G → Result (ℕ × G)

-- `choice` draws from `range(n)`.
pub record IsRng (R G : Type 0) ⦃rng : Rng R G⦄ : Type 0 where
  pub choice-lt :
      (count : ℕ) (probs : List R) (g : G) (r : ℕ × G)
      → 0 < count
      → rng.choice count probs g ≡ ok r
      → r.0 < count

pub data ControllerMode : Type 0 where
  windowed_stochastic capacity_safe_event_driven : ControllerMode

pub record Params (R : Type 0) : Type 0 where
  pub eta : R
  pub gamma : R
  pub beta : R
  pub window : R
  pub warmup_windows : ℕ
  pub eps : R
  pub delta_s : R
  pub mode : ControllerMode
  -- `capacity_model.topology_at`, if there is a model: its call of a number, at a time; the number
  -- stands for the state of the generator of the model's noise
  pub topology_at : Option (ℕ → R → Result (Topology R))
  -- whether there is a telemetry buffer
  pub recording : Bool

-- What the controller windows keep.
pub record Control (R : Type 0) : Type 0 where
  pub x_ij : List (List R)
  pub window_arrivals : List ℕ
  pub window_access_arrivals : List (List ℕ)
  pub last_broker_rate : List R
  pub last_access_rate : List (List R)
  pub lambda_hat : List R
  pub prices : List R
  pub window_idx : ℕ
  pub s_j : Option (List R)
  pub s_t : Option R
  pub br_failures : List ℕ
  pub br_failures_total : ℕ
  pub controller_state : Option (SystemState R)
  pub prev_x_ij : Option (List (List R))
  pub prev_prices : Option (List R)

pub record Handler (R G H : Type 0) : Type 0 where
  pub engine : Engine R H
  pub topology : Topology R
  pub state : SimulationState R
  pub request_id_counter : ℕ
  pub rng : G
  pub window_latencies : List (ℕ × R)
  pub latency_log : Option (List (R × ℕ × R))
  pub control : Control R

-- `xs[i] += 1`
abbrev pub add_one : List ℕ → ℕ → Result (List ℕ)
add_one xs i = or_raise (get_elem? xs i) index_error >>= λ k. ok (set xs i (k + 1))

abbrev pub add_one2 : List (List ℕ) → ℕ → ℕ → Result (List (List ℕ))
add_one2 xs i j = or_raise (get2 xs i j) index_error >>= λ k. ok (set2 xs i j (k + 1))

module _ {R : Type 0} where
  abbrev pub at_source : R → ℕ → Event R
  at_source t i = record {
    timestamp = t;
    event_type = source_arrival;
    source_id = some i;
    broker_id = none;
    request_id = none;
  }

  abbrev pub at_access : EventType → R → ℕ → ℕ → ℕ → Event R
  at_access kind t i j r = record {
    timestamp = t;
    event_type = kind;
    source_id = some i;
    broker_id = some j;
    request_id = some r;
  }

  abbrev pub at_broker : EventType → R → ℕ → ℕ → Event R
  at_broker kind t j r = record {
    timestamp = t;
    event_type = kind;
    source_id = none;
    broker_id = some j;
    request_id = some r;
  }

  abbrev pub busy : Queue R → Queue R
  busy q = record q { is_busy = true }

  abbrev pub idle : Queue R → Queue R
  idle q = record q { is_busy = false }

module _ {R : Type 0} ⦃n : Num R⦄ where
  -- `flows / lam_i`, or the uniform split of a row that carries nothing
  unfoldable pub route_probs : List R → ℕ → R → List R
  route_probs flows n_brokers brokers =
      let lam_i = sum flows in
      if n.lt n.nought lam_i
      then map (λ x. x ⊘ lam_i) flows
      else replicate n_brokers (n.unit ⊘ brokers)

  abbrev pub from_ℕ : ℕ → R
  from_ℕ zero = n.nought
  from_ℕ (suc k) = n.unit ⊕ from_ℕ k

module _ {R G H : Type 0} where
  abbrev pub now : Handler R G H → R
  now h = (h.engine).now

  abbrev pub with_access : ℕ → ℕ → Queue R → Handler R G H → Handler R G H
  with_access i j q h = record h {
    state = record (h.state) { access_queues = set2 (h.state).access_queues i j q };
  }

  abbrev pub with_broker : ℕ → Queue R → Handler R G H → Handler R G H
  with_broker j q h = record h {
    state = record (h.state) { broker_queues = set (h.state).broker_queues j q };
  }

  abbrev pub with_request : ℕ → Request R → Handler R G H → Handler R G H
  with_request r req h = record h {
    state = record (h.state) { requests = insert r req (h.state).requests };
  }

module _ {R G H : Type 0} ⦃p : Heap R H⦄ where
  -- `self.engine.schedule(event)`
  abbrev pub scheduled : Event R → Handler R G H → Handler R G H
  scheduled event h = record h { engine = schedule event h.engine }

  -- an idle queue starts the unit at once, a busy one keeps it waiting
  unfoldable pub join_access : ℕ → ℕ → ℕ → Queue R → Handler R G H → Handler R G H
  join_access i j r q h =
      if not q.is_busy
      then scheduled (at_access access_service_start (now h) i j r) h
      else with_access i j (push r q) h

  unfoldable pub join_broker : ℕ → ℕ → Queue R → Handler R G H → Handler R G H
  join_broker j r q h =
      if not q.is_busy
      then scheduled (at_broker broker_service_start (now h) j r) h
      else with_broker j (push r q) h

  -- the next waiting unit starts, or the queue falls idle
  unfoldable pub leave_access : ℕ → ℕ → Queue R → Handler R G H → Result (Handler R G H)
  leave_access i j q h =
      if not (is_empty q)
      then (pop q >>= λ popped. ok (
          scheduled (at_access access_service_start (now h) i j popped.0)
            (with_access i j popped.1 h)))
      else ok (with_access i j (idle q) h)

  unfoldable pub leave_broker : ℕ → Queue R → Handler R G H → Result (Handler R G H)
  leave_broker j q h =
      if not (is_empty q)
      then (pop q >>= λ popped. ok (
          scheduled (at_broker broker_service_start (now h) j popped.0) (with_broker j popped.1 h)))
      else ok (with_broker j (idle q) h)

  -- the unit that source `i` sends to broker `j`: its number, its record and its queue
  unfoldable pub send : ℕ → ℕ → Queue R → Handler R G H → Handler R G H
  unfolding join_access
  send i j q h =
      let r = h.request_id_counter in
      let req : Request R = record {
        arrival = now h;
        source = i;
        access_complete = none;
        broker_complete = none;
      } in
      join_access i j r q (with_request r req (record h { request_id_counter = r + 1 }))

  unfoldable pub handle_access_complete : Event R → Handler R G H → Result (Handler R G H)
  unfolding leave_access
  handle_access_complete event h = do
    i ← or_raise event.source_id index_error
    j ← or_raise event.broker_id index_error
    r ← or_raise event.request_id index_error
    req ← or_raise (lookup r (h.state).requests) key_error
    let stamped = with_request r (record req { access_complete = some (now h) }) h
    q ← or_raise (get2 (stamped.state).access_queues i j) key_error
    left ← leave_access i j q stamped
    ok (scheduled (at_broker broker_arrival (now left) j r) left)

  unfoldable pub handle_broker_arrival : Event R → Handler R G H → Result (Handler R G H)
  unfolding join_broker
  handle_broker_arrival event h = do
    j ← or_raise event.broker_id index_error
    r ← or_raise event.request_id index_error
    arrivals ← add_one (h.control).window_arrivals j
    let counted = record (h.control) { window_arrivals = arrivals }
    q ← or_raise (get_elem? (h.state).broker_queues j) key_error
    ok (join_broker j r q (record h { control = counted }))

module _ {R G H : Type 0} ⦃n : Num R⦄ where
  -- the accounts of a completed unit; its record goes unless records are kept
  unfoldable pub complete : ℕ → Request R → Handler R G H → Handler R G H
  complete r req h =
      let latency = now h ⊖ req.arrival in
      let stamped = insert r (record req { broker_complete = some (now h) }) (h.state).requests in
      record h {
        state = record (h.state) {
          completed = (h.state).completed + 1;
          latency_sum = (h.state).latency_sum ⊕ latency;
          requests = if (h.state).keep_requests then stamped else erase r stamped;
        };
        window_latencies = h.window_latencies ++ (req.source, latency) ∷ [];
        latency_log = elim (h.latency_log) [
          | none ↦ none
          | some log ↦ some (log ++ (now h, req.source, latency) ∷ [])
        ];
      }

module _ {R G H : Type 0} ⦃n : Num R⦄ ⦃p : Heap R H⦄ where
  unfoldable pub handle_broker_complete : Event R → Handler R G H → Result (Handler R G H)
  unfolding complete leave_broker
  handle_broker_complete event h = do
    j ← or_raise event.broker_id index_error
    r ← or_raise event.request_id index_error
    req ← or_raise (lookup r (h.state).requests) key_error
    let done = complete r req h
    q ← or_raise (get_elem? (done.state).broker_queues j) key_error
    leave_broker j q done

module _ {R G H : Type 0} ⦃n : Num R⦄ ⦃rng : Rng R G⦄ ⦃p : Heap R H⦄ where
  unfoldable pub handle_source_arrival : Event R → Handler R G H → Result (Handler R G H)
  unfolding route_probs send
  handle_source_arrival event h = do
    i ← or_raise event.source_id index_error
    lam_i ← or_raise (get_elem? (h.topology).lambdas_total i) index_error
    let drawn = rng.exponential (n.unit ⊘ lam_i) h.rng
    flows ← or_raise (get_elem? (h.control).x_ij i) index_error
    let n_brokers = length (h.topology).brokers
    chosen ← rng.choice n_brokers (route_probs flows n_brokers (from_ℕ n_brokers)) drawn.1
    arrivals ← add_one2 (h.control).window_access_arrivals i chosen.0
    q ← or_raise (get2 (h.state).access_queues i chosen.0) key_error
    ok (
        send i chosen.0 q (
          scheduled (at_source (now h ⊕ drawn.0) i) (record h {
            rng = chosen.1;
            control = record (h.control) { window_access_arrivals = arrivals };
          })))

  -- The generator refuses the probabilities of the source's row.
  abbrev pub ChoiceRefused : Event R → Handler R G H → Error → Type 0
  ChoiceRefused event h e =
      (i : ℕ) × (lam : R) × (flows : List R) × (event.source_id ≡ some i)
      × (get_elem? (h.topology).lambdas_total i ≡ some lam)
      × (get_elem? (h.control).x_ij i ≡ some flows)
      × (rng.choice (length (h.topology).brokers)
            (route_probs flows (length (h.topology).brokers) (from_ℕ (length (h.topology).brokers)))
            (rng.exponential (n.unit ⊘ lam) h.rng).1
          ≡ err e)

  unfoldable pub handle_access_start : Event R → Handler R G H → Result (Handler R G H)
  handle_access_start event h = do
    i ← or_raise event.source_id index_error
    j ← or_raise event.broker_id index_error
    r ← or_raise event.request_id index_error
    q ← or_raise (get2 (h.state).access_queues i j) key_error
    mu_ij ← or_raise (get2 (h.topology).mu_links i j) index_error
    let drawn = rng.exponential (n.unit ⊘ mu_ij) h.rng
    ok (
        scheduled (at_access access_service_complete (now h ⊕ drawn.0) i j r)
          (with_access i j (busy q) (record h { rng = drawn.1 })))

  unfoldable pub handle_broker_start : Event R → Handler R G H → Result (Handler R G H)
  handle_broker_start event h = do
    j ← or_raise event.broker_id index_error
    r ← or_raise event.request_id index_error
    q ← or_raise (get_elem? (h.state).broker_queues j) key_error
    mu_j ← or_raise (get_elem? (h.topology).mu_brokers j) index_error
    let drawn = rng.exponential (n.unit ⊘ mu_j) h.rng
    ok (
        scheduled (at_broker broker_service_complete (now h ⊕ drawn.0) j r)
          (with_broker j (busy q) (record h { rng = drawn.1 })))
