-- ===== src/Simulation/Handler/Attended.antt =====
-- No queue stalls: where a server is busy, an event that starts or completes a service there is
-- scheduled, so what waits there is served in its turn.
pub mod Services
pub mod Run
pub mod Serving
use traffic_emulator.Common.{
  ℕ, ◌+◌, ◌≤◌, ◌≡◌, ◌∙◌, ap, sym, refl, Bool, true, false, ◌&&◌, Option, none, some, List, [], ◌∷◌,
  length, get_elem?, arith, if◌then◌else◌, ◌==◌, Result, ok, err, Error, or_raise, ◌⊎◌, inl, inr,
  Bool-cases, ◌>>=◌,
}
use traffic_emulator.Common.Sums.{get2, sum_of}
use traffic_emulator.Common.Tables.{get2-set2_written, get_elem?-set_written, same_cell}
use traffic_emulator.Num.{Num, ◌⊕◌}
use traffic_emulator.Simulation.Queues.{Queue, SimulationState, push}
use traffic_emulator.Simulation.Events.{
  Event, EventType, source_arrival, access_service_start, access_service_complete, broker_arrival,
  broker_service_start, broker_service_complete, controller_tick,
}
use traffic_emulator.Simulation.Engine.{Heap, IsHeap}
use traffic_emulator.Simulation.Handler.{
  Handler, scheduled, with_access, with_broker, idle, busy, now, at_access, at_broker,
}

pub data Station : Type 0 where
  link : ℕ → ℕ → Station
  server : ℕ → Station

abbrev pub is_at : Option ℕ → ℕ → Bool
is_at none k = false
is_at (some i) k = i == k

abbrev pub is_link_service : EventType → Bool
is_link_service access_service_start = true
is_link_service access_service_complete = true
is_link_service _ = false

abbrev pub is_server_service : EventType → Bool
is_server_service broker_service_start = true
is_server_service broker_service_complete = true
is_server_service _ = false

module _ {R : Type 0} where
  -- 1 if the event starts or completes a service at the station
  abbrev pub serves : Station → Event R → ℕ
  serves (link i j) e =
      if is_link_service e.event_type && (is_at e.source_id i && is_at e.broker_id j) then 1 else 0
  serves (server j) e = if is_server_service e.event_type && is_at e.broker_id j then 1 else 0

  abbrev pub queue_at : Station → SimulationState R → Option (Queue R)
  queue_at (link i j) state = get2 state.access_queues i j
  queue_at (server j) state = get_elem? state.broker_queues j

abbrev pub none_given : Station → ℕ
none_given s = 0

module _ {R G H : Type 0} ⦃p : Heap R H⦄ where
  abbrev pub pending : Station → Handler R G H → ℕ
  pending s h = sum_of (serves s) (p.contents (h.engine).event_queue)

  -- Each busy station has a service event, with those that are in hand counted.
  abbrev pub Attends : (Station → ℕ) → Handler R G H → Type 0
  Attends given h =
      (s : Station) (q : Queue R)
      → queue_at s h.state ≡ some q
      → q.is_busy ≡ true
      → 1 ≤ given s + pending s h

  pub scheduled-Attends :
      ⦃n : Num R⦄ (heap : IsHeap R H) (given given' : Station → ℕ) (e : Event R) (h : Handler R G H)
      → ((s : Station) → given s ≤ given' s + serves s e)
      → Attends given h
      → Attends given' (scheduled e h)
  scheduled-Attends heap given given' e h more a s q found is_busy =
      omega
        (arith, heap.sum-heappush (serves s) (h.engine).event_queue e, more s, a s q found is_busy)

  -- The station that is written may be busy only if it is attended.
  pub with_access-Attends :
      (given : Station → ℕ) (i j : ℕ) (q : Queue R) (h : Handler R G H)
      → (q.is_busy ≡ true → 1 ≤ given (link i j) + pending (link i j) h)
      → Attends given h
      → Attends given (with_access i j q h)
  with_access-Attends given i j q h fine a (server k) q' found is_busy =
      a (server k) q' found is_busy
  with_access-Attends given i j q h fine a (link k l) q' found is_busy =
      elim (get2-set2_written (h.state).access_queues i j k l q q' found) [
        | inl (same, column, written) ↦
            rw (← same, ← column) (fine (ap (λ (r : Queue R). r.is_busy) written ∙ is_busy))
        | inr (other, was) ↦ a (link k l) q' was is_busy
      ]

  pub with_broker-Attends :
      (given : Station → ℕ) (j : ℕ) (q : Queue R) (h : Handler R G H)
      → (q.is_busy ≡ true → 1 ≤ given (server j) + pending (server j) h)
      → Attends given h
      → Attends given (with_broker j q h)
  with_broker-Attends given j q h fine a (link k l) q' found is_busy = a (link k l) q' found is_busy
  with_broker-Attends given j q h fine a (server l) q' found is_busy =
      elim (get_elem?-set_written (h.state).broker_queues j l q q' found) [
        | inl (same, written) ↦
            rw (← same) (fine (ap (λ (r : Queue R). r.is_busy) written ∙ is_busy))
        | inr (other, was) ↦ a (server l) q' was is_busy
      ]

  -- What leaves the queues and the events alone.
  pub kept-Attends :
      (given : Station → ℕ) (h h' : Handler R G H)
      → h'.engine ≡ h.engine
      → (h'.state).access_queues ≡ (h.state).access_queues
      → (h'.state).broker_queues ≡ (h.state).broker_queues
      → Attends given h
      → Attends given h'
  kept-Attends given h h' engine access servers a (link i j) q found is_busy = rw engine (
      a (link i j) q (sym (ap (λ (qs : List (List (Queue R))). get2 qs i j) access) ∙ found)
        is_busy)
  kept-Attends given h h' engine access servers a (server j) q found is_busy =
      rw engine (
        a (server j) q (sym (ap (λ (qs : List (Queue R)). get_elem? qs j) servers) ∙ found) is_busy)

  -- When the queue of the event in hand falls idle, no other counts on the event.
  pub idle_access-Attends :
      (event : Event R) (i j : ℕ) (q : Queue R) (h : Handler R G H)
      → event.event_type ≡ access_service_complete
      → event.source_id ≡ some i
      → event.broker_id ≡ some j
      → Attends (λ s. serves s event) h
      → Attends none_given (with_access i j (idle q) h)
  idle_access-Attends event i j q h kind hi hj a (server k) q' found is_busy =
      rw kind at (a (server k) q' found is_busy)
  idle_access-Attends event i j q h kind hi hj a (link k l) q' found is_busy =
      elim (get2-set2_written (h.state).access_queues i j k l (idle q) q' found) [
        | inl (same, column, written) ↦ cc
        | inr (other, was) ↦ rw (kind, hi, hj, other) at (a (link k l) q' was is_busy)
      ]

  pub idle_broker-Attends :
      (event : Event R) (j : ℕ) (q : Queue R) (h : Handler R G H)
      → event.event_type ≡ broker_service_complete
      → event.broker_id ≡ some j
      → Attends (λ s. serves s event) h
      → Attends none_given (with_broker j (idle q) h)
  idle_broker-Attends event j q h kind hj a (link k l) q' found is_busy =
      rw kind at (a (link k l) q' found is_busy)
  idle_broker-Attends event j q h kind hj a (server l) q' found is_busy =
      elim (get_elem?-set_written (h.state).broker_queues j l (idle q) q' found) [
        | inl (same, written) ↦ cc
        | inr (other, was) ↦ rw (kind, hj, other) at (a (server l) q' was is_busy)
      ]
