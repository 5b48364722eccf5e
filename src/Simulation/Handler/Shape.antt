-- ===== src/Simulation/Handler/Shape.antt =====
-- What the handlers need in order not to raise: tables of the topology's size, events that name a
-- source and a broker of it, and no unit waiting in an idle queue.
use traffic_emulator.Common.{
  ℕ, ◌+◌, ◌<◌, ◌≡◌, refl, ◌∙◌, Option, none, some, List, length, get_elem?, set, length-set, arith,
  if◌then◌else◌, ltb, Result, ok,
}
use traffic_emulator.Common.Sums.{get2, set2, sum_of, sum_of-set, sum2_of, sum2_of-set2}
use traffic_emulator.Simulation.Queues.{Queue}
use traffic_emulator.Simulation.Events.{
  Event, EventType, source_arrival, access_service_start, access_service_complete, broker_arrival,
  broker_service_start, broker_service_complete, controller_tick,
}
use traffic_emulator.Simulation.Engine.{Heap, IsHeap}
use traffic_emulator.Simulation.Handler.{Handler, scheduled, with_access, with_broker}
use traffic_emulator.Num.{Num}
use traffic_emulator.Model.Topology.{Topology}
pub use traffic_emulator.Common.Tables.{IsTable, get2_total, set2-IsTable}

-- 0 if the index is there and in range
abbrev pub misplaced : ℕ → Option ℕ → ℕ
misplaced size none = 1
misplaced size (some i) = if ltb i size then 0 else 1

abbrev pub missing : Option ℕ → ℕ
missing none = 1
missing (some r) = 0

abbrev pub present : Option ℕ → ℕ
present none = 0
present (some r) = 1

pub misplaced_range :
    (size : ℕ) (o : Option ℕ) → misplaced size o ≡ 0 → (i : ℕ) × (o ≡ some i) × (i < size)
misplaced_range size none h = absurd (omega arith)
misplaced_range size (some i) h = (i, refl, ground arith)

pub missing_total : (o : Option ℕ) → missing o ≡ 0 → (r : ℕ) × (o ≡ some r)
missing_total none h = absurd (omega arith)
missing_total (some r) h = (r, refl)

module _ {R : Type 0} where
  -- 0 if the event names what an event of the type must name
  abbrev pub unfit : ℕ → ℕ → EventType → Event R → ℕ
  unfit n_sources n_brokers source_arrival e =
      misplaced n_sources e.source_id + present e.request_id
  unfit n_sources n_brokers access_service_start e =
      misplaced n_sources e.source_id + misplaced n_brokers e.broker_id + missing e.request_id
  unfit n_sources n_brokers access_service_complete e =
      misplaced n_sources e.source_id + misplaced n_brokers e.broker_id + missing e.request_id
  unfit n_sources n_brokers broker_arrival e =
      misplaced n_brokers e.broker_id + missing e.request_id
  unfit n_sources n_brokers broker_service_start e =
      misplaced n_brokers e.broker_id + missing e.request_id
  unfit n_sources n_brokers broker_service_complete e =
      misplaced n_brokers e.broker_id + missing e.request_id
  unfit n_sources n_brokers controller_tick e = present e.request_id

  abbrev pub malformed : ℕ → ℕ → Event R → ℕ
  malformed n_sources n_brokers e = unfit n_sources n_brokers e.event_type e

  -- the units that wait in an idle queue
  abbrev pub stranded : Queue R → ℕ
  stranded q = if q.is_busy then 0 else length q.queue

module _ {R : Type 0} (n_sources n_brokers : ℕ) where
  pub record IsSized (topology : Topology R) : Type 0 where
    pub some_broker : 0 < n_brokers
    pub rates : length topology.lambdas_total ≡ n_sources
    pub links : IsTable n_sources n_brokers topology.mu_links
    pub brokers : length topology.brokers ≡ n_brokers
    pub capacities : length topology.mu_brokers ≡ n_brokers

  -- Every topology of a capacity model, if there is one, has the sizes.
  abbrev pub StaysSized : Option (ℕ → R → Result (Topology R)) → Type 0
  StaysSized none = Unit
  StaysSized (some topology_at) =
      (k : ℕ) (t : R) (topology : Topology R) → topology_at k t ≡ ok topology → IsSized topology

  pub record Fits (topology : Topology R) (x_ij : List (List R)) (prices lambda_hat : List R)
      : Type 0 where
    pub sized : IsSized topology
    pub routing : length x_ij ≡ n_sources
    pub priced : length prices ≡ n_brokers
    pub estimated : length lambda_hat ≡ n_brokers

  -- the queues of the access links, and those of the brokers
  abbrev pub AccessServed : List (List (Queue R)) → Type 0
  AccessServed qs = IsTable n_sources n_brokers qs × (sum2_of stranded qs ≡ 0)

  abbrev pub BrokersServed : List (Queue R) → Type 0
  BrokersServed qs = (length qs ≡ n_brokers) × (sum_of stranded qs ≡ 0)

  pub set2-AccessServed :
      (qs : List (List (Queue R))) (i j : ℕ) {q : Queue R} (q' : Queue R)
      → get2 qs i j ≡ some q
      → stranded q' ≡ 0
      → AccessServed qs
      → AccessServed (set2 qs i j q')
  set2-AccessServed qs i j {q} q' found fine a = (
    set2-IsTable n_sources n_brokers qs i j q' a.0,
    omega (arith, sum2_of-set2 stranded qs i j q q' found, a.1),
  )

  pub set-BrokersServed :
      (qs : List (Queue R)) (j : ℕ) {q : Queue R} (q' : Queue R)
      → get_elem? qs j ≡ some q
      → stranded q' ≡ 0
      → BrokersServed qs
      → BrokersServed (set qs j q')
  set-BrokersServed qs j {q} q' found fine b =
      (length-set qs j q' ∙ b.0, omega (arith, sum_of-set stranded qs j q q' found, b.1))

module _ {R G H : Type 0} ⦃p : Heap R H⦄ (n_sources n_brokers : ℕ) where
  pub record IsWellFormed (h : Handler R G H) : Type 0 where
    pub fits :
        Fits n_sources n_brokers h.topology
          (h.control).x_ij
          (h.control).prices
          (h.control).lambda_hat
    pub arrivals : length (h.control).window_arrivals ≡ n_brokers
    pub access_arrivals : IsTable n_sources n_brokers (h.control).window_access_arrivals
    pub access_queues : AccessServed n_sources n_brokers (h.state).access_queues
    pub broker_queues : BrokersServed n_sources n_brokers (h.state).broker_queues
    pub events : sum_of (malformed n_sources n_brokers) (p.contents (h.engine).event_queue) ≡ 0

  pub scheduled-IsWellFormed :
      ⦃n : Num R⦄ (heap : IsHeap R H) (e : Event R) (h : Handler R G H)
      → malformed n_sources n_brokers e ≡ 0
      → IsWellFormed h
      → IsWellFormed (scheduled e h)
  scheduled-IsWellFormed heap e h fine wf = record {
    fits = wf.fits;
    arrivals = wf.arrivals;
    access_arrivals = wf.access_arrivals;
    access_queues = wf.access_queues;
    broker_queues = wf.broker_queues;
    events =
        heap.sum-heappush (malformed n_sources n_brokers) (h.engine).event_queue e
        ∙ omega (arith, fine, wf.events);
  }

  pub with_access-IsWellFormed :
      (i j : ℕ) {q : Queue R} (q' : Queue R) (h : Handler R G H)
      → get2 (h.state).access_queues i j ≡ some q
      → stranded q' ≡ 0
      → IsWellFormed h
      → IsWellFormed (with_access i j q' h)
  with_access-IsWellFormed i j q' h found fine wf = record {
    fits = wf.fits;
    arrivals = wf.arrivals;
    access_arrivals = wf.access_arrivals;
    access_queues =
        set2-AccessServed n_sources n_brokers (h.state).access_queues i j q' found fine
          wf.access_queues;
    broker_queues = wf.broker_queues;
    events = wf.events;
  }

  pub with_broker-IsWellFormed :
      (j : ℕ) {q : Queue R} (q' : Queue R) (h : Handler R G H)
      → get_elem? (h.state).broker_queues j ≡ some q
      → stranded q' ≡ 0
      → IsWellFormed h
      → IsWellFormed (with_broker j q' h)
  with_broker-IsWellFormed j q' h found fine wf = record {
    fits = wf.fits;
    arrivals = wf.arrivals;
    access_arrivals = wf.access_arrivals;
    access_queues = wf.access_queues;
    broker_queues =
        set-BrokersServed n_sources n_brokers (h.state).broker_queues j q' found fine
          wf.broker_queues;
    events = wf.events;
  }
