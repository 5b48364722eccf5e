-- ===== src/Distributed/Broker.antt =====
-- src/distributed/broker.py: `BrokerWorker` as a state that its coroutines change. They interleave
-- only where they await, so a history is a list of actions: a unit is received, `_serve` takes one, its
-- sleep ends, a price message is answered. The generators' draws and the wall clock come with the
-- actions; the unit that `_serve` holds while it sleeps is part of the state.
pub mod Fifo
pub mod Clock
use traffic_emulator.Common.{
  ℕ, ◌+◌, Option, none, some, List, [], ◌∷◌, ◌++◌, length, get_elem?, ltb, if◌then◌else◌, Result,
  ok, ◌>>=◌,
}
use traffic_emulator.Num.{Num, ◌⊕◌, ◌⊖◌, max}
use traffic_emulator.Control.Synchronous.{broker_price}

-- a work unit as it is received: source, generation, access start and completion, broker arrival
pub record WorkUnit (R : Type 0) : Type 0 where
  pub s : ℕ
  pub g : R
  pub access_start : R
  pub access_complete : R
  pub broker_arrival : R

-- a unit that the server took, with the times that are written to it
pub record Served (R : Type 0) : Type 0 where
  pub work : WorkUnit R
  pub broker_start : R
  pub broker_complete : R

pub record Sample (R : Type 0) : Type 0 where
  pub source : ℕ
  pub total : R
  pub access_wait : R
  pub access_service : R
  pub transfer : R
  pub broker_wait : R
  pub broker_service : R

pub record BrokerWorker (R : Type 0) : Type 0 where
  pub queue : List (WorkUnit R)
  -- `busy`, with the unit that is served
  pub serving : Option (Served R)
  pub free_at : R
  pub arrivals : ℕ
  pub samples : List (Sample R)
  pub completed : ℕ
  pub completed_total : ℕ
  pub latency_sum_total : R
  pub mu : R
  pub gamma : R
  pub eps : R
  pub price : R

-- the report of `metrics`
pub record Report (R : Type 0) : Type 0 where
  pub reported_arrivals : ℕ
  pub reported_completed : ℕ
  pub in_system : ℕ
  pub total_completed : ℕ
  pub total_latency : R
  pub reported_samples : List (Sample R)

pub data Action (R : Type 0) : Type 0 where
  receive : WorkUnit R → Action R
  serve : R → Action R
  wake : Action R
  price_message : R → R → List ℕ → Action R

-- what an action finishes and reports
pub record Outcome (R : Type 0) : Type 0 where
  pub finished : List (Served R)
  pub reports : List (Report R)
  pub worker : BrokerWorker R

module _ {R : Type 0} where
  -- `_reset_window`
  abbrev pub reset_window : BrokerWorker R → BrokerWorker R
  reset_window b = record b { arrivals = 0; samples = []; completed = 0 }

  -- `_on_source`, for one unit
  abbrev pub on_source : WorkUnit R → BrokerWorker R → BrokerWorker R
  on_source u b = record b { arrivals = b.arrivals + 1; queue = b.queue ++ u ∷ [] }

  abbrev pub occupied : Option (Served R) → ℕ
  occupied none = 0
  occupied (some served) = 1

  -- `[samples[k] for k in keep]`
  abbrev picked : List ℕ → List (Sample R) → List (Sample R)
  picked [] samples = []
  picked (k ∷ keep) samples =
      let rest = picked keep samples in
      elim (get_elem? samples k) [ none ↦ rest | some sample ↦ sample ∷ rest ]

  -- more than MAX_SAMPLES samples are thinned to those whose numbers were drawn
  abbrev thinned : List ℕ → List (Sample R) → List (Sample R)
  thinned keep samples = if ltb 5000 (length samples) then picked keep samples else samples

  -- `metrics`: the report, and the worker with its window reset
  unfoldable pub metrics : List ℕ → BrokerWorker R → Report R × BrokerWorker R
  metrics keep b = (
    record {
      reported_arrivals = b.arrivals;
      reported_completed = b.completed;
      in_system = length b.queue + occupied b.serving;
      total_completed = b.completed_total;
      total_latency = b.latency_sum_total;
      reported_samples = thinned keep b.samples;
    },
    reset_window b,
  )

module _ {R : Type 0} ⦃n : Num R⦄ where
  -- `_serve` up to its sleep, with the drawn service time
  abbrev pub begin_service : R → BrokerWorker R → BrokerWorker R
  begin_service drawn b = elim b.serving [
    | some served ↦ b
    | none ↦ elim b.queue [
      | [] ↦ b
      | u ∷ rest ↦
          let start = max u.broker_arrival b.free_at in
          record b {
            queue = rest;
            free_at = start ⊕ drawn;
            serving =
                some (record { work = u; broker_start = start; broker_complete = start ⊕ drawn });
          }
    ]
  ]

  abbrev pub sample_of : Served R → Sample R
  sample_of v =
      let u = v.work in
      record {
        source = u.s;
        total = v.broker_complete ⊖ u.g;
        access_wait = u.access_start ⊖ u.g;
        access_service = u.access_complete ⊖ u.access_start;
        transfer = u.broker_arrival ⊖ u.access_complete;
        broker_wait = v.broker_start ⊖ u.broker_arrival;
        broker_service = v.broker_complete ⊖ v.broker_start;
      }

  -- `_complete`
  abbrev pub complete_unit : Served R → BrokerWorker R → BrokerWorker R
  complete_unit v b = record b {
    completed = b.completed + 1;
    completed_total = b.completed_total + 1;
    latency_sum_total = b.latency_sum_total ⊕ (v.broker_complete ⊖ (v.work).g);
    samples = b.samples ++ sample_of v ∷ [];
  }

  -- `_serve` after its sleep: what was finished, if anything
  abbrev pub end_service : BrokerWorker R → List (Served R) × BrokerWorker R
  end_service b = elim b.serving [
    | none ↦ ([], b)
    | some served ↦ (served ∷ [], complete_unit served (record b { serving = none }))
  ]

  -- the answer to a price message: the new price, and the measurements of the window
  unfoldable pub answer_price : R → R → List ℕ → BrokerWorker R → Result (Report R × BrokerWorker R)
  unfolding metrics
  answer_price price load keep b = do
    new_price ← broker_price price load b.mu b.gamma b.eps
    ok (metrics keep (record b { price = new_price }))

  unfoldable pub act : Action R → BrokerWorker R → Result (Outcome R)
  unfolding answer_price
  act (receive u) b = ok (record { finished = []; reports = []; worker = on_source u b })
  act (serve drawn) b = ok (record { finished = []; reports = []; worker = begin_service drawn b })
  act wake b =
      let done = end_service b in ok (record { finished = done.0; reports = []; worker = done.1 })
  act (price_message price load keep) b = answer_price price load keep b >>= λ answered.
      ok (record { finished = []; reports = answered.0 ∷ []; worker = answered.1 })

  -- a history of the worker
  pub acts : List (Action R) → BrokerWorker R → Result (Outcome R)
  unfolding act
  acts [] b = ok (record { finished = []; reports = []; worker = b })
  acts (a ∷ later) b = do
    first ← act a b
    rest ← acts later first.worker
    ok (record {
      finished = first.finished ++ rest.finished;
      reports = first.reports ++ rest.reports;
      worker = rest.worker;
    })
