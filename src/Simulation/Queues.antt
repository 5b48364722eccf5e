-- ===== src/Simulation/Queues.antt =====
-- src/simulation/queues.py. A dict over `range(n)` is a list, a dict of dicts a list of rows.
use traffic_emulator.Common.{
  ℕ, Bool, true, false, Option, List, [], ◌∷◌, ◌++◌, map, Result, ok, err, index_error,
}
use traffic_emulator.Common.Dict.{Dict}
use traffic_emulator.Num.{Num}

pub record Queue (R : Type 0) : Type 0 where
  pub capacity : R
  pub queue : List ℕ
  pub is_busy : Bool

-- the dict of one request: its keys, of which the last two come later
pub record Request (R : Type 0) : Type 0 where
  pub arrival : R
  pub source : ℕ
  pub access_complete : Option R
  pub broker_complete : Option R

pub record SimulationState (R : Type 0) : Type 0 where
  pub access_queues : List (List (Queue R))
  pub broker_queues : List (Queue R)
  pub requests : Dict (Request R)
  pub keep_requests : Bool
  pub completed : ℕ
  pub latency_sum : R

module _ {R : Type 0} where
  abbrev pub is_empty : Queue R → Bool
  is_empty q = elim q.queue [ [] ↦ true | _ ∷ _ ↦ false ]

  abbrev pub push : ℕ → Queue R → Queue R
  push request_id q = record q { queue = q.queue ++ request_id ∷ [] }

  take_front : Queue R → List ℕ → Result (ℕ × Queue R)
  take_front q [] = err index_error
  take_front q (request_id ∷ rest) = ok (request_id, record q { queue = rest })

  -- `popleft`, an error on the empty deque
  unfoldable pub pop : Queue R → Result (ℕ × Queue R)
  unfolding take_front
  pop q = take_front q q.queue

  abbrev pub fresh : R → Queue R
  fresh mu = record { capacity = mu; queue = []; is_busy = false }

  -- `SimulationState.__init__`
  unfoldable pub init : ⦃n : Num R⦄ → List (List R) → List R → Bool → SimulationState R
  init ⦃n⦄ mu_links mu_brokers keep_requests = record {
    access_queues = map (map fresh) mu_links;
    broker_queues = map fresh mu_brokers;
    requests = [];
    keep_requests = keep_requests;
    completed = 0;
    latency_sum = n.nought;
  }
