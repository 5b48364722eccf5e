-- ===== src/Tests/Brokers.antt =====
-- A broker worker that receives two units and serves them, with a price message in between.
use traffic_emulator.Common.{none, [], ◌∷◌, List, Returns, refl}
use traffic_emulator.Num.Integers.{ℤ, pos, integers, integers-IsOrdered}
use traffic_emulator.Distributed.Broker.{
  BrokerWorker, WorkUnit, Action, receive, serve, wake, price_message, acts,
}
use traffic_emulator.Distributed.Broker.Fifo.{IsHistory, acts-IsHistory}
use traffic_emulator.Distributed.Broker.Clock.{ServesFrom, acts-ServesFrom}

abbrev worker : BrokerWorker ℤ
worker = record {
  queue = [];
  serving = none;
  free_at = pos 0;
  arrivals = 0;
  samples = [];
  completed = 0;
  completed_total = 0;
  latency_sum_total = pos 0;
  mu = pos 20;
  gamma = pos 1;
  eps = pos 1;
  price = pos 0;
}

abbrev first_unit : WorkUnit ℤ
first_unit = record {
  s = 0;
  g = pos 1;
  access_start = pos 1;
  access_complete = pos 2;
  broker_arrival = pos 3;
}

abbrev second_unit : WorkUnit ℤ
second_unit = record {
  s = 1;
  g = pos 2;
  access_start = pos 2;
  access_complete = pos 3;
  broker_arrival = pos 4;
}

abbrev history : List (Action ℤ)
history =
    receive first_unit
    ∷ receive second_unit
    ∷ serve (pos 5)
    ∷ wake
    ∷ price_message (pos 1) (pos 3) []
    ∷ serve (pos 2)
    ∷ wake
    ∷ []

acts-IsHistory_example : Returns (IsHistory history worker) (acts history worker)
acts-IsHistory_example = acts-IsHistory history worker

acts-ServesFrom_example : Returns (ServesFrom (pos 0)) (acts history worker)
acts-ServesFrom_example =
    acts-ServesFrom integers-IsOrdered history (pos 0) worker (refl, (refl, tt)) refl
