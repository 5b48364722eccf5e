-- ===== src/Tests/Simulations.antt =====
-- The simulation of the system of two sources and two brokers, from one arrival event per source.
use traffic_emulator.Common.{
  ℕ, ◌+◌, ◌≡◌, refl, true, false, none, List, [], ◌∷◌, arith, Returns, ReturnsUnless, ok, subst,
  ◌<◌,
}
use traffic_emulator.Num.Integers.{ℤ, pos, integers, integers-IsOrdered}
use traffic_emulator.Simulation.Queues.{init}
use traffic_emulator.Simulation.Events.{Event, source_arrival}
use traffic_emulator.Simulation.Engine.{Engine}
use traffic_emulator.Simulation.Engine.ListHeap.{event_list, event_list-IsHeap}
use traffic_emulator.Simulation.Handler.{
  Handler, Params, Rng, IsRng, windowed_stochastic, at_source,
}
use traffic_emulator.Simulation.Handler.Tick.{
  handle_event, init_handler, at_tick, first_control, Refused,
}
use traffic_emulator.Simulation.Handler.Shape.{IsSized}
use traffic_emulator.Simulation.Handler.Conserve.{IsSound}
use traffic_emulator.Simulation.Handler.Conserve.Start.{IsStarted, init_handler-IsSound}
use traffic_emulator.Simulation.Handler.Conserve.Dispatch.{popped_state, handle_event-IsSound}
use traffic_emulator.Tests.Systems.{
  whole_functions, whole_functions-IsElementary, two_by_two, two_rows,
}

-- every service takes one unit of time, and every unit goes to the first broker
instance abbrev steady : Rng ℤ ℕ
steady = record {
  exponential = λ scale drawn. (pos 1, drawn + 1);
  choice = λ count probs drawn. ok (0, drawn + 1);
}

ok_injective : {A : Type 0} {x y : A} → ok x ≡ ok y → x ≡ y
ok_injective h = cc

steady-IsRng : IsRng ℤ ℕ
steady-IsRng = record {
  choice-lt = λ count probs g r h e. subst (λ (r : ℕ × ℕ). r.0 < count) (ok_injective e) h;
}

abbrev params : Params ℤ
params = record {
  eta = pos 1;
  gamma = pos 1;
  beta = pos 1;
  window = pos 5;
  warmup_windows = 0;
  eps = pos 1;
  delta_s = pos 1;
  mode = windowed_stochastic;
  topology_at = none;
  recording = true;
}

abbrev two_arrivals : Engine ℤ (List (Event ℤ))
two_arrivals = record {
  now = pos 0;
  event_queue = at_source (pos 0) 0 ∷ at_source (pos 2) 1 ∷ [];
  event_count = 2;
}

two_by_two-IsSized : IsSized 2 2 two_by_two
two_by_two-IsSized = record {
  some_broker = omega arith;
  rates = refl;
  links = (refl, (refl, tt));
  brokers = refl;
  capacities = refl;
}

abbrev handler : Handler ℤ ℕ (List (Event ℤ))
unfolding init
handler = record {
  engine = record {
    now = pos 0;
    event_queue = at_source (pos 0) 0 ∷ at_source (pos 2) 1 ∷ at_tick (pos 5) ∷ [];
    event_count = 3;
  };
  topology = two_by_two;
  state = init two_by_two.mu_links two_by_two.mu_brokers false;
  request_id_counter = 0;
  rng = 0;
  window_latencies = [];
  latency_log = none;
  control = first_control params two_by_two two_rows;
}

handler-IsSound : IsSound 2 2 none handler
unfolding init
handler-IsSound = record {
  well_formed = record {
    fits = record { sized = two_by_two-IsSized; routing = refl; priced = refl; estimated = refl };
    arrivals = refl;
    access_arrivals = (refl, (refl, tt));
    access_queues = ((refl, (refl, tt)), refl);
    broker_queues = (refl, refl);
    events = refl;
  };
  conserved = refl;
  placed_once = λ r. omega arith;
  not_yet = λ r far. refl;
  recorded = λ r there. absurd (omega (arith, there));
}

init_handler-IsSound_example :
    Returns (IsStarted {G = ℕ} (event_list-IsHeap integers-IsOrdered) params two_arrivals) (
      init_handler params two_arrivals two_by_two
        (init two_by_two.mu_links two_by_two.mu_brokers false)
        two_rows
        0
        none)
init_handler-IsSound_example =
    init_handler-IsSound (event_list-IsHeap integers-IsOrdered) params two_arrivals two_by_two false
      two_rows 0 none refl two_by_two-IsSized refl refl (λ w. refl)

handle_event-IsSound_example :
    ReturnsUnless
      (Refused params source_arrival
        (at_source (pos 0) 0)
        (popped_state (at_source (pos 0) 0) (at_source (pos 2) 1 ∷ at_tick (pos 5) ∷ []) handler))
      (IsSound 2 2 none)
      (handle_event params
        (at_source (pos 0) 0)
        (popped_state (at_source (pos 0) 0) (at_source (pos 2) 1 ∷ at_tick (pos 5) ∷ []) handler))
unfolding handler init
handle_event-IsSound_example =
    handle_event-IsSound integers-IsOrdered whole_functions-IsElementary steady-IsRng
      (event_list-IsHeap integers-IsOrdered) 2 2 params refl tt handler (at_source (pos 0) 0)
      (at_source (pos 2) 1 ∷ at_tick (pos 5) ∷ []) handler-IsSound refl
