-- ===== src/Tests/Controllers.antt =====
-- The controller of the system of two sources and two brokers: registrations, and two rounds.
use traffic_emulator.Common.{
  none, some, [], ◌∷◌, List, ◌≡◌, refl, sym, true, false, Returns, ReturnsUnless, length, arith, ok,
  Bool,
}
use traffic_emulator.Num.Mix.{mix}
use traffic_emulator.Num.Integers.{ℤ, pos, integers, integers-IsOrdered, ◌+ℤ◌, ◌-ℤ◌, ◌*ℤ◌, div_ℤ}
use traffic_emulator.Control.Synchronous.{
  paper, holds, iteration_step, compute_broker_loads, broker_price, update_prices, respond,
}
use traffic_emulator.Model.MarginalCosts.{mm1_marginal_cost_vectorized, marginal_cost}
use traffic_emulator.Control.Synchronous.Responses.{respond_total}
use traffic_emulator.Distributed.Protocol.{source_role, broker_role}
use traffic_emulator.Distributed.Broker.{Report}
use traffic_emulator.Distributed.Source.{SourceReport}
use traffic_emulator.Distributed.Controller.{
  ControllerService, Connection, hello, register, shutdown, assign_source, first_message, closed,
  assign,
}
use traffic_emulator.Distributed.Controller.Registration.{IsAssigned, assign-IsAssigned}
use traffic_emulator.Distributed.Rounds.{
  Unpublished, PriceReply, no_price, priced, SourceReply, no_reply, failed_reply, Tick, round,
  prices_of,
}
use traffic_emulator.Distributed.Rounds.Safety.{IsServing}
use traffic_emulator.Distributed.Rounds.Refinement.{
  all_priced, price_answer, all_answered, row_answer, source_reply, round-iteration_step,
}
use traffic_emulator.Tests.Systems.{
  whole_functions, whole_functions-IsElementary, two_by_two, two_by_two-IsValid, two_rows,
}
use traffic_emulator.Tests.Iterations.{two_rows-IsFeasible}

assign-IsAssigned_example : IsAssigned 2 9 ((5, 0) ∷ []) (assign 2 9 ((5, 0) ∷ []))
assign-IsAssigned_example = assign-IsAssigned 2 9 ((5, 0) ∷ []) (refl, tt) (omega arith)

abbrev controller : ControllerService ℤ
controller = record {
  topology = two_by_two;
  p = record {
    eta = pos 1;
    gamma = pos 1;
    eps = pos 1;
    delta_s = pos 1;
    beta = pos 1;
    safe_step_variant = paper;
    root_seed = 42;
  };
  state = record {
    lambda_ij = two_rows;
    prices = pos 0 ∷ pos 0 ∷ [];
    iteration = 0;
    s_j = none;
    s_t = none;
    route_rel = none;
    price_rel = none;
    br_failures = [];
  };
  source_slots = [];
  broker_slots = [];
  source_channels = none ∷ none ∷ [];
  broker_channels = none ∷ none ∷ [];
  broker_addresses = none ∷ none ∷ [];
  ready_sources = false ∷ false ∷ [];
  brokers_registered = false;
  sources_ready = false;
  stop = false;
  lambda_hat = pos 0 ∷ pos 0 ∷ [];
  br_failures_total = 0;
  skipped_rounds = 0;
  t0 = none;
}

abbrev connections : List Connection
connections =
    hello (register (some source_role) 11 none) 1 true
    ∷ assign_source 0 1 true
    ∷ hello (register (some broker_role) 21 (some 71)) 2 true
    ∷ hello (register (some broker_role) 22 (some 72)) 3 true
    ∷ assign_source 0 1 true
    ∷ first_message 0 true true
    ∷ hello (register none 12 none) 4 true
    ∷ closed broker_role 1 3
    ∷ hello shutdown 5 false
    ∷ []

controller-IsServing : IsServing controller
controller-IsServing = record {
  topology_valid = two_by_two-IsValid;
  feasible = two_rows-IsFeasible;
  prices_length = refl;
  eta_positive = refl;
  eta-le-unit = refl;
  variant_known = λ h. cc h;
}

abbrev report : Report ℤ
report = record {
  reported_arrivals = 2;
  reported_completed = 1;
  in_system = 1;
  total_completed = 1;
  total_latency = pos 4;
  reported_samples = [];
}

abbrev source_report : SourceReport ℤ
source_report = record {
  routed_row = 1 ∷ 1 ∷ [];
  links_in_system = 0 ∷ 1 ∷ [];
  total_generated = 2;
}

abbrev prices_sent : List (PriceReply ℤ)
prices_sent = priced (pos 0) report ∷ priced (pos 0) report ∷ []

abbrev ticks : List (Tick ℤ)
ticks =
    record {
      price_replies = no_price ∷ priced (pos 1) report ∷ [];
      source_replies = no_reply ∷ no_reply ∷ [];
      routed = true;
      ended = pos 2;
      checked = pos 2;
    }
    ∷ record {
      price_replies = prices_sent;
      source_replies = no_reply ∷ failed_reply ∷ [];
      routed = true;
      ended = pos 3;
      checked = pos 3;
    }
    ∷ []

-- what a source with these links and this rate finds for the new prices
abbrev answer_of :
    (mu_row : List ℤ)
    → length mu_row ≡ 2
    → (r : List ℤ × Bool) × (respond holds mu_row (prices_of prices_sent) (pos 2) [] ≡ ok r)
answer_of mu_row h =
    respond_total integers-IsOrdered whole_functions-IsElementary mu_row (prices_of prices_sent) []
      (pos 2) (sym h)

abbrev answers : List (SourceReply ℤ)
answers =
    source_reply (answer_of (pos 10 ∷ pos 10 ∷ []) refl).0 source_report
    ∷ source_reply (answer_of (pos 10 ∷ pos 0 ∷ []) refl).0 source_report
    ∷ []

first_price : broker_price (pos 0) (pos 3) (pos 20) (pos 1) (pos 1) ≡ ok (pos 0)
unfolding mix broker_price update_prices mm1_marginal_cost_vectorized marginal_cost ◌+ℤ◌ ◌-ℤ◌ ◌*ℤ◌
    div_ℤ
first_price = refl

second_price : broker_price (pos 0) (pos 1) (pos 20) (pos 1) (pos 1) ≡ ok (pos 0)
unfolding mix broker_price update_prices mm1_marginal_cost_vectorized marginal_cost ◌+ℤ◌ ◌-ℤ◌ ◌*ℤ◌
    div_ℤ
second_price = refl

round-iteration_step_example :
    ReturnsUnless
      (Unpublished true prices_sent answers controller)
      (λ done.
        (done.applied_at ≡ pos 2)
        × Returns
            (λ r. (done.service).state ≡ r.0)
            (iteration_step controller.state two_by_two
              (pos 1)
              (pos 1)
              (pos 1)
              (pos 1)
              holds
              paper))
      (round true 1 (pos 0) (pos 1) (pos 2) prices_sent answers controller)
unfolding compute_broker_loads ◌+ℤ◌
round-iteration_step_example =
    round-iteration_step integers-IsOrdered whole_functions-IsElementary true 1 (pos 0) (pos 1)
      (pos 2) prices_sent answers controller controller-IsServing
      (price_answer (pos 0) report first_price
        (price_answer (pos 0) report second_price all_priced))
      (row_answer (answer_of (pos 10 ∷ pos 10 ∷ []) refl).0 source_report
        (answer_of (pos 10 ∷ pos 10 ∷ []) refl).1
        (row_answer (answer_of (pos 10 ∷ pos 0 ∷ []) refl).0 source_report
          (answer_of (pos 10 ∷ pos 0 ∷ []) refl).1 all_answered))
