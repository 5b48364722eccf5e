-- ===== src/Simulation/Handler/Conserve/Start.antt =====
-- The state that `SimulationState` and `SimulationHandler` start with.
use traffic_emulator.Common.{
  ℕ, zero, suc, ◌≡◌, refl, ◌∙◌, List, [], ◌∷◌, map, length, length-map, replicate, length-replicate,
  Option, none, ◌+◌, arith, Bool, Returns,
}
use traffic_emulator.Common.Sums.{sum_of, sum2_of}
use traffic_emulator.Num.{Num}
use traffic_emulator.Model.Topology.{Topology}
use traffic_emulator.Simulation.Events.{Event}
use traffic_emulator.Simulation.Queues.{Queue, fresh, init}
use traffic_emulator.Simulation.Engine.{Heap, IsHeap, Engine}
use traffic_emulator.Simulation.Handler.{Handler, Params, windowed_stochastic, scheduled}
use traffic_emulator.Simulation.Handler.Tick.{at_tick, init_control, init_handler, first_control}
use traffic_emulator.Simulation.Handler.Places.{
  places, waiting, carried, only, each, places-scheduled,
}
use traffic_emulator.Simulation.Handler.Shape.{
  IsSized, IsTable, malformed, stranded, scheduled-IsWellFormed,
}
use traffic_emulator.Simulation.Handler.Conserve.{IsSound}

replicate-IsTable :
    {A : Type 0} (n_rows columns : ℕ) (a : A)
    → IsTable n_rows columns (replicate n_rows (replicate columns a))
replicate-IsTable zero columns a = tt
replicate-IsTable (suc n_rows) columns a =
    (length-replicate columns a, replicate-IsTable n_rows columns a)

module _ {R : Type 0} (measure : Queue R → ℕ) (empty : (mu : R) → measure (fresh mu) ≡ 0) where
  sum_of-fresh : (mus : List R) → sum_of measure (map fresh mus) ≡ 0
  sum_of-fresh [] = refl
  sum_of-fresh (mu ∷ mus) = omega (arith, empty mu, sum_of-fresh mus)

  sum2_of-fresh : (links : List (List R)) → sum2_of measure (map (map fresh) links) ≡ 0
  sum2_of-fresh [] = refl
  sum2_of-fresh (row ∷ links) = omega (arith, sum_of-fresh row, sum2_of-fresh links)

fresh-IsTable :
    {R : Type 0} (n_rows columns : ℕ) (links : List (List R))
    → IsTable n_rows columns links
    → IsTable n_rows columns (map (map fresh) links)
fresh-IsTable zero columns [] t = tt
fresh-IsTable zero columns (row ∷ links) t = absurd t
fresh-IsTable (suc n_rows) columns [] t = absurd t
fresh-IsTable (suc n_rows) columns (row ∷ links) t =
    (length-map row fresh ∙ t.0, fresh-IsTable n_rows columns links t.1)

module _ {R G H : Type 0} ⦃n : Num R⦄ ⦃p : Heap R H⦄ (heap : IsHeap R H) where
  -- The invariant holds, and the events are those of the engine and the first tick of the controller,
  -- at the end of the first window.
  pub record IsStarted (params : Params R) (engine : Engine R H) (h : Handler R G H) : Type 0 where
    pub sound : IsSound (length (h.topology).sources) (length (h.topology).brokers) none h
    pub first_tick :
        (w : Event R → ℕ)
        → sum_of w (p.contents (h.engine).event_queue)
          ≡ w (at_tick params.window) + sum_of w (p.contents engine.event_queue)

  -- A handler of the windowed mode that is built on a topology, with fresh queues of its capacities,
  -- a plan with a row for each source, and an engine whose events are well formed and carry no unit,
  -- satisfies the invariant of the simulation, and its events are the engine's and the controller's
  -- first tick at the end of the first window.
  pub init_handler-IsSound :
      (params : Params R) (engine : Engine R H) (topology : Topology R) (keep_requests : Bool)
      (x_ij : List (List R)) (g : G) (latency_log : Option (List (R × ℕ × R)))
      → params.mode ≡ windowed_stochastic
      → IsSized (length topology.sources) (length topology.brokers) topology
      → length x_ij ≡ length topology.sources
      → sum_of
          (malformed (length topology.sources) (length topology.brokers))
          (p.contents engine.event_queue)
        ≡ 0
      → ((w : ℕ → ℕ) → sum_of (carried w) (p.contents engine.event_queue) ≡ 0)
      → Returns (IsStarted params engine) (
          init_handler params engine topology
            (init topology.mu_links topology.mu_brokers keep_requests)
            x_ij
            g
            latency_log)
  unfolding init_handler init_control init
  init_handler-IsSound params engine topology keep_requests x_ij g latency_log windowed sized routed
        fine no_units =
      let n_sources = length topology.sources in
      let n_brokers = length topology.brokers in
      let h : Handler R G H = record {
        engine = engine;
        topology = topology;
        state = init topology.mu_links topology.mu_brokers keep_requests;
        request_id_counter = 0;
        rng = g;
        window_latencies = [];
        latency_log = latency_log;
        control = first_control params topology x_ij;
      } in
      let tick = at_tick params.window in
      let nowhere : (w : ℕ → ℕ) → places w (scheduled tick h) ≡ 0 = λ w. omega (
        arith,
        places-scheduled w heap tick h,
        sum2_of-fresh (waiting w) (λ mu. refl) topology.mu_links,
        sum_of-fresh (waiting w) (λ mu. refl) topology.mu_brokers,
        no_units w,
      ) in
      rw windowed (record {
        first_tick = λ w. heap.sum-heappush w engine.event_queue tick;
        sound = record {
          well_formed = scheduled-IsWellFormed n_sources n_brokers heap tick h refl (record {
            fits = record {
              sized = sized;
              routing = routed;
              priced = length-replicate n_brokers n.nought;
              estimated = length-replicate n_brokers n.nought;
            };
            arrivals = length-replicate n_brokers 0;
            access_arrivals = replicate-IsTable n_sources n_brokers 0;
            access_queues = (
              fresh-IsTable n_sources n_brokers topology.mu_links sized.links,
              sum2_of-fresh stranded (λ mu. refl) topology.mu_links,
            );
            broker_queues = (
              length-map topology.mu_brokers fresh ∙ sized.capacities,
              sum_of-fresh stranded (λ mu. refl) topology.mu_brokers,
            );
            events = fine;
          });
          conserved = omega (arith, nowhere each);
          placed_once = λ r. omega (arith, nowhere (only r));
          not_yet = λ r far. omega (arith, nowhere (only r));
          recorded = λ r there. absurd (omega (arith, there, nowhere (only r)));
        };
      })
