-- ===== src/Distributed/Rounds/Loop.antt =====
-- The loop over the controller's rounds: the iterations that it counts are those that were applied.
use traffic_emulator.Common.{ℕ, ◌+◌, ◌≤◌, ◌≡◌, List, [], ◌∷◌, length, Error}
use traffic_emulator.Num.{Num, IsOrdered, ◌≺◌}
use traffic_emulator.Num.Elementary.{Elementary, IsElementary}
use traffic_emulator.Model.Topology.{Topology}
use traffic_emulator.Distributed.Controller.{ControllerService}
use traffic_emulator.Distributed.Rounds.{Tick, Unpublished}
use traffic_emulator.Distributed.Rounds.Safety.{Answers, IsServing}

module _ {R : Type 0} ⦃n : Num R⦄ ⦃e : Elementary R⦄ where
  -- Every round ends later than those before it.
  abbrev pub Advances : R → List (Tick R) → Type 0
  Advances last [] = Unit
  Advances last (tick ∷ later) =
      (last ≺ tick.ended) × Advances last later × Advances tick.ended later

  -- There is an answer, or none, for each broker and each source.
  abbrev pub Answered : Topology R → List (Tick R) → Type 0
  Answered topo [] = Unit
  Answered topo (tick ∷ later) =
      (length tick.price_replies ≡ length topo.mu_brokers)
      × Answers topo.mu_links topo.lambdas_total tick.source_replies
      × Answered topo later

  -- What the loop leaves after at most `ticks` rounds from a count of `k`.
  pub record IsRun (ticks k : ℕ) (before : ControllerService R) (r : ℕ × ControllerService R)
      : Type 0 where
    pub serving : IsServing r.1
    pub counted : r.0 + (before.state).iteration ≡ k + ((r.1).state).iteration
    pub bounded :
        ((r.1).state).iteration + (r.1).skipped_rounds
        ≤ (before.state).iteration + before.skipped_rounds + ticks

module _ {R : Type 0} ⦃n : Num R⦄ ⦃e : Elementary R⦄ (laws : IsOrdered R)
    (elementary : IsElementary R) where
  -- A round from some feasible routing could not be published.
  abbrev pub IsBroken : Error → Type 0
  IsBroken error =
      (service : ControllerService R) × (tick : Tick R) × IsServing service
      × Unpublished tick.routed tick.price_replies tick.source_replies service error
