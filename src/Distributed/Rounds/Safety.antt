-- ===== src/Distributed/Rounds/Safety.antt =====
-- Whatever workers are lost, the controller's rounds keep the routing feasible.
use traffic_emulator.Common.{suc, ◌≡◌, ◌≢◌, refl, ◌⊎◌, List, [], ◌∷◌, length, arith, ==_iff, ok}
use traffic_emulator.Num.{Num, IsOrdered, ◌≼◌, ◌≺◌}
use traffic_emulator.Num.Elementary.{Elementary, IsElementary}
use traffic_emulator.Model.Topology.Valid.{IsValid}
use traffic_emulator.Control.Synchronous.{unknown, source_best_response}
use traffic_emulator.Control.Synchronous.Capacity.{IsFeasible}
use traffic_emulator.Control.Synchronous.Responses.{br_tolerance}
use traffic_emulator.Distributed.Source.{SourceReport}
use traffic_emulator.Distributed.Controller.{ControllerService}
use traffic_emulator.Distributed.Rounds.{
  SourceReply, no_reply, failed_reply, best, assign_row, RoundEnd,
}

module _ {R : Type 0} ⦃n : Num R⦄ ⦃e : Elementary R⦄ where
  -- Each source sent nothing, or that it failed, or a best response to some prices.
  pub data Answers : List (List R) → List R → List (SourceReply R) → Type 0 where
    no_answers : Answers [] [] []
    lost_source :
        {mu : List R} {lam : R} {mus : List (List R)} {lambdas : List R}
        {replies : List (SourceReply R)}
        → Answers mus lambdas replies
        → Answers (mu ∷ mus) (lam ∷ lambdas) (no_reply ∷ replies)
    failed_source :
        {mu : List R} {lam : R} {mus : List (List R)} {lambdas : List R}
        {replies : List (SourceReply R)}
        → Answers mus lambdas replies
        → Answers (mu ∷ mus) (lam ∷ lambdas) (failed_reply ∷ replies)
    best_source :
        (prices : List R) {mu row : List R} {lam : R} {mus : List (List R)} {lambdas : List R}
        {report : SourceReport R} {replies : List (SourceReply R)}
        → source_best_response mu prices lam ≡ ok row
        → Answers mus lambdas replies
        → Answers (mu ∷ mus) (lam ∷ lambdas) (best row report ∷ replies)

  -- What the controller keeps from round to round.
  pub record IsServing (service : ControllerService R) : Type 0 where
    pub topology_valid : IsValid service.topology
    pub feasible :
        IsFeasible br_tolerance (service.p).delta_s service.topology (service.state).lambda_ij
    pub prices_length : length (service.state).prices ≡ length (service.topology).mu_brokers
    pub eta_positive : n.nought ≺ (service.p).eta
    pub eta-le-unit : (service.p).eta ≼ n.unit
    pub variant_known : (service.p).safe_step_variant ≢ unknown

  pub assign_row-same : (old row : List R) → length row ≡ length old → assign_row old row ≡ ok row
  assign_row-same [] [] h = refl
  assign_row-same [] (x ∷ row) h = absurd (omega arith)
  assign_row-same (y ∷ []) (x ∷ []) h = refl
  assign_row-same (y ∷ z ∷ old) (x ∷ []) h = absurd (omega arith)
  assign_row-same (y ∷ old) [] h = absurd (omega arith)
  assign_row-same (y ∷ old) (x ∷ x' ∷ row) h = rw ((==_iff _ _).1 h) refl

module _ {R : Type 0} ⦃n : Num R⦄ ⦃e : Elementary R⦄ (laws : IsOrdered R)
    (elementary : IsElementary R) where
  open n use {nought, unit}

  -- How a round ends, from a service whose last applied round ended at `last`.
  pub record IsRound (last now : R) (before : ControllerService R) (r : RoundEnd R) : Type 0 where
    pub serving : IsServing r.service
    pub same_topology : (r.service).topology ≡ before.topology
    pub same_parameters : (r.service).p ≡ before.p
    pub outcome :
        ((r.applied_at ≡ last)
          × ((r.service).state ≡ before.state)
          × ((r.service).skipped_rounds ≡ suc before.skipped_rounds))
        ⊎ ((r.applied_at ≡ now)
            × (((r.service).state).iteration ≡ suc (before.state).iteration)
            × ((r.service).skipped_rounds ≡ before.skipped_rounds))
