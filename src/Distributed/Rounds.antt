-- ===== src/Distributed/Rounds.antt =====
-- src/distributed/controller.py: a round of `ControllerService`, what it records, and the loop over the
-- rounds. What the workers answer comes with the round: a request that ends with an exception has no
-- answer. Whether the routing, the state's own rows, could be
-- sent comes with it too.
pub mod Refinement
pub mod Safety
pub mod Loop
use traffic_emulator.Common.{
  ℕ, zero, suc, ◌+◌, Bool, true, false, not, ◌&&◌, Option, none, some, List, [], ◌∷◌, ◌++◌, map,
  length, replicate, zip_with, leb, ◌==◌, if◌then◌else◌, Result, ok, err, Error, ◌≡◌, value_error,
  connection_error, raise_if, ◌>>◌, ◌>>=◌,
}
use traffic_emulator.Common.Sums.{sum_of}
use traffic_emulator.Num.{Num, ◌⊕◌, ◌⊖◌, ◌⊗◌, ◌⊘◌, max}
use traffic_emulator.Num.Elementary.{Elementary, eq}
use traffic_emulator.Num.Vectors.{sum, mix_row}
use traffic_emulator.Control.Synchronous.{SystemState, compute_broker_loads, apply_common_step}
use traffic_emulator.Control.Diagnostics.{compute_diagnostics}
use traffic_emulator.Distributed.Broker.{Report, Sample}
use traffic_emulator.Distributed.Source.{SourceReport}
use traffic_emulator.Distributed.Controller.{ControllerService}
use traffic_emulator.Distributed.Measures.{Measured, record_round}

-- the reply of a broker: its new price and its measurements
pub data PriceReply (R : Type 0) : Type 0 where
  no_price : PriceReply R
  priced : R → Report R → PriceReply R

-- the reply of a source: its best response, or that it failed
pub data SourceReply (R : Type 0) : Type 0 where
  no_reply failed_reply : SourceReply R
  best : List R → SourceReport R → SourceReply R

-- how a round ends: the time of the last applied one, and what was recorded
pub record RoundEnd (R : Type 0) : Type 0 where
  pub applied_at : R
  pub measured : Option (Measured R)
  pub service : ControllerService R

-- what happens from one deadline to the next: the answers, the end of the round, and the time of the
-- test of the duration
pub record Tick (R : Type 0) : Type 0 where
  pub price_replies : List (PriceReply R)
  pub source_replies : List (SourceReply R)
  -- whether the routing could be sent to every connected source
  pub routed : Bool
  pub ended : R
  pub checked : R

module _ {R : Type 0} where
  abbrev pub source_metrics_of : SourceReply R → Option (SourceReport R)
  source_metrics_of (best row report) = some report
  source_metrics_of _ = none

  -- `[j for j, r in enumerate(replies) if isinstance(r, Exception)]`
  abbrev pub failed_brokers : ℕ → List (PriceReply R) → List ℕ
  failed_brokers j [] = []
  failed_brokers j (no_price ∷ replies) = j ∷ failed_brokers (suc j) replies
  failed_brokers j (priced price report ∷ replies) = failed_brokers (suc j) replies

  abbrev pub prices_of : List (PriceReply R) → List R
  prices_of [] = []
  prices_of (no_price ∷ replies) = prices_of replies
  prices_of (priced price report ∷ replies) = price ∷ prices_of replies

  abbrev pub reports_of : List (PriceReply R) → List (Report R)
  reports_of [] = []
  reports_of (no_price ∷ replies) = reports_of replies
  reports_of (priced price report ∷ replies) = report ∷ reports_of replies

  -- `lambda_br[i] = row`: numpy spreads a single number, and takes no row of another length
  abbrev pub assign_row : List R → List R → Result (List R)
  assign_row old (x ∷ []) = ok (replicate (length old) x)
  assign_row old row = if length row == length old then ok row else err value_error

  -- the rows after the sources' answers, and the sources whose row is held
  abbrev pub collect_rows :
      ℕ → List (SourceReply R) → List (List R) → Result (List (List R) × List ℕ)
  collect_rows i (best row report ∷ replies) (old ∷ rows) = do
    new ← assign_row old row
    (rest, failures) ← collect_rows (i + 1) replies rows
    ok (new ∷ rest, failures)
  collect_rows i (no_reply ∷ replies) (old ∷ rows) = do
    (rest, failures) ← collect_rows (i + 1) replies rows
    ok (old ∷ rest, i ∷ failures)
  collect_rows i (failed_reply ∷ replies) (old ∷ rows) = do
    (rest, failures) ← collect_rows (i + 1) replies rows
    ok (old ∷ rest, i ∷ failures)
  collect_rows i replies rows = ok (rows, [])

module _ {R : Type 0} ⦃n : Num R⦄ where
  module _ ⦃e : Elementary R⦄ where
    -- the round once every broker has answered: the safe step towards the rows that the sources sent
    unfoldable pub apply_round :
        List (PriceReply R)
        → List (SourceReply R)
        → ControllerService R
        → Result (List ℕ × ControllerService R)
    apply_round price_replies source_replies service = do
      (lambda_br, failures) ← collect_rows 0 source_replies (service.state).lambda_ij
      let p = service.p
      (state, s_t, residual) ←
          apply_common_step service.state service.topology lambda_br (prices_of price_replies) p.eta
            p.eps p.delta_s p.safe_step_variant failures
      ok (
        failures,
        record service {
          state = state;
          br_failures_total = service.br_failures_total + length failures;
        },
      )

    -- after the step: the routing is sent to the connected sources, where a lost connection raises, and
    -- the snapshot of `_record` computes the diagnostics
    unfoldable pub publish : Bool → ControllerService R → Result (Unit {0})
    publish routed service =
        raise_if (not routed) connection_error
        >> (compute_diagnostics (service.state).lambda_ij (service.state).prices service.topology
              (e.literal 1 7) (service.p).eps
            >>= λ diag. ok tt)

    -- the rest of `_round`, once it is known which brokers failed
    abbrev pub conclude :
        Bool
        → List ℕ
        → ℕ
        → R
        → R
        → R
        → List (PriceReply R)
        → List (SourceReply R)
        → ControllerService R
        → Result (RoundEnd R)
    conclude routed (_ ∷ _) k t0 last_time now price_replies source_replies service = ok (record {
      applied_at = last_time;
      measured = none;
      service = record service { skipped_rounds = suc service.skipped_rounds };
    })
    conclude routed [] k t0 last_time now price_replies source_replies service =
        apply_round price_replies source_replies service >>= λ applied.
        publish routed applied.1
        >> (let recorded =
              record_round k (now ⊖ t0) (now ⊖ last_time) (reports_of price_replies)
                (map source_metrics_of source_replies) applied.0 applied.1 in
            ok (record { applied_at = now; measured = some recorded.0; service = recorded.1 }))

    -- The step was made, but the routing could not be sent or the diagnostics raised.
    abbrev pub Unpublished :
        Bool → List (PriceReply R) → List (SourceReply R) → ControllerService R → Error → Type 0
    Unpublished routed price_replies source_replies service error =
        (failed_brokers 0 price_replies ≡ [])
        × (applied : List ℕ × ControllerService R) × (apply_round price_replies source_replies
              service
            ≡ ok applied)
        × (publish routed applied.1 ≡ err error)

    -- `_round`, with the time at its end and the time of the first one; without every price it is
    -- skipped
    unfoldable pub round :
        Bool
        → ℕ
        → R
        → R
        → R
        → List (PriceReply R)
        → List (SourceReply R)
        → ControllerService R
        → Result (RoundEnd R)
    unfolding publish
    round routed k t0 last_time now price_replies source_replies service =
        conclude routed (failed_brokers 0 price_replies) k t0 last_time now price_replies
          source_replies service

    abbrev past : Option R → R → Bool
    past none elapsed = false
    past (some duration) elapsed = n.le duration elapsed

    -- `_rounds`, as long as nobody asks it to stop: `k` counts the iterations that were applied
    pub rounds :
        Option R
        → R
        → List (Tick R)
        → ℕ
        → R
        → ControllerService R
        → Result (ℕ × ControllerService R)
    unfolding round
    rounds duration t0 [] k last service = ok (k, service)
    rounds duration t0 (tick ∷ later) k last service = do
      done ←
          round tick.routed (suc k) t0 last tick.ended tick.price_replies tick.source_replies
            service
      let k' = if eq done.applied_at last then k else suc k
      let rest = rounds duration t0 later k' done.applied_at done.service
      if past duration (tick.checked ⊖ t0) then ok (k', done.service) else rest
