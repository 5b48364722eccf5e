-- ===== src/Distributed/Source.antt =====
-- src/distributed/source.py: `SourceWorker` as a state that its coroutines change, like the broker's.
-- There is a link for each broker; the draws and the wall clock come with the actions.
pub mod Units
use traffic_emulator.Common.{
  ℕ, ◌+◌, Bool, true, false, Option, none, some, List, [], ◌∷◌, ◌++◌, map, length, if◌then◌else◌,
  get_elem?, set, Result, ok, err, index_error, or_raise, ◌>>=◌,
}
use traffic_emulator.Num.{Num, ◌⊕◌, max}
use traffic_emulator.Num.Elementary.{Elementary}
use traffic_emulator.Control.Synchronous.{holds, respond}

-- a generated unit: its number, its broker and when it was generated
pub record Generated (R : Type 0) : Type 0 where
  pub number : ℕ
  pub broker : ℕ
  pub generated : R

-- a unit with its access times, as it is sent to the broker
pub record Sent (R : Type 0) : Type 0 where
  pub unit : Generated R
  pub access_start : R
  pub access_complete : R

-- one access link: its queue, the unit in service (`busy`), its clock and the units routed this round
pub record Link (R : Type 0) : Type 0 where
  pub waiting : List (Generated R)
  pub in_service : Option (Sent R)
  pub link_free_at : R
  pub routed : ℕ

pub record SourceWorker (R : Type 0) : Type 0 where
  pub links : List (Link R)
  pub unit_ids : ℕ
  pub generated_total : ℕ
  pub rate : R
  pub mu_row : List R
  pub x_row : List R

pub data SourceAction (R : Type 0) : Type 0 where
  generate : R → ℕ → SourceAction R
  take : ℕ → R → SourceAction R
  send_on : ℕ → SourceAction R
  best_response : List R → SourceAction R
  routing : List R → SourceAction R

pub record SourceReport (R : Type 0) : Type 0 where
  pub routed_row : List ℕ
  pub links_in_system : List ℕ
  pub total_generated : ℕ

pub record SourceOutcome (R : Type 0) : Type 0 where
  pub sent : List (Sent R)
  pub source_reports : List (SourceReport R)
  -- `lambda_br` of a reply, or none if it is marked as failed
  pub replies : List (Option (List R))
  pub source_worker : SourceWorker R

module _ {R : Type 0} where
  abbrev pub in_link : Link R → ℕ
  in_link l = length l.waiting + elim l.in_service [ none ↦ 0 | some v ↦ 1 ]

  -- `_generate`, for one arrival that is routed to broker `j`
  abbrev pub enqueue : R → ℕ → Link R → SourceWorker R → SourceWorker R
  enqueue t j l w =
      let unit : Generated R = record { number = w.unit_ids; broker = j; generated = t } in
      record w {
        links =
            set w.links j (record l { waiting = l.waiting ++ unit ∷ []; routed = l.routed + 1 });
        unit_ids = w.unit_ids + 1;
        generated_total = w.generated_total + 1;
      }

  -- `_serve_access` after its sleep
  abbrev pub end_access : Link R → List (Sent R) × Link R
  end_access l = elim l.in_service [
    | none ↦ ([], l)
    | some v ↦ (v ∷ [], record l { in_service = none })
  ]

  -- `metrics`
  unfoldable pub source_metrics : SourceWorker R → SourceReport R × SourceWorker R
  source_metrics w = (
    record {
      routed_row = map (λ (l : Link R). l.routed) w.links;
      links_in_system = map in_link w.links;
      total_generated = w.generated_total;
    },
    record w { links = map (λ (l : Link R). record l { routed = 0 }) w.links },
  )

module _ {R : Type 0} ⦃n : Num R⦄ where
  -- `_serve_access` up to its sleep
  abbrev pub begin_access : R → Link R → Link R
  begin_access drawn l = elim l.in_service [
    | some v ↦ l
    | none ↦ elim l.waiting [
      | [] ↦ l
      | u ∷ rest ↦
          let start = max u.generated l.link_free_at in
          record l {
            waiting = rest;
            link_free_at = start ⊕ drawn;
            in_service =
                some (record { unit = u; access_start = start; access_complete = start ⊕ drawn });
          }
    ]
  ]

  unfoldable pub source_act :
      ⦃e : Elementary R⦄ → SourceAction R → SourceWorker R → Result (SourceOutcome R)
  unfolding source_metrics
  source_act (generate t j) w = do
    l ← or_raise (get_elem? w.links j) index_error
    ok (record { sent = []; source_reports = []; replies = []; source_worker = enqueue t j l w })
  source_act (take j drawn) w = do
    l ← or_raise (get_elem? w.links j) index_error
    ok (record {
      sent = [];
      source_reports = [];
      replies = [];
      source_worker = record w { links = set w.links j (begin_access drawn l) };
    })
  source_act (send_on j) w = do
    l ← or_raise (get_elem? w.links j) index_error
    ok (record {
      sent = (end_access l).0;
      source_reports = [];
      replies = [];
      source_worker = record w { links = set w.links j (end_access l).1 };
    })
  source_act (best_response prices) w = do
    let measured = source_metrics w
    (row, failed) ← respond holds w.mu_row prices w.rate []
    ok (record {
      sent = [];
      source_reports = measured.0 ∷ [];
      replies = (if failed then none else some row) ∷ [];
      source_worker = measured.1;
    })
  source_act (routing row) w = ok (record {
    sent = [];
    source_reports = [];
    replies = [];
    source_worker = record w { x_row = row };
  })

  -- a history of the worker
  pub source_acts :
      ⦃e : Elementary R⦄ → List (SourceAction R) → SourceWorker R → Result (SourceOutcome R)
  unfolding source_act
  source_acts [] w = ok (record { sent = []; source_reports = []; replies = []; source_worker = w })
  source_acts (a ∷ later) w = do
    first ← source_act a w
    rest ← source_acts later first.source_worker
    ok (record {
      sent = first.sent ++ rest.sent;
      source_reports = first.source_reports ++ rest.source_reports;
      replies = first.replies ++ rest.replies;
      source_worker = rest.source_worker;
    })
