-- ===== src/Simulation/Handler/Effects.antt =====
-- What each handler does to the work units, in three kinds: a new unit enters, a unit moves from the
-- event to its next place, a unit is completed. On a well-formed state only an arrival may raise.
pub mod Services
pub mod Completions
pub mod Arrivals
use traffic_emulator.Common.{
  ℕ, ◌+◌, ◌≡◌, refl, ap, ◌∙◌, Bool, true, false, ◌||◌, arith, if◌then◌else◌, ◌==◌,
}
use traffic_emulator.Common.Dict.{Dict, contains, contains-insert, contains-erase, insert, erase}
use traffic_emulator.Num.{Num}
use traffic_emulator.Simulation.Engine.{Heap, IsHeap}
use traffic_emulator.Simulation.Handler.{Handler}
use traffic_emulator.Simulation.Handler.Places.{places}
use traffic_emulator.Simulation.Handler.Shape.{IsWellFormed}

-- A record that is written anew takes no other away.
pub kept_insert :
    {V : Type 0} (k r : ℕ) (v : V) (d : Dict V) {d' : Dict V}
    → d' ≡ insert r v d
    → contains k d ≡ true
    → contains k d' ≡ true
kept_insert k r v d same was = ap (contains k) same ∙ contains-insert k r v d ∙ ground (arith, was)

-- A record that goes is the only one.
kept_erase :
    {V : Type 0} (k r : ℕ) (v : V) (d : Dict V)
    → (k == r) ≡ false
    → contains k d ≡ true
    → contains k (erase r (insert r v d)) ≡ true
kept_erase k r v d other was =
    contains-erase k r (insert r v d) ∙ ground (arith, was, other, contains-insert k r v d)

pub kept_complete :
    {V : Type 0} (k r : ℕ) (keep : Bool) (v : V) (d : Dict V)
    → (k == r) ≡ false
    → contains k d ≡ true
    → contains k (if keep then insert r v d else erase r (insert r v d)) ≡ true
kept_complete k r true v d other was = kept_insert k r v d refl was
kept_complete k r false v d other was = kept_erase k r v d other was

module _ {R G H : Type 0} ⦃p : Heap R H⦄ where
  -- A unit with the next number enters, with its record.
  pub record IsEntry (h h' : Handler R G H) : Type 0 where
    pub entered : (w : ℕ → ℕ) → places w h' ≡ w h.request_id_counter + places w h
    pub numbered : h'.request_id_counter ≡ h.request_id_counter + 1
    pub completed_same : (h'.state).completed ≡ (h.state).completed
    pub recorded :
        (r : ℕ)
        → contains r (h'.state).requests
          ≡ ((r == h.request_id_counter) || contains r (h.state).requests)

  -- The event's unit is in its next place.
  pub record IsMove (unit : ℕ) (h h' : Handler R G H) : Type 0 where
    pub moved : (w : ℕ → ℕ) → places w h' ≡ w unit + places w h
    pub counter_same : h'.request_id_counter ≡ h.request_id_counter
    pub completed_same : (h'.state).completed ≡ (h.state).completed
    pub kept :
        (r : ℕ) → contains r (h.state).requests ≡ true → contains r (h'.state).requests ≡ true

  -- The event's unit is counted as completed and is nowhere; the records of the others stay.
  pub record IsCompletion (unit : ℕ) (h h' : Handler R G H) : Type 0 where
    pub left : (w : ℕ → ℕ) → places w h' ≡ places w h
    pub counter_same : h'.request_id_counter ≡ h.request_id_counter
    pub counted : (h'.state).completed ≡ (h.state).completed + 1
    pub kept :
        (r : ℕ)
        → (r == unit) ≡ false
        → contains r (h.state).requests ≡ true
        → contains r (h'.state).requests ≡ true

  module _ ⦃n : Num R⦄ (heap : IsHeap R H) (n_sources n_brokers : ℕ) where
    pub renewed :
        {h : Handler R G H} (g : G)
        → IsWellFormed n_sources n_brokers h
        → IsWellFormed n_sources n_brokers (record h { rng = g })
    renewed g wf = record {
      fits = wf.fits;
      arrivals = wf.arrivals;
      access_arrivals = wf.access_arrivals;
      access_queues = wf.access_queues;
      broker_queues = wf.broker_queues;
      events = wf.events;
    }
