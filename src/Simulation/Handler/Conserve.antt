-- ===== src/Simulation/Handler/Conserve.antt =====
-- No work unit is lost or doubled: the invariant of the simulation, what keeps it for each kind of
-- handler, and the popped event, whose unit is in the handler's hand.
pub mod Dispatch
pub mod Start
use traffic_emulator.Common.{ℕ, ◌+◌, ◌≤◌, ◌≡◌, ap, ◌∙◌, true, Option, none, some, arith}
use traffic_emulator.Common.Dict.{contains}
use traffic_emulator.Num.{Num}
use traffic_emulator.Simulation.Engine.{Heap}
use traffic_emulator.Simulation.Handler.{Handler}
use traffic_emulator.Simulation.Handler.Places.{places, only, each}
use traffic_emulator.Simulation.Handler.Shape.{IsWellFormed}
use traffic_emulator.Simulation.Handler.Effects.{IsEntry, IsMove, IsCompletion}
use traffic_emulator.Simulation.Handler.Quiet.{IsQuiet}

-- the weight of the unit in hand, if there is one
abbrev pub in_hand : (ℕ → ℕ) → Option ℕ → ℕ
in_hand w none = 0
in_hand w (some r) = w r

module _ {R G H : Type 0} ⦃p : Heap R H⦄ (n_sources n_brokers : ℕ) where
  -- With the unit in hand counted: each unit that entered is completed or in one place, no number is
  -- used twice, and a unit in the system has its record.
  pub record IsSound (hand : Option ℕ) (h : Handler R G H) : Type 0 where
    pub well_formed : IsWellFormed n_sources n_brokers h
    pub conserved : (h.state).completed + in_hand each hand + places each h ≡ h.request_id_counter
    pub placed_once : (r : ℕ) → in_hand (only r) hand + places (only r) h ≤ 1
    pub not_yet : (r : ℕ) → h.request_id_counter ≤ r → in_hand (only r) hand + places (only r) h ≡ 0
    pub recorded :
        (r : ℕ)
        → 1 ≤ in_hand (only r) hand + places (only r) h
        → contains r (h.state).requests ≡ true

module _ {R G H : Type 0} ⦃n : Num R⦄ ⦃p : Heap R H⦄ (n_sources n_brokers : ℕ) where
  pub IsMove-IsSound :
      (r : ℕ) (h h' : Handler R G H)
      → IsSound n_sources n_brokers (some r) h
      → IsWellFormed n_sources n_brokers h'
      → IsMove r h h'
      → IsSound n_sources n_brokers none h'
  IsMove-IsSound r h h' s wf m = record {
    well_formed = wf;
    conserved = omega (arith, s.conserved, m.moved each, m.counter_same, m.completed_same);
    placed_once = λ k. omega (arith, s.placed_once k, m.moved (only k));
    not_yet =
        λ k far. omega (arith, s.not_yet k (omega (arith, far, m.counter_same)), m.moved (only k));
    recorded = λ k there. m.kept k (s.recorded k (omega (arith, there, m.moved (only k))));
  }

  pub IsCompletion-IsSound :
      (r : ℕ) (h h' : Handler R G H)
      → IsSound n_sources n_brokers (some r) h
      → IsWellFormed n_sources n_brokers h'
      → IsCompletion r h h'
      → IsSound n_sources n_brokers none h'
  IsCompletion-IsSound r h h' s wf m = record {
    well_formed = wf;
    conserved = omega (arith, s.conserved, m.left each, m.counter_same, m.counted);
    placed_once = λ k. omega (arith, s.placed_once k, m.left (only k));
    not_yet =
        λ k far. omega (arith, s.not_yet k (omega (arith, far, m.counter_same)), m.left (only k));
    recorded = λ k there.
        m.kept k (ground (arith, there, s.placed_once k, m.left (only k)))
          (s.recorded k (omega (arith, there, m.left (only k))));
  }

  pub IsEntry-IsSound :
      (h h' : Handler R G H)
      → IsSound n_sources n_brokers none h
      → IsWellFormed n_sources n_brokers h'
      → IsEntry h h'
      → IsSound n_sources n_brokers none h'
  IsEntry-IsSound h h' s wf m =
      let next = h.request_id_counter in
      record {
        well_formed = wf;
        conserved = omega (arith, s.conserved, m.entered each, m.numbered, m.completed_same);
        placed_once =
            λ k. ground (arith, s.placed_once k, m.entered (only k), s.not_yet next (omega arith));
        not_yet = λ k far. ground (
          arith,
          far,
          m.numbered,
          s.not_yet k (omega (arith, far, m.numbered)),
          m.entered (only k),
        );
        recorded =
            λ k there. m.recorded k ∙ ground (arith, there, m.entered (only k), s.recorded k);
      }

  pub IsQuiet-IsSound :
      (h h' : Handler R G H)
      → IsSound n_sources n_brokers none h
      → IsWellFormed n_sources n_brokers h'
      → IsQuiet h h'
      → IsSound n_sources n_brokers none h'
  IsQuiet-IsSound h h' s wf m = record {
    well_formed = wf;
    conserved = omega (
      arith,
      s.conserved,
      m.places_same each,
      m.counter_same,
      ap (λ state. state.completed) m.state_same,
    );
    placed_once = λ k. omega (arith, s.placed_once k, m.places_same (only k));
    not_yet = λ k far.
        omega (arith, s.not_yet k (omega (arith, far, m.counter_same)), m.places_same (only k));
    recorded = λ k there.
        ap (λ state. contains k state.requests) m.state_same
        ∙ s.recorded k (omega (arith, there, m.places_same (only k)));
  }
