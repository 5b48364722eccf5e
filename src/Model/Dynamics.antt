-- ===== src/Model/Dynamics.antt =====
-- src/model/dynamics.py: capacities that vary over time. What the generator draws, the phases and the
-- noise of a call, comes with the calls; a value of the configuration is a number already.
pub mod Floors
use traffic_emulator.Common.{
  ℕ, zero, suc, Bool, true, false, ◌||◌, Option, none, some, List, [], ◌∷◌, map, length, replicate,
  get_elem?, zip_with, if◌then◌else◌, Result, ok, err, value_error, raise_if, or_raise, ◌>>=◌, ◌>>◌,
}
use traffic_emulator.Num.{Num, ◌⊕◌, ◌⊗◌, ◌⊘◌, max}
use traffic_emulator.Num.Elementary.{Elementary, two}
use traffic_emulator.Model.Topology.{Topology, with_capacities}

-- `{"amp": ..., "period": ..., "noise": ...}`
pub record Swing (R : Type 0) : Type 0 where
  pub amp : R
  pub period : R
  pub noise : R

-- the keys that the configuration gives
pub record SwingSpec (R : Type 0) : Type 0 where
  pub given_amp : Option R
  pub given_period : Option R
  pub given_noise : Option R

-- `dynamics.capacity_variation`: absent or empty, a combo, or its own parameters
pub data VariationSpec (R : Type 0) : Type 0 where
  absent : VariationSpec R
  combo : ℕ → VariationSpec R
  swings : SwingSpec R → SwingSpec R → VariationSpec R

pub record CapacityVariation (R : Type 0) : Type 0 where
  pub base_topology : Topology R
  pub link : Swing R
  pub broker : Swing R
  pub link_phase : List (List R)
  pub broker_phase : List R

abbrev pub given {ℓ} : {A : Type ℓ} → Option A → A → A
given none default = default
given (some a) default = a

-- elementwise on three arrays
abbrev pub zip_with3 : {A B : Type 0} → (A → A → A → B) → List A → List A → List A → List B
zip_with3 f [] ys zs = []
zip_with3 f (x ∷ xs) [] zs = []
zip_with3 f (x ∷ xs) (y ∷ ys) [] = []
zip_with3 f (x ∷ xs) (y ∷ ys) (z ∷ zs) = f x y z ∷ zip_with3 f xs ys zs

module _ {R : Type 0} ⦃n : Num R⦄ ⦃e : Elementary R⦄ where
  abbrev pub link_floor : R
  link_floor = e.literal 2 1

  abbrev pub broker_floor : R
  broker_floor = e.literal 3 1

  abbrev pub default_link : Swing R
  default_link = record { amp = e.literal 15 2; period = e.literal 60 0; noise = e.literal 2 2 }

  abbrev pub default_broker : Swing R
  default_broker = record { amp = e.literal 25 2; period = e.literal 120 0; noise = e.literal 3 2 }

  -- in hundredths, and the periods in seconds: link amp, period, noise, broker amp, period, noise
  abbrev notebook_row : ℕ → ℕ → ℕ → ℕ → ℕ → ℕ → Swing R × Swing R
  notebook_row la lp ln ba bp bn = (
    record { amp = e.literal la 2; period = e.literal lp 0; noise = e.literal ln 2 },
    record { amp = e.literal ba 2; period = e.literal bp 0; noise = e.literal bn 2 },
  )

  abbrev pub notebook_combos : List (Swing R × Swing R)
  notebook_combos =
      notebook_row 10 120 2 10 180 3
      ∷ notebook_row 20 80 3 25 120 4
      ∷ notebook_row 30 60 5 30 100 5
      ∷ notebook_row 30 40 7 30 80 7
      ∷ notebook_row 40 30 10 40 60 10
      ∷ notebook_row 15 90 12 20 100 8
      ∷ notebook_row 60 30 18 60 40 18
      ∷ notebook_row 80 30 22 80 40 22
      ∷ notebook_row 70 20 25 80 30 25
      ∷ notebook_row 65 25 20 70 35 20
      ∷ notebook_row 90 15 30 90 20 30
      ∷ []

  -- `{**default, **spec}`
  abbrev pub with_defaults : Swing R → SwingSpec R → Swing R
  with_defaults default spec = record {
    amp = given spec.given_amp default.amp;
    period = given spec.given_period default.period;
    noise = given spec.given_noise default.noise;
  }

  -- combo k is row k of the table, from 1
  abbrev pub combo_swings : ℕ → Result (Swing R × Swing R)
  combo_swings zero = err value_error
  combo_swings (suc k) = or_raise (get_elem? notebook_combos k) value_error

  abbrev pub check_swing : Swing R → Result (Unit {0})
  check_swing s =
      raise_if (n.le s.period n.nought || (n.lt s.amp n.nought || n.lt s.noise n.nought))
        value_error

  abbrev pub checked_swings : Swing R × Swing R → Result (Swing R × Swing R)
  checked_swings (link, broker) = do check_swing link; check_swing broker; ok (link, broker)

  abbrev pub resolve_swings : VariationSpec R → Result (Option (Swing R × Swing R))
  resolve_swings absent = ok none
  resolve_swings (combo k) =
      combo_swings k >>= λ both. checked_swings both >>= λ fine. ok (some fine)
  resolve_swings (swings link broker) =
      checked_swings (with_defaults default_link link, with_defaults default_broker broker)
      >>= λ fine. ok (some fine)

  -- zeros without phase offsets
  abbrev pub phases_of : Bool → Topology R → List (List R) → List R → List (List R) × List R
  phases_of true topo link_draws broker_draws = (link_draws, broker_draws)
  phases_of false topo link_draws broker_draws = (
    replicate (length topo.mu_links) (replicate (length topo.mu_brokers) n.nought),
    replicate (length topo.mu_brokers) n.nought,
  )

  -- `CapacityVariation.from_config`
  unfoldable pub from_config :
      VariationSpec R
      → Bool
      → Topology R
      → List (List R)
      → List R
      → Result (Option (CapacityVariation R))
  from_config spec offsets topo link_draws broker_draws = do
    resolved ← resolve_swings spec
    ok (elim resolved [
      | none ↦ none
      | some (link, broker) ↦ some (record {
        base_topology = topo;
        link = link;
        broker = broker;
        link_phase = (phases_of offsets topo link_draws broker_draws).0;
        broker_phase = (phases_of offsets topo link_draws broker_draws).1;
      })
    ])

  -- the angle `2 * np.pi * t / period + phase`
  abbrev pub angle : R → Swing R → R → R
  angle t swing phase = two ⊗ e.pi ⊗ t ⊘ swing.period ⊕ phase

  -- one element, with the noise that was drawn for it
  abbrev pub vary_link : R → Swing R → R → R → R → R
  vary_link t swing base phase draw =
      base ⊗ max link_floor (n.unit ⊕ swing.amp ⊗ e.sin (angle t swing phase) ⊕ draw)

  abbrev pub vary_broker : R → Swing R → R → R → R → R
  vary_broker t swing base phase draw =
      base ⊗ max broker_floor (n.unit ⊕ swing.amp ⊗ e.cos (angle t swing phase) ⊕ draw)

  unfoldable pub vary_link_capacity :
      R → Swing R → List (List R) → List (List R) → List (List R) → List (List R)
  vary_link_capacity t swing base phase draws =
      zip_with3 (zip_with3 (vary_link t swing)) base phase draws

  unfoldable pub vary_broker_capacity : R → Swing R → List R → List R → List R → List R
  vary_broker_capacity t swing = zip_with3 (vary_broker t swing)

  -- the topology at time t, with the noise that this call draws
  unfoldable pub topology_at :
      CapacityVariation R → R → List (List R) → List R → Result (Topology R)
  unfolding vary_link_capacity vary_broker_capacity
  topology_at variation t link_draws broker_draws =
      let base = variation.base_topology in
      with_capacities base
        (vary_link_capacity t variation.link base.mu_links variation.link_phase link_draws)
        (vary_broker_capacity t variation.broker base.mu_brokers variation.broker_phase
          broker_draws)
