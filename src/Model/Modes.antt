-- ===== src/Model/Modes.antt =====
-- src/model/config.py: the controller modes of a configuration. A section that is absent is one without
-- entries; a name that is none of the known ones is `other`.
use traffic_emulator.Common.{
  ◌≡◌, ◌≢◌, sym, ap, ◌∙◌, >>=-Checked, refl, Bool, true, false, ◌&&◌, ℕ, Option, none, some,
  if◌then◌else◌, Result, ok, err, value_error, Checked, ◌>>=◌,
}
use traffic_emulator.Num.Elementary.{Elementary}
use traffic_emulator.Control.Synchronous.{Variant}

-- CONTROLLER_MODES
pub data Mode : Type 0 where
  static_algorithm1 windowed_stochastic capacity_safe_event_driven other : Mode

-- the old names of `simulation.mode`
pub data LegacyMode : Type 0 where
  static synchronous asynchronous other_legacy : LegacyMode

pub record SimulationSection (R : Type 0) : Type 0 where
  pub controller_mode_entry : Option Mode
  pub mode_entry : Option LegacyMode
  pub window_entry : Option R
  pub seed_entry : Option ℕ

pub record AlgorithmSection (R : Type 0) : Type 0 where
  pub eta_entry : Option R
  pub gamma_entry : Option R
  pub delta_s_entry : Option R
  pub eps_entry : Option R
  pub beta_entry : Option R
  pub variant_entry : Option Variant

-- `T` is what the topology section holds
pub record Config (R T : Type 0) : Type 0 where
  pub simulation : SimulationSection R
  pub algorithm : AlgorithmSection R
  pub varies_capacities : Bool
  pub topology_section : T

abbrev pub known_mode : Mode → Result Mode
known_mode other = err value_error
known_mode mode = ok mode

-- `_LEGACY_MODES.get(mode, "windowed_stochastic")`
abbrev pub legacy_mode : Option LegacyMode → Mode
legacy_mode (some static) = static_algorithm1
legacy_mode _ = windowed_stochastic

abbrev pub same_mode : Mode → Mode → Bool
same_mode static_algorithm1 static_algorithm1 = true
same_mode windowed_stochastic windowed_stochastic = true
same_mode capacity_safe_event_driven capacity_safe_event_driven = true
same_mode other other = true
same_mode _ _ = false

-- `mode in ALGORITHM1_MODES`
abbrev pub is_algorithm1 : Mode → Bool
is_algorithm1 static_algorithm1 = true
is_algorithm1 capacity_safe_event_driven = true
is_algorithm1 _ = false

-- `previous.get(k, v)` if the parameters are kept, and else v
abbrev pub kept_or {ℓ} : {R : Type ℓ} → Bool → Option R → R → Option R
kept_or false previous default = some default
kept_or true none default = some default
kept_or true (some x) default = some x

module _ {R : Type 0} ⦃e : Elementary R⦄ where
  abbrev pub algorithm1_section : Bool → AlgorithmSection R → AlgorithmSection R
  algorithm1_section keep previous = record {
    eta_entry = kept_or keep previous.eta_entry (e.literal 25 2);
    gamma_entry = kept_or keep previous.gamma_entry (e.literal 5 1);
    delta_s_entry = kept_or keep previous.delta_s_entry (e.literal 1 8);
    eps_entry = kept_or keep previous.eps_entry (e.literal 1 12);
    beta_entry = none;
    variant_entry = none;
  }

  -- the entries of MODE_DEFAULTS[mode]
  abbrev pub section_of : Mode → Bool → AlgorithmSection R → AlgorithmSection R
  section_of static_algorithm1 keep previous = algorithm1_section keep previous
  section_of capacity_safe_event_driven keep previous = record (algorithm1_section keep previous) {
    beta_entry = kept_or keep previous.beta_entry (e.literal 3 1);
  }
  section_of windowed_stochastic keep previous = record {
    eta_entry = kept_or keep previous.eta_entry (e.literal 35 2);
    gamma_entry = kept_or keep previous.gamma_entry (e.literal 5 1);
    delta_s_entry = none;
    eps_entry = none;
    beta_entry = kept_or keep previous.beta_entry (e.literal 3 1);
    variant_entry = none;
  }
  section_of other keep previous = previous

  -- what is there stays
  abbrev pub KeepsParameters : AlgorithmSection R → AlgorithmSection R → Type 0
  KeepsParameters a b =
      ((x : R) → a.eta_entry ≡ some x → b.eta_entry ≡ some x)
      × ((x : R) → a.gamma_entry ≡ some x → b.gamma_entry ≡ some x)
      × ((x : R) → a.delta_s_entry ≡ some x → b.delta_s_entry ≡ some x)
      × ((x : R) → a.eps_entry ≡ some x → b.eps_entry ≡ some x)

  -- 0.35 of the windowed scheme, and 0.25 of Algorithm 1
  abbrev pub default_eta : Mode → R
  default_eta windowed_stochastic = e.literal 35 2
  default_eta _ = e.literal 25 2

  kept_some : (o : Option R) (default x : R) → o ≡ some x → kept_or true o default ≡ some x
  kept_some o default x h = rw h refl

-- controller_mode gives a known mode or raises ValueError
known_mode-Checked :
    {A : Type 0} (P : A → Type 0) (mode : Mode) (later : Mode → Result A)
    → (known_mode mode ≡ ok mode → Checked P (later mode))
    → Checked P (known_mode mode >>= later)
known_mode-Checked P other later go = tt
known_mode-Checked P static_algorithm1 later go = go refl
known_mode-Checked P windowed_stochastic later go = go refl
known_mode-Checked P capacity_safe_event_driven later go = go refl

mode_injective : {a b : Mode} → ok a ≡ ok b → a ≡ b
mode_injective h = cc

same_mode_refl : (mode : Mode) → same_mode mode mode ≡ true
same_mode_refl static_algorithm1 = refl
same_mode_refl windowed_stochastic = refl
same_mode_refl capacity_safe_event_driven = refl
same_mode_refl other = refl

module _ {R T : Type 0} where
  unfoldable pub controller_mode : Config R T → Result Mode
  controller_mode config = elim (config.simulation).controller_mode_entry [
    | some mode ↦ known_mode mode
    | none ↦ known_mode (legacy_mode (config.simulation).mode_entry)
  ]

  pub controller_mode-Checked :
      {A : Type 0} (P : A → Type 0) (config : Config R T) (later : Mode → Result A)
      → ((m : Mode) → known_mode m ≡ ok m → Checked P (later m))
      → Checked P (controller_mode config >>= later)
  unfolding controller_mode
  controller_mode-Checked P config later each =
      by_entry (config.simulation).controller_mode_entry (config.simulation).mode_entry
    where
      by_entry :
          (entry : Option Mode) (legacy : Option LegacyMode)
          → Checked P (
              (elim entry [ some mode ↦ known_mode mode | none ↦ known_mode (legacy_mode legacy) ])
              >>= later)
      by_entry (some mode) legacy = known_mode-Checked P mode later (each mode)
      by_entry none legacy =
          known_mode-Checked P (legacy_mode legacy) later (each (legacy_mode legacy))

  controller_mode-total : (config : Config R T) → Checked (λ m. Unit {0}) (controller_mode config)
  unfolding controller_mode
  controller_mode-total config =
      by_entry (config.simulation).controller_mode_entry (config.simulation).mode_entry
    where
      known_total : (m : Mode) → Checked (λ m. Unit {0}) (known_mode m)
      known_total static_algorithm1 = tt
      known_total windowed_stochastic = tt
      known_total capacity_safe_event_driven = tt
      known_total other = tt

      by_entry :
          (entry : Option Mode) (legacy : Option LegacyMode)
          → Checked
              (λ m. Unit {0})
              (elim entry [ some mode ↦ known_mode mode | none ↦ known_mode (legacy_mode legacy) ])
      by_entry (some mode) legacy = known_total mode
      by_entry none legacy = known_total (legacy_mode legacy)

  module _ ⦃e : Elementary R⦄ where
    abbrev pub switched : Mode → Mode → Config R T → Config R T
    switched current mode config =
        let keep = is_algorithm1 current && is_algorithm1 mode in
        record config {
          simulation = record (config.simulation) {
            controller_mode_entry = some mode;
            mode_entry = none;
          };
          algorithm =
              if same_mode mode current
              then config.algorithm
              else section_of mode keep config.algorithm;
        }

    unfoldable pub with_controller_mode : Config R T → Mode → Result (Config R T)
    unfolding controller_mode
    with_controller_mode config mode = do
      known ← known_mode mode
      current ← controller_mode config
      ok (switched current known config)

    switched-kept :
        (current mode : Mode) (config : Config R T)
        → is_algorithm1 current ≡ true
        → is_algorithm1 mode ≡ true
        → KeepsParameters config.algorithm (switched current mode config).algorithm
    switched-kept static_algorithm1 static_algorithm1 config a b =
        (λ x h. h, λ x h. h, λ x h. h, λ x h. h)
    switched-kept capacity_safe_event_driven capacity_safe_event_driven config a b =
        (λ x h. h, λ x h. h, λ x h. h, λ x h. h)
    switched-kept static_algorithm1 capacity_safe_event_driven config a b =
        (λ x. kept_some _ _ x, λ x. kept_some _ _ x, λ x. kept_some _ _ x, λ x. kept_some _ _ x)
    switched-kept capacity_safe_event_driven static_algorithm1 config a b =
        (λ x. kept_some _ _ x, λ x. kept_some _ _ x, λ x. kept_some _ _ x, λ x. kept_some _ _ x)
    switched-kept windowed_stochastic mode config a b = cc
    switched-kept other mode config a b = cc
    switched-kept static_algorithm1 windowed_stochastic config a b = cc
    switched-kept static_algorithm1 other config a b = cc
    switched-kept capacity_safe_event_driven windowed_stochastic config a b = cc
    switched-kept capacity_safe_event_driven other config a b = cc

    switched-reset :
        (current mode : Mode) (config : Config R T)
        → known_mode mode ≡ ok mode
        → is_algorithm1 current ≢ is_algorithm1 mode
        → let after = (switched current mode config).algorithm in
          (after.eta_entry ≡ some (default_eta mode)) × (after.gamma_entry ≡ some (e.literal 5 1))
    switched-reset current other config known ne = cc
    switched-reset static_algorithm1 windowed_stochastic config known ne = (refl, refl)
    switched-reset capacity_safe_event_driven windowed_stochastic config known ne = (refl, refl)
    switched-reset windowed_stochastic windowed_stochastic config known ne = absurd (ne refl)
    switched-reset other windowed_stochastic config known ne = absurd (ne refl)
    switched-reset windowed_stochastic static_algorithm1 config known ne = (refl, refl)
    switched-reset other static_algorithm1 config known ne = (refl, refl)
    switched-reset static_algorithm1 static_algorithm1 config known ne = absurd (ne refl)
    switched-reset capacity_safe_event_driven static_algorithm1 config known ne = absurd (ne refl)
    switched-reset windowed_stochastic capacity_safe_event_driven config known ne = (refl, refl)
    switched-reset other capacity_safe_event_driven config known ne = (refl, refl)
    switched-reset static_algorithm1 capacity_safe_event_driven config known ne = absurd (ne refl)
    switched-reset capacity_safe_event_driven capacity_safe_event_driven config known ne =
        absurd (ne refl)

    -- What a switch leaves: a configuration under that mode, which the same switch leaves as it is, with
    -- the parameters of the configuration before if its mode is that mode or both are of Algorithm 1.
    pub record IsSwitched (before : Config R T) (mode : Mode) (config : Config R T) : Type 0 where
      pub under_mode : controller_mode config ≡ ok mode
      pub stable : with_controller_mode config mode ≡ ok config
      pub same : controller_mode before ≡ ok mode → config.algorithm ≡ before.algorithm
      pub kept :
          (current : Mode)
          → controller_mode before ≡ ok current
          → is_algorithm1 current ≡ true
          → is_algorithm1 mode ≡ true
          → KeepsParameters before.algorithm config.algorithm
      pub reset :
          (current : Mode)
          → controller_mode before ≡ ok current
          → is_algorithm1 current ≢ is_algorithm1 mode
          → ((config.algorithm).eta_entry ≡ some (default_eta mode))
            × ((config.algorithm).gamma_entry ≡ some (e.literal 5 1))

    -- Putting a configuration under a mode raises ValueError (for an unknown mode, or where the
    -- configuration's own is unknown), or gives one whose mode is that mode; doing it again changes
    -- nothing. Between the two modes of Algorithm 1 the parameters that are set are kept, under the mode
    -- that the configuration has all of them are, and with a change to or from the windowed scheme the
    -- step sizes are the defaults of the new mode.
    pub with_controller_mode-IsSwitched :
        (config : Config R T) (mode : Mode)
        → Checked (IsSwitched config mode) (with_controller_mode config mode)
    unfolding with_controller_mode controller_mode
    with_controller_mode-IsSwitched config mode =
        known_mode-Checked (IsSwitched config mode) mode _ λ known.
          >>=-Checked (λ m. Unit {0}) (IsSwitched config mode) (controller_mode config) _
            (controller_mode-total config)
            λ current is_current _. record {
              under_mode = known;
              stable = rw (known, same_mode_refl mode) refl;
              same = λ h.
                  let at_mode : current ≡ mode = mode_injective (sym is_current ∙ h) in
                  ap
                    (λ (b : Bool).
                      if b
                      then config.algorithm
                      else section_of mode (is_algorithm1 current && is_algorithm1 mode)
                          config.algorithm)
                    (ap (same_mode mode) at_mode ∙ same_mode_refl mode);
              kept = λ current' h a b.
                  let at_mode : current ≡ current' = mode_injective (sym is_current ∙ h) in
                  switched-kept current mode config (ap is_algorithm1 at_mode ∙ a) b;
              reset = λ current' h ne.
                  let at_mode : current ≡ current' = mode_injective (sym is_current ∙ h) in
                  switched-reset current mode config known
                    (λ same. ne (ap is_algorithm1 (sym at_mode) ∙ same));
            }
