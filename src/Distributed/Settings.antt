-- ===== src/Distributed/Settings.antt =====
-- src/distributed/settings.py: the parameters of a distributed run, and the configuration that is
-- written for its processes. A note is what it is about; a seed that is not given is drawn. Overrides are noted in the order of the parameters.
use traffic_emulator.Common.{
  ℕ, ◌≡◌, refl, Bool, true, false, Option, none, some, List, [], ◌∷◌, ◌++◌, if◌then◌else◌, Result,
  ok, value_error, raise_if, Checked, raise_if-Checked, ◌>>=◌, ◌>>◌,
}
use traffic_emulator.Num.Elementary.{Elementary}
use traffic_emulator.Model.Dynamics.{given}
use traffic_emulator.Model.Modes.{
  Mode, capacity_safe_event_driven, AlgorithmSection, Config, controller_mode,
  controller_mode-Checked, is_algorithm1,
}
use traffic_emulator.Control.Synchronous.{Variant, paper, unknown}

pub data Key : Type 0 where
  eta gamma delta_s eps beta window safe_step_variant : Key

pub data Note : Type 0 where
  uses_defaults : Mode → Note
  overridden : Key → Note

pub record RunParameters (R : Type 0) : Type 0 where
  pub run_eta : R
  pub run_gamma : R
  pub run_delta_s : R
  pub run_eps : R
  pub run_beta : R
  pub run_window : R
  pub run_variant : Variant

-- the overrides that are given, and those that are None
pub record Overrides (R : Type 0) : Type 0 where
  pub section : AlgorithmSection R
  pub new_window : Option R

pub record DistributedSettings (R : Type 0) : Type 0 where
  pub params : RunParameters R
  pub seed : ℕ
  pub notes : List Note

abbrev pub is_unknown : Variant → Bool
is_unknown unknown = true
is_unknown _ = false

abbrev noted {ℓ} : {A : Type ℓ} → Key → Option A → List Note
noted key none = []
noted key (some a) = overridden key ∷ []

abbrev mode_notes : Mode → List Note
mode_notes mode = if is_algorithm1 mode then [] else uses_defaults mode ∷ []

module _ {R : Type 0} ⦃e : Elementary R⦄ where
  abbrev pub no_overrides : Overrides R
  no_overrides = record {
    section = record {
      eta_entry = none;
      gamma_entry = none;
      delta_s_entry = none;
      eps_entry = none;
      beta_entry = none;
      variant_entry = none;
    };
    new_window = none;
  }

  -- ALGORITHM1_DEFAULTS, of which the entries of an Algorithm 1 mode take precedence
  abbrev pub base_parameters : Bool → AlgorithmSection R → Option R → RunParameters R
  base_parameters from_config alg window_entry =
      let pick =
        λ (entry : Option R) (default : R). if from_config then given entry default else default in
      record {
        run_eta = pick alg.eta_entry (e.literal 25 2);
        run_gamma = pick alg.gamma_entry (e.literal 5 1);
        run_delta_s = pick alg.delta_s_entry (e.literal 1 8);
        run_eps = pick alg.eps_entry (e.literal 1 12);
        run_beta = given alg.beta_entry (e.literal 3 1);
        run_window = given window_entry (e.literal 5 0);
        run_variant = given alg.variant_entry paper;
      }

  abbrev pub overridden_parameters : Overrides R → RunParameters R → RunParameters R
  overridden_parameters o p = record {
    run_eta = given (o.section).eta_entry p.run_eta;
    run_gamma = given (o.section).gamma_entry p.run_gamma;
    run_delta_s = given (o.section).delta_s_entry p.run_delta_s;
    run_eps = given (o.section).eps_entry p.run_eps;
    run_beta = given (o.section).beta_entry p.run_beta;
    run_window = given o.new_window p.run_window;
    run_variant = given (o.section).variant_entry p.run_variant;
  }

  abbrev override_notes : Overrides R → List Note
  override_notes o =
      noted eta (o.section).eta_entry
      ++ noted gamma (o.section).gamma_entry
      ++ noted delta_s (o.section).delta_s_entry
      ++ noted eps (o.section).eps_entry
      ++ noted beta (o.section).beta_entry
      ++ noted window o.new_window
      ++ noted safe_step_variant (o.section).variant_entry

module _ {R T : Type 0} ⦃e : Elementary R⦄ where
  unfoldable pub distributed_settings :
      Config R T → Overrides R → ℕ → Result (DistributedSettings R)
  distributed_settings config overrides drawn = do
    raise_if config.varies_capacities value_error
    mode ← controller_mode config
    let base =
        base_parameters (is_algorithm1 mode) config.algorithm (config.simulation).window_entry
    let params = overridden_parameters overrides base
    raise_if (is_unknown params.run_variant) value_error
    ok (record {
      params = params;
      seed = given (config.simulation).seed_entry drawn;
      notes = mode_notes mode ++ override_notes overrides;
    })

  -- what is written next to the telemetry
  unfoldable pub resolved_config : Config R T → DistributedSettings R → Config R T
  resolved_config config s = record {
    simulation = record {
      controller_mode_entry = some capacity_safe_event_driven;
      mode_entry = none;
      window_entry = some (s.params).run_window;
      seed_entry = some s.seed;
    };
    algorithm = record {
      eta_entry = some (s.params).run_eta;
      gamma_entry = some (s.params).run_gamma;
      delta_s_entry = some (s.params).run_delta_s;
      eps_entry = some (s.params).run_eps;
      beta_entry = some (s.params).run_beta;
      variant_entry = some (s.params).run_variant;
    };
    varies_capacities = false;
    topology_section = config.topology_section;
  }

  -- The settings of a run raise ValueError, or the configuration that is written from them, read again
  -- without overrides, gives the same parameters and the same seed, with nothing to note.
  pub distributed_settings-resolved_config :
      (config : Config R T) (overrides : Overrides R) (drawn drawn_again : ℕ)
      → Checked
          (λ s.
            distributed_settings (resolved_config config s) no_overrides drawn_again
            ≡ ok (record s { notes = [] }))
          (distributed_settings config overrides drawn)
  unfolding distributed_settings resolved_config controller_mode
  distributed_settings-resolved_config config overrides drawn drawn_again =
      let P = λ (s : DistributedSettings R).
        distributed_settings (resolved_config config s) no_overrides drawn_again
        ≡ ok (record s { notes = [] }) in
      raise_if-Checked P config.varies_capacities _ λ fixed.
        controller_mode-Checked P config _ λ mode known.
          let params = overridden_parameters overrides (
            base_parameters (is_algorithm1 mode) config.algorithm
              (config.simulation).window_entry) in
          raise_if-Checked P (is_unknown params.run_variant) _ λ valid. rw valid refl
