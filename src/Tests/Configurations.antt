-- ===== src/Tests/Configurations.antt =====
-- The configuration of the windowed scheme, which is put under an Algorithm 1 mode and run by processes.
use traffic_emulator.Common.{ℕ, ok, [], ◌≡◌, some, none, false, Checked}
use traffic_emulator.Num.Integers.{ℤ, pos, integers}
use traffic_emulator.Tests.Systems.{whole_functions}
use traffic_emulator.Model.Modes.{
  Config, capacity_safe_event_driven, synchronous, IsSwitched, with_controller_mode,
  with_controller_mode-IsSwitched,
}
use traffic_emulator.Distributed.Settings.{
  Overrides, no_overrides, distributed_settings, resolved_config, DistributedSettings,
  distributed_settings-resolved_config,
}

abbrev windowed : Config ℤ ℕ
windowed = record {
  simulation = record {
    controller_mode_entry = none;
    mode_entry = some synchronous;
    window_entry = some (pos 7);
    seed_entry = none;
  };
  algorithm = record {
    eta_entry = some (pos 3);
    gamma_entry = none;
    delta_s_entry = none;
    eps_entry = none;
    beta_entry = some (pos 1);
    variant_entry = none;
  };
  varies_capacities = false;
  topology_section = 4;
}

abbrev larger_window : Overrides ℤ
larger_window = record no_overrides { new_window = some (pos 9) }

with_controller_mode-IsSwitched_example :
    Checked
      (IsSwitched windowed capacity_safe_event_driven)
      (with_controller_mode windowed capacity_safe_event_driven)
with_controller_mode-IsSwitched_example =
    with_controller_mode-IsSwitched windowed capacity_safe_event_driven

distributed_settings-resolved_config_example :
    Checked
      (λ (s : DistributedSettings ℤ).
        distributed_settings (resolved_config windowed s) no_overrides 8
        ≡ ok (record s { notes = [] }))
      (distributed_settings windowed larger_window 5)
distributed_settings-resolved_config_example =
    distributed_settings-resolved_config windowed larger_window 5 8
