-- ===== src/Config/Mock.antt =====
-- `DeviceConfiguration::mock` of crates/wireview-core/src/config.rs.
use wireview_pro_ii.Base.{ℕ, false, List, [], ◌∷◌}
use wireview_pro_ii.Base.Int.{pos}
use wireview_pro_ii.Float.{FloatOps}
use wireview_pro_ii.Config.Types.{
  FanMode, TemperatureSource, FaultKind, ConfigScreen, TimeoutMode, PowerScale, Background,
  FanTheme, DeviceConfiguration,
}
use wireview_pro_ii.Config.Masks.{all_faults, all_screens}

-- "Mock WireView"
abbrev mock_name : List ℕ
mock_name = 77 ∷ 111 ∷ 99 ∷ 107 ∷ 32 ∷ 87 ∷ 105 ∷ 114 ∷ 101 ∷ 86 ∷ 105 ∷ 101 ∷ 119 ∷ []

abbrev first_faults : List FaultKind
first_faults =
    FaultKind.chip_over_temperature ∷ FaultKind.sensor_over_temperature ∷ FaultKind.over_current
    ∷ FaultKind.wire_over_current ∷ FaultKind.over_power ∷ []

abbrev pub mock : {F : Type 0} → FloatOps F → DeviceConfiguration F
mock f = record {
  raw_version = 2;
  crc = 0x1234;
  settings = record {
    friendly_name = mock_name;
    backlight_percent = 100;
    fan = record {
      mode = FanMode.curve;
      temperature_source = TemperatureSource.maximum;
      duty_min_percent = 0;
      duty_max_percent = 100;
      temperature_min_c = f.literal (pos 50) 0;
      temperature_max_c = f.literal (pos 80) 0;
    };
    fault_actions = record {
      display = all_faults;
      buzzer = first_faults;
      soft_power = [];
      hard_power = first_faults;
    };
    fault_thresholds = record {
      temperature_c = f.literal (pos 80) 0;
      total_current_a = 55;
      wire_current_a = f.literal (pos 105) 1;
      total_power_w = 660;
      current_imbalance_percent = 40;
      current_imbalance_min_load_a = 6;
    };
    shutdown_wait_seconds = 10;
    logging_interval_seconds = 60;
    averaging_ms = 1417;
    display = record {
      default_screen = ConfigScreen.main;
      current_scale_a = 10;
      power_scale = PowerScale.watts_600;
      rotation_degrees = 0;
      timeout_mode = TimeoutMode.static;
      cycle_screens = all_screens;
      cycle_time_seconds = 10;
      timeout_seconds = 30;
      colors = record {
        primary_color = 0xffff_ffff;
        secondary_color = 0xff64_6464;
        highlight_color = 0xffe6_4121;
        background_color = 0xff00_0000;
      };
      background = Background.thermal_grizzly_orange;
      fan_theme = FanTheme.thermal_grizzly_orange;
      inverted = false;
    };
  };
}
