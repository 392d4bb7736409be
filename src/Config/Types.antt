-- ===== src/Config/Types.antt =====
-- The enums and structs of crates/wireview-core/src/config.rs.
use wireview_pro_ii.Base.{ℕ, Bool, List}

pub data NvmOperation : Type 0 where
  reload store reset : NvmOperation

pub data FanMode : Type 0 where
  curve fixed : FanMode

pub data TemperatureSource : Type 0 where
  input output external_1 external_2 maximum : TemperatureSource

pub data FaultKind : Type 0 where
  chip_over_temperature sensor_over_temperature over_current : FaultKind
  wire_over_current over_power current_imbalance : FaultKind

pub data ConfigScreen : Type 0 where
  main simple current temperature status : ConfigScreen

pub data TimeoutMode : Type 0 where
  static cycle sleep : TimeoutMode

pub data PowerScale : Type 0 where
  auto watts_300 watts_600 : PowerScale

pub data Background : Type 0 where
  thermal_grizzly_orange thermal_grizzly_dark disabled : Background

pub data FanTheme : Type 0 where
  thermal_grizzly_orange thermal_grizzly_dark black_and_white : FanTheme

pub record FanConfiguration (F : Type 0) : Type 0 where
  pub mode : FanMode
  pub temperature_source : TemperatureSource
  pub duty_min_percent : ℕ
  pub duty_max_percent : ℕ
  pub temperature_min_c : F
  pub temperature_max_c : F

pub record FaultActions : Type 0 where
  pub display : List FaultKind
  pub buzzer : List FaultKind
  pub soft_power : List FaultKind
  pub hard_power : List FaultKind

pub record FaultThresholds (F : Type 0) : Type 0 where
  pub temperature_c : F
  pub total_current_a : ℕ
  pub wire_current_a : F
  pub total_power_w : ℕ
  pub current_imbalance_percent : ℕ
  pub current_imbalance_min_load_a : ℕ

-- `[u32; 4]`: the primary, secondary, highlight and background colors.
pub record Colors : Type 0 where
  pub primary_color : ℕ
  pub secondary_color : ℕ
  pub highlight_color : ℕ
  pub background_color : ℕ

pub record DisplayConfiguration : Type 0 where
  pub default_screen : ConfigScreen
  pub current_scale_a : ℕ
  pub power_scale : PowerScale
  pub rotation_degrees : ℕ
  pub timeout_mode : TimeoutMode
  pub cycle_screens : List ConfigScreen
  pub cycle_time_seconds : ℕ
  pub timeout_seconds : ℕ
  pub colors : Colors
  pub background : Background
  pub fan_theme : FanTheme
  pub inverted : Bool

-- The fields of `DeviceSettings`, which `DeviceConfiguration` has too.
pub record DeviceSettings (F : Type 0) : Type 0 where
  pub friendly_name : List ℕ
  pub backlight_percent : ℕ
  pub fan : FanConfiguration F
  pub fault_actions : FaultActions
  pub fault_thresholds : FaultThresholds F
  pub shutdown_wait_seconds : ℕ
  pub logging_interval_seconds : ℕ
  pub averaging_ms : ℕ
  pub display : DisplayConfiguration

-- `DeviceConfiguration`: the protocol metadata and the settings.
pub record DeviceConfiguration (F : Type 0) : Type 0 where
  pub raw_version : ℕ
  pub crc : ℕ
  pub settings : DeviceSettings F
  pub open settings use *

-- `DeviceSettings::from_configuration`
abbrev pub from_configuration : {F : Type 0} → DeviceConfiguration F → DeviceSettings F
from_configuration c = c.settings
