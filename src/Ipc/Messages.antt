-- ===== src/Ipc/Messages.antt =====
-- The messages of crates/wireview-ipc/src/lib.rs, and the `From` implementations that fill them.
use wireview_pro_ii.Base.{ℕ, ◌*◌, ◌/◌, String, Bool, Option, none, some, List, map, is_some}
use wireview_pro_ii.Base.Int.{pos}
use wireview_pro_ii.Float.{FloatOps}
use wireview_pro_ii.Domain.Telemetry.{DeviceIdentity, Telemetry}

pub record StatusDto : Type 0 where
  pub api_version : ℕ
  pub api_compatibility_id : String
  pub api_capabilities : List String
  pub daemon_version : String
  pub daemon_build_id : String
  pub state : String
  pub sequence : ℕ
  pub session_id : ℕ
  pub connected_port : String
  pub last_disconnect_reason : String
  pub busy_operation : String
  pub recovery_cause : String
  pub candidates : List String
  pub poll_interval_ms : ℕ
  pub display_paused : Bool
  pub display_pause_debug_active : Bool
  pub display_pause_history_active : Bool
  pub display_pause_remaining_ms : ℕ

pub record TelemetryDto (F : Type 0) : Type 0 where
  pub sequence : ℕ
  pub session_id : ℕ
  pub observed_at_ms : ℕ
  pub stale : Bool
  pub vdd_v : F
  pub avg_voltage_v : F
  pub total_current_a : F
  pub total_power_w : F
  pub fan_duty_percent : F
  pub cable_capability_w : ℕ
  pub pin_voltages_v : List F
  pub pin_currents_a : List F
  pub pin_power_w : List F
  pub input_temp_c : F
  pub output_temp_c : F
  pub external_1_present : Bool
  pub external_1_temp_c : F
  pub external_2_present : Bool
  pub external_2_temp_c : F
  pub active_fault_mask : ℕ
  pub logged_fault_mask : ℕ
  pub unknown_active_fault_mask : ℕ
  pub unknown_logged_fault_mask : ℕ
  pub active_faults : List String
  pub logged_faults : List String

-- `mask & !FAULT_MASK`: the bits above the six known ones.
abbrev pub unknown_faults : ℕ → ℕ
unknown_faults mask = mask / 64 * 64

-- `unwrap_or_default` on an `f64`.
abbrev pub or_zero : {F : Type 0} → FloatOps F → Option F → F
or_zero f none = f.literal (pos 0) 0
or_zero f (some x) = x

unfoldable pub telemetry_dto : {F : Type 0} → FloatOps F → Telemetry F → TelemetryDto F
telemetry_dto f value =
    let temperatures = value.metrics.temperatures in
    record {
      sequence = value.sequence;
      session_id = value.session_id;
      observed_at_ms = value.observed_at_ms;
      stale = value.stale;
      vdd_v = value.metrics.vdd_v;
      avg_voltage_v = value.metrics.avg_voltage_v;
      total_current_a = value.metrics.total_current_a;
      total_power_w = value.metrics.total_power_w;
      fan_duty_percent = value.metrics.fan_duty_percent;
      cable_capability_w = value.metrics.cable_capability_w;
      pin_voltages_v = map (λ pin. pin.voltage_v) value.metrics.pins;
      pin_currents_a = map (λ pin. pin.current_a) value.metrics.pins;
      pin_power_w = map (λ pin. pin.power_w) value.metrics.pins;
      input_temp_c = temperatures.input_c;
      output_temp_c = temperatures.output_c;
      external_1_present = is_some temperatures.external_1_c;
      external_1_temp_c = or_zero f temperatures.external_1_c;
      external_2_present = is_some temperatures.external_2_c;
      external_2_temp_c = or_zero f temperatures.external_2_c;
      active_fault_mask = value.active_fault_mask;
      logged_fault_mask = value.logged_fault_mask;
      unknown_active_fault_mask = unknown_faults value.active_fault_mask;
      unknown_logged_fault_mask = unknown_faults value.logged_fault_mask;
      active_faults = value.active_faults;
      logged_faults = value.logged_faults;
    }

pub record HistoryChunkDto : Type 0 where
  pub offset : ℕ
  pub total_bytes : ℕ
  pub bytes : List ℕ

pub record HistoryDumpDto : Type 0 where
  pub dump_id : ℕ
  pub session_id : ℕ
  pub total_bytes : ℕ

pub record ThemeAssetDto : Type 0 where
  pub slot : String
  pub width : ℕ
  pub height : ℕ
  pub byte_length : ℕ
  pub sha256 : String
  pub bytes : List ℕ

pub record ThemeAssetWriteDto : Type 0 where
  pub slot : String
  pub byte_length : ℕ
  pub sha256 : String

pub record ConfigurationDto : Type 0 where
  pub configuration_json : String
  pub revision : String

pub record ConfigurationItemDto : Type 0 where
  pub key : String
  pub value_json : String

-- `DeviceInfoDto` has the fields of `DeviceIdentity`, as `DisplayPauseDto` has those of
-- `DisplayPauseState`; `ScreenDto`, `PollIntervalDto` and `RebootDeviceDto` have one field.
pub record DeviceInfoDto : Type 0 where
  pub unique_id : String
  pub vendor_id : ℕ
  pub product_id : ℕ
  pub firmware_version : String
  pub hardware_revision : String
  pub config_version : ℕ
  pub product_name : String
  pub build_string : String
  pub capabilities : List String

unfoldable pub device_info_dto : DeviceIdentity → DeviceInfoDto
device_info_dto value = record {
  unique_id = value.unique_id;
  vendor_id = value.vendor_id;
  product_id = value.product_id;
  firmware_version = value.firmware_version;
  hardware_revision = value.hardware_revision;
  config_version = value.config_version;
  product_name = value.product_name;
  build_string = value.build_string;
  capabilities = value.capabilities;
}

pub record DisplayPauseDto : Type 0 where
  pub paused : Bool
  pub debug_lease_active : Bool
  pub history_dump_active : Bool
  pub remaining_ms : ℕ
