-- ===== src/Domain/Telemetry.antt =====
-- The records that crates/wireview-core/src/domain.rs defines for measurements and identity. `F`
-- stands for `f64`.
use wireview_pro_ii.Base.{ℕ, String, Bool, List, Option}

pub data Screen : Type 0 where
  main current temp status simple same : Screen

pub record DeviceIdentity : Type 0 where
  pub unique_id : String
  pub vendor_id : ℕ
  pub product_id : ℕ
  pub firmware_version : String
  pub hardware_revision : String
  pub config_version : ℕ
  pub product_name : String
  pub build_string : String
  pub capabilities : List String

pub record PinMetrics (F : Type 0) : Type 0 where
  pub voltage_v : F
  pub current_a : F
  pub power_w : F

pub record Temperatures (F : Type 0) : Type 0 where
  pub input_c : F
  pub output_c : F
  pub external_1_c : Option F
  pub external_2_c : Option F

pub record Metrics (F : Type 0) : Type 0 where
  pub vdd_v : F
  pub avg_voltage_v : F
  pub total_current_a : F
  pub total_power_w : F
  pub fan_duty_percent : F
  pub cable_capability_w : ℕ
  pub pins : List (PinMetrics F)
  pub temperatures : Temperatures F

pub record Telemetry (F : Type 0) : Type 0 where
  pub sequence : ℕ
  pub session_id : ℕ
  pub observed_at_ms : ℕ
  pub stale : Bool
  pub metrics : Metrics F
  pub active_fault_mask : ℕ
  pub logged_fault_mask : ℕ
  pub active_faults : List String
  pub logged_faults : List String
