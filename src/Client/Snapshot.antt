-- ===== src/Client/Snapshot.antt =====
-- `TelemetrySnapshot` of crates/wireview-gui/src/client.rs: the telemetry of the daemon, checked.
use wireview_pro_ii.Base.{
  ℕ, String, Bool, true, false, not, ◌&&◌, ◌||◌, Option, none, some, List, [], ◌∷◌, any, ◌==◌,
  length,
}
use wireview_pro_ii.Base.Text.{◌<>◌, show}
use wireview_pro_ii.Float.{FloatOps}
use wireview_pro_ii.Ipc.Messages.{TelemetryDto, unknown_faults}
use wireview_pro_ii.Client.Errors.{protocol, Reply, good, fail_if, ◌>>◌}

pub record PinSample (F : Type 0) : Type 0 where
  pub current : F
  pub voltage : F
  pub power : F

pub record TelemetrySnapshot (F : Type 0) : Type 0 where
  pub sequence : ℕ
  pub session_id : ℕ
  pub observed_at_ms : ℕ
  pub stale : Bool
  pub controller_vdd : F
  pub average_voltage : F
  pub total_current : F
  pub total_power : F
  pub fan_duty : F
  pub cable_capability : ℕ
  pub pins : List (PinSample F)
  pub input_temperature : F
  pub output_temperature : F
  pub external_1_temperature : Option F
  pub external_2_temperature : Option F
  pub active_fault_mask : ℕ
  pub logged_fault_mask : ℕ
  pub unknown_active_fault_mask : ℕ
  pub unknown_logged_fault_mask : ℕ

module _ {F : Type 0} (f : FloatOps F) where
  -- `std::array::from_fn` over three arrays of the same length.
  abbrev pub pin_samples : List F → List F → List F → List (PinSample F)
  pin_samples (c ∷ cs) (v ∷ vs) (p ∷ ps) =
      record { current = c; voltage = v; power = p } ∷ pin_samples cs vs ps
  pin_samples _ _ _ = []

  abbrev pub is_infinite : F → Bool
  is_infinite x = not (f.is_finite x)

  abbrev pub pin_is_infinite : PinSample F → Bool
  pin_is_infinite pin =
      is_infinite pin.current || (is_infinite pin.voltage || is_infinite pin.power)

  abbrev pub when : Bool → F → Option F
  when true x = some x
  when false x = none

  -- The condition of the second check.
  unfoldable pub has_infinite : TelemetryDto F → List (PinSample F) → Bool
  has_infinite value pins =
      any is_infinite (
        value.vdd_v ∷ value.avg_voltage_v ∷ value.total_current_a ∷ value.total_power_w
        ∷ value.fan_duty_percent ∷ value.input_temp_c ∷ value.output_temp_c ∷ [])
      || ((value.external_1_present && is_infinite value.external_1_temp_c)
          || ((value.external_2_present && is_infinite value.external_2_temp_c)
              || any pin_is_infinite pins))

  unfoldable pub check_six : String → List F → Reply (Unit {0})
  unfolding ◌<>◌
  check_six what values = fail_if (not (length values == 6)) (
      protocol ("wireviewd returned " <> show (length values) <> " pin " <> what <> ", expected 6"))

  -- `TelemetrySnapshot::try_from`
  unfoldable pub try_from : TelemetryDto F → Reply (TelemetrySnapshot F)
  unfolding has_infinite
  try_from value = do
    check_six "voltages" value.pin_voltages_v
    check_six "currents" value.pin_currents_a
    check_six "powers" value.pin_power_w
    let pins = pin_samples value.pin_currents_a value.pin_voltages_v value.pin_power_w
    fail_if (has_infinite value pins) (protocol "wireviewd returned a non-finite telemetry value")
    fail_if
        (not (value.unknown_active_fault_mask == unknown_faults value.active_fault_mask)
          || not (value.unknown_logged_fault_mask == unknown_faults value.logged_fault_mask))
        (protocol "wireviewd returned inconsistent fault-register masks")
    good (record {
      sequence = value.sequence;
      session_id = value.session_id;
      observed_at_ms = value.observed_at_ms;
      stale = value.stale;
      controller_vdd = value.vdd_v;
      average_voltage = value.avg_voltage_v;
      total_current = value.total_current_a;
      total_power = value.total_power_w;
      fan_duty = value.fan_duty_percent;
      cable_capability = value.cable_capability_w;
      pins = pins;
      input_temperature = value.input_temp_c;
      output_temperature = value.output_temp_c;
      external_1_temperature = when value.external_1_present value.external_1_temp_c;
      external_2_temperature = when value.external_2_present value.external_2_temp_c;
      active_fault_mask = value.active_fault_mask;
      logged_fault_mask = value.logged_fault_mask;
      unknown_active_fault_mask = value.unknown_active_fault_mask;
      unknown_logged_fault_mask = value.unknown_logged_fault_mask;
    })
