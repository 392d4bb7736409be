-- ===== src/Config/Equality.antt =====
-- The derived `PartialEq` of the records of crates/wireview-core/src/config.rs: field by field,
-- floats by `==`.
use wireview_pro_ii.Base.{Bool, true, false, ◌&&◌, not, List, [], ◌∷◌, ◌==◌}
use wireview_pro_ii.Float.{FloatOps}
use wireview_pro_ii.Config.Types.{
  FaultKind, FaultActions, FaultThresholds, FanConfiguration, DisplayConfiguration, DeviceSettings,
  DeviceConfiguration,
}
use wireview_pro_ii.Config.Ordinals.{
  fan_mode_code, temperature_source_code, power_scale_code, timeout_mode_code, encode_background,
}
use wireview_pro_ii.Config.Masks.{fault_code}
use wireview_pro_ii.Config.Validate.{same_screen, same_fan_theme, same_colors}

unfoldable pub list_eq : {A : Type 0} → (A → A → Bool) → List A → List A → Bool
list_eq eq [] [] = true
list_eq eq [] (y ∷ ys) = false
list_eq eq (x ∷ xs) [] = false
list_eq eq (x ∷ xs) (y ∷ ys) = eq x y && list_eq eq xs ys

abbrev bool_eq : Bool → Bool → Bool
bool_eq true b = b
bool_eq false b = not b

unfoldable pub faults_eq : List FaultKind → List FaultKind → Bool
faults_eq = list_eq (λ x y. fault_code x == fault_code y)

unfoldable pub actions_eq : FaultActions → FaultActions → Bool
actions_eq a b =
    faults_eq a.display b.display
    && (faults_eq a.buzzer b.buzzer
        && (faults_eq a.soft_power b.soft_power && faults_eq a.hard_power b.hard_power))

unfoldable pub display_eq : DisplayConfiguration → DisplayConfiguration → Bool
display_eq a b =
    same_screen a.default_screen b.default_screen
    && (a.current_scale_a == b.current_scale_a
        && (power_scale_code a.power_scale == power_scale_code b.power_scale
            && (a.rotation_degrees == b.rotation_degrees
                && (timeout_mode_code a.timeout_mode == timeout_mode_code b.timeout_mode
                    && (list_eq same_screen a.cycle_screens b.cycle_screens
                        && (a.cycle_time_seconds == b.cycle_time_seconds
                            && (a.timeout_seconds == b.timeout_seconds
                                && (same_colors a.colors b.colors
                                    && (encode_background a.background
                                          == encode_background b.background
                                        && (same_fan_theme a.fan_theme b.fan_theme
                                            && bool_eq a.inverted b.inverted))))))))))

module _ {F : Type 0} (f : FloatOps F) where
  unfoldable pub fan_eq : FanConfiguration F → FanConfiguration F → Bool
  fan_eq a b =
      fan_mode_code a.mode == fan_mode_code b.mode
      && (temperature_source_code a.temperature_source
            == temperature_source_code b.temperature_source
          && (a.duty_min_percent == b.duty_min_percent
              && (a.duty_max_percent == b.duty_max_percent
                  && (f.eq a.temperature_min_c b.temperature_min_c
                      && f.eq a.temperature_max_c b.temperature_max_c))))

  unfoldable pub thresholds_eq : FaultThresholds F → FaultThresholds F → Bool
  thresholds_eq a b =
      f.eq a.temperature_c b.temperature_c
      && (a.total_current_a == b.total_current_a
          && (f.eq a.wire_current_a b.wire_current_a
              && (a.total_power_w == b.total_power_w
                  && (a.current_imbalance_percent == b.current_imbalance_percent
                      && a.current_imbalance_min_load_a == b.current_imbalance_min_load_a))))

  unfoldable pub settings_eq : DeviceSettings F → DeviceSettings F → Bool
  unfolding fan_eq thresholds_eq actions_eq display_eq
  settings_eq a b =
      list_eq ◌==◌ a.friendly_name b.friendly_name
      && (a.backlight_percent == b.backlight_percent
          && (fan_eq a.fan b.fan
              && (actions_eq a.fault_actions b.fault_actions
                  && (thresholds_eq a.fault_thresholds b.fault_thresholds
                      && (a.shutdown_wait_seconds == b.shutdown_wait_seconds
                          && (a.logging_interval_seconds == b.logging_interval_seconds
                              && (a.averaging_ms == b.averaging_ms
                                  && display_eq a.display b.display)))))))

  unfoldable pub configuration_eq : DeviceConfiguration F → DeviceConfiguration F → Bool
  unfolding settings_eq
  configuration_eq a b =
      a.raw_version == b.raw_version && (a.crc == b.crc && settings_eq a.settings b.settings)
