-- ===== src/Config/Validate.antt =====
-- `DeviceSettings::validate` and `DeviceConfiguration::validate` of
-- crates/wireview-core/src/config.rs.
use wireview_pro_ii.Base.{
  ℕ, suc, String, Bool, true, false, not, ◌&&◌, ◌||◌, List, [], ◌∷◌, ltb, leb, ◌==◌, if◌then◌else◌,
  length, all, any,
}
use wireview_pro_ii.Base.Int.{pos}
use wireview_pro_ii.Base.Text.{◌<>◌}
use wireview_pro_ii.Domain.Error.{Result, ok, ◌>>=◌, ◌>>◌}
use wireview_pro_ii.Float.{FloatOps, gt}
use wireview_pro_ii.Config.Types.{
  FaultKind, FaultActions, ConfigScreen, FanTheme, Colors, DeviceSettings, DeviceConfiguration,
  DisplayConfiguration, from_configuration,
}
use wireview_pro_ii.Config.Ordinals.{
  invalid, current_scales, averagings, legacy_theme_settings, screen_code, encode_fan_theme,
}
use wireview_pro_ii.Config.Masks.{encode_faults, encode_screens, count_ones}
use wireview_pro_ii.Config.Numbers.{validate_tenths_range, encode_tenths_u8}

-- `if bad { return invalid(message); }`
abbrev pub reject_if : Bool → String → Result (Unit {0})
reject_if true message = invalid message
reject_if false message = ok tt

unfoldable pub percent : String → ℕ → Result (Unit {0})
percent name value = reject_if (ltb 100 value) (name <> " must be between 0 and 100")

-- `list.contains(&value)`
abbrev pub contains : List ℕ → ℕ → Bool
contains list value = any (λ x. x == value) list

-- A character is its first byte and continuation bytes, which lie from 0x80 to 0xbf.
unfoldable pub chars_count : List ℕ → ℕ
chars_count [] = 0
chars_count (b ∷ bytes) =
    let rest = chars_count bytes in if leb 0x80 b && leb b 0xbf then rest else suc rest

-- `is_ascii_graphic() || ' '`: every byte of another character is above 0x7e.
abbrev pub is_printable : ℕ → Bool
is_printable b = leb 0x20 b && leb b 0x7e

unfoldable pub validate_name : List ℕ → Result (Unit {0})
unfolding chars_count
validate_name bytes =
    reject_if (ltb 32 (chars_count bytes) || not (all is_printable bytes))
      "friendly_name must contain at most 32 printable ASCII characters"

unfoldable pub validate_faults : String → List FaultKind → Result (Unit {0})
validate_faults name faults =
    reject_if (not (count_ones 16 (encode_faults faults) == length faults))
      (name <> " contains duplicate entries")

unfoldable pub validate_actions : FaultActions → Result (Unit {0})
unfolding validate_faults
validate_actions a = do
  validate_faults "fault_actions.display" a.display
  validate_faults "fault_actions.buzzer" a.buzzer
  validate_faults "fault_actions.soft_power" a.soft_power
  validate_faults "fault_actions.hard_power" a.hard_power

unfoldable pub validate_display : DisplayConfiguration → Result (Unit {0})
validate_display d = do
  reject_if (not (contains current_scales d.current_scale_a))
      "display.current_scale_a must be 5, 10, 15, or 20"
  reject_if (not (contains (0 ∷ 180 ∷ []) d.rotation_degrees))
      "display.rotation_degrees must be 0 or 180"
  reject_if (not (count_ones 8 (encode_screens d.cycle_screens) == length d.cycle_screens))
      "display.cycle_screens contains duplicate entries"

-- Two values of an enum are equal when their ordinals are.
abbrev pub same_screen : ConfigScreen → ConfigScreen → Bool
same_screen a b = screen_code a == screen_code b

abbrev pub same_fan_theme : FanTheme → FanTheme → Bool
same_fan_theme a b = encode_fan_theme a == encode_fan_theme b

abbrev pub same_colors : Colors → Colors → Bool
same_colors a b =
    a.primary_color == b.primary_color
    && (a.secondary_color == b.secondary_color
        && (a.highlight_color == b.highlight_color && a.background_color == b.background_color))

module _ {F : Type 0} (f : FloatOps F) where
  unfoldable pub validate_fan : DeviceSettings F → Result (Unit {0})
  unfolding percent
  validate_fan s = do
    percent "fan.duty_min_percent" s.fan.duty_min_percent
    percent "fan.duty_max_percent" s.fan.duty_max_percent
    reject_if (ltb s.fan.duty_max_percent s.fan.duty_min_percent)
        "fan duty minimum cannot exceed its maximum"
    validate_tenths_range f "fan.temperature_min_c" s.fan.temperature_min_c (f.literal (pos 0) 0)
        (f.literal (pos 50) 0) "0.0 and 50.0"
    validate_tenths_range f "fan.temperature_max_c" s.fan.temperature_max_c (f.literal (pos 50) 0)
        (f.literal (pos 100) 0) "50.0 and 100.0"
    reject_if (gt f s.fan.temperature_min_c s.fan.temperature_max_c)
        "fan temperature minimum cannot exceed its maximum"

  unfoldable pub validate_thresholds : DeviceSettings F → Result (Unit {0})
  unfolding percent
  validate_thresholds s = do
    validate_tenths_range f "fault_thresholds.temperature_c" s.fault_thresholds.temperature_c
        (f.literal (pos 0) 0) (f.literal (pos 120) 0) "0.0 and 120.0"
    reject_if (ltb 150 s.fault_thresholds.total_current_a)
        "fault_thresholds.total_current_a must be between 0 and 150"
    _ ← encode_tenths_u8 f "fault_thresholds.wire_current_a" s.fault_thresholds.wire_current_a
    reject_if (ltb 2000 s.fault_thresholds.total_power_w)
        "fault_thresholds.total_power_w must be between 0 and 2000"
    percent "fault_thresholds.current_imbalance_percent"
        s.fault_thresholds.current_imbalance_percent
    reject_if (ltb 10 s.fault_thresholds.current_imbalance_min_load_a)
        "fault_thresholds.current_imbalance_min_load_a must be between 0 and 10"

  -- `DeviceSettings::validate`
  unfoldable pub validate_settings : DeviceSettings F → Result (Unit {0})
  unfolding validate_name validate_fan validate_thresholds validate_actions validate_display percent
  validate_settings s = do
    validate_name s.friendly_name
    percent "backlight_percent" s.backlight_percent
    validate_fan s
    validate_thresholds s
    validate_actions s.fault_actions
    validate_display s.display
    reject_if (not (contains averagings s.averaging_ms))
        "averaging_ms must be 22, 44, 89, 177, 354, 709, or 1417"

  unfoldable pub validate_version_specific_fields : DeviceConfiguration F → Result (Unit {0})
  validate_version_specific_fields c =
      let (expected_fan_theme, expected_colors) = legacy_theme_settings c.display.background in
      reject_if (c.raw_version == 0 && not (c.averaging_ms == 1417))
        "averaging_ms is fixed at 1417 on V1 devices"
      >> (if leb 2 c.raw_version then ok tt else do
        reject_if (not (same_screen c.display.default_screen ConfigScreen.main))
            "display.default_screen is fixed at main on V1 and V2 devices"
        reject_if c.display.inverted "display.inverted is not supported on V1 and V2 devices"
        reject_if (not (same_fan_theme c.display.fan_theme expected_fan_theme))
            "display.fan_theme must match display.background on V1 and V2 devices"
        reject_if (not (same_colors c.display.colors expected_colors))
            "display colors are fixed by display.background on V1 and V2 devices")

  -- `DeviceConfiguration::validate`
  unfoldable pub validate : DeviceConfiguration F → Result (Unit {0})
  unfolding validate_settings validate_version_specific_fields
  validate c = do
    reject_if (ltb 2 c.raw_version) "raw_version must be 0, 1, or 2"
    validate_settings (from_configuration c)
    validate_version_specific_fields c
