-- ===== src/Examples/Codecs.antt =====
-- The codecs at concrete inputs.
use wireview_pro_ii.Base.{
  ℕ, ◌+◌, ◌*◌, ◌≤◌, ◌≡◌, ◌≢◌, ◌⊎◌, refl, List, [], ◌∷◌, ◌++◌, replicate, length, arith,
}
use wireview_pro_ii.Domain.Error.{ok}
use wireview_pro_ii.Theme.{fan_dark_1, fan_orange_1, address, byte_len, width, height}
use wireview_pro_ii.Theme.{slots_disjoint}
use wireview_pro_ii.Config.Types.{FaultKind}
use wireview_pro_ii.Config.Sets.{decode_faults-encode_faults}
use wireview_pro_ii.Config.Names.{decode_name_lem}
use wireview_pro_ii.Config.Checked.{decode_IsChecked}
use wireview_pro_ii.Config.Masks.{
  count_ones, decode_faults, decode_screens, encode_faults, encode_faults_from, encode_screens,
  encode_screens_from, fault_code,
}
use wireview_pro_ii.Config.Numbers.{
  encode_scaled, encode_tenths_i16, encode_tenths_u8, validate_tenths_range,
}
use wireview_pro_ii.Config.Ordinals.{
  configuration_size, decode_averaging, decode_background, decode_current_scale, decode_fan_mode,
  decode_fan_theme, decode_legacy_theme, decode_power_scale, decode_rotation, decode_screen,
  decode_temperature_source, decode_timeout_mode, encode_averaging, encode_background,
  encode_current_scale, encode_fan_theme, encode_legacy_theme, encode_rotation, fan_mode_code,
  legacy_theme_settings, power_scale_code, screen_code, temperature_source_code, timeout_mode_code,
}
use wireview_pro_ii.Config.Bytes.{
  byte_at, decode_name, is_utf8_from, le_u16, le_u32, read_i16, read_u16, read_u32, write_i16,
  write_u16, write_u32,
}
use wireview_pro_ii.Config.Validate.{
  chars_count, percent, validate, validate_actions, validate_display, validate_fan, validate_faults,
  validate_name, validate_settings, validate_thresholds, validate_version_specific_fields,
}
use wireview_pro_ii.Config.Decode.{
  decode_actions, decode_configuration, decode_display, decode_fan, decode_inverted,
  decode_legacy_display, decode_payload, decode_thresholds, decode_valid, ui_offset,
}
use wireview_pro_ii.Config.Encode.{
  encode_configuration, scale, write_common, write_display, write_legacy_display, write_payload,
}
use wireview_pro_ii.Examples.Fixtures.{hundredths, mock_configuration}

-- The bytes of the mock configuration.
abbrev pub mock_bytes : List ℕ
mock_bytes =
    52 ∷ 18 ∷ 2 ∷ 77 ∷ 111 ∷ 99 ∷ 107 ∷ 32 ∷ 87 ∷ 105 ∷ 114 ∷ 101 ∷ 86 ∷ 105 ∷ 101 ∷ 119 ∷ 0 ∷ 0 ∷ 0
    ∷ 0 ∷ 0 ∷ 0 ∷ 0 ∷ 0 ∷ 0 ∷ 0 ∷ 0 ∷ 0 ∷ 0 ∷ 0 ∷ 0 ∷ 0 ∷ 0 ∷ 0 ∷ 0 ∷ 0 ∷ 0 ∷ 4 ∷ 0 ∷ 100 ∷ 244 ∷ 1
    ∷ 32 ∷ 3 ∷ 100 ∷ 0 ∷ 63 ∷ 0 ∷ 31 ∷ 0 ∷ 0 ∷ 0 ∷ 31 ∷ 0 ∷ 32 ∷ 3 ∷ 55 ∷ 105 ∷ 148 ∷ 2 ∷ 40 ∷ 6
    ∷ 10 ∷ 60 ∷ 6 ∷ 0 ∷ 0 ∷ 0 ∷ 0 ∷ 1 ∷ 2 ∷ 0 ∷ 0 ∷ 31 ∷ 10 ∷ 30 ∷ 255 ∷ 255 ∷ 255 ∷ 255 ∷ 100 ∷ 100
    ∷ 100 ∷ 255 ∷ 33 ∷ 65 ∷ 230 ∷ 255 ∷ 0 ∷ 0 ∷ 0 ∷ 255 ∷ 1 ∷ 100 ∷ 0 ∷ 0 ∷ []

pub mock_encoded : encode_configuration hundredths mock_configuration ≡ ok mock_bytes
unfolding fault_code decode_faults decode_screens encode_faults_from encode_faults
    encode_screens_from encode_screens count_ones encode_scaled encode_tenths_i16 encode_tenths_u8
    validate_tenths_range configuration_size fan_mode_code decode_fan_mode temperature_source_code
    decode_temperature_source decode_current_scale encode_current_scale power_scale_code
    decode_power_scale decode_rotation encode_rotation timeout_mode_code decode_timeout_mode
    screen_code decode_screen decode_averaging encode_averaging encode_background decode_background
    encode_fan_theme decode_fan_theme legacy_theme_settings decode_legacy_theme encode_legacy_theme
    read_u16 read_i16 read_u32 le_u16 le_u32 write_u16 write_i16 write_u32 is_utf8_from decode_name
    percent chars_count validate_name validate_faults validate_actions validate_display validate_fan
    validate_thresholds validate_settings validate_version_specific_fields validate scale
    write_common write_legacy_display write_display write_payload encode_configuration ui_offset
mock_encoded = refl

pub mock_decoded : decode_configuration hundredths 2 mock_bytes ≡ ok mock_configuration
unfolding fault_code decode_faults decode_screens encode_faults_from encode_faults
    encode_screens_from encode_screens count_ones encode_scaled encode_tenths_i16 encode_tenths_u8
    validate_tenths_range configuration_size fan_mode_code decode_fan_mode temperature_source_code
    decode_temperature_source decode_current_scale encode_current_scale power_scale_code
    decode_power_scale decode_rotation encode_rotation timeout_mode_code decode_timeout_mode
    screen_code decode_screen decode_averaging encode_averaging encode_background decode_background
    encode_fan_theme decode_fan_theme legacy_theme_settings decode_legacy_theme encode_legacy_theme
    read_u16 read_i16 read_u32 le_u16 le_u32 write_u16 write_i16 write_u32 is_utf8_from decode_name
    percent chars_count validate_name validate_faults validate_actions validate_display validate_fan
    validate_thresholds validate_settings validate_version_specific_fields validate ui_offset
    decode_inverted decode_legacy_display decode_display decode_actions decode_fan decode_thresholds
    decode_payload decode_valid decode_configuration
mock_decoded = refl

decode_IsChecked_example :
    (validate hundredths mock_configuration ≡ ok tt)
    × (mock_configuration.raw_version ≡ 2)
    × (byte_at mock_bytes 2 ≡ 2)
    × (configuration_size 2 ≡ ok (length mock_bytes))
    × (mock_configuration.crc ≡ read_u16 mock_bytes 0)
decode_IsChecked_example = decode_IsChecked hundredths 2 mock_bytes mock_configuration mock_decoded

decode_faults-encode_faults_example :
    decode_faults
      (encode_faults (FaultKind.over_power ∷ FaultKind.over_current ∷ FaultKind.over_power ∷ []))
    ≡ ok (FaultKind.over_current ∷ FaultKind.over_power ∷ [])
unfolding fault_code
decode_faults-encode_faults_example =
    decode_faults-encode_faults
      (FaultKind.over_power ∷ FaultKind.over_current ∷ FaultKind.over_power ∷ [])

abbrev short_name : List ℕ
short_name = 80 ∷ 83 ∷ 85 ∷ []

decode_name_lem_example : (3 ≤ 32) × (decode_name (short_name ++ replicate 29 0) ≡ ok short_name)
unfolding validate_name
decode_name_lem_example = decode_name_lem short_name 29 refl

fan_slots_differ : fan_orange_1 ≢ fan_dark_1
fan_slots_differ = ground arith

slots_disjoint_example :
    ((address fan_orange_1 + byte_len fan_orange_1 ≤ address fan_dark_1)
      ⊎ (address fan_dark_1 + byte_len fan_dark_1 ≤ address fan_orange_1))
    × (address fan_orange_1 + byte_len fan_orange_1 ≤ 0x0080_0000)
    × (byte_len fan_orange_1 ≡ width fan_orange_1 * height fan_orange_1 * 2)
slots_disjoint_example = slots_disjoint fan_orange_1 fan_dark_1 fan_slots_differ
