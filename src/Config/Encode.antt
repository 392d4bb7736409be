-- ===== src/Config/Encode.antt =====
-- `encode_configuration` of crates/wireview-core/src/config.rs. The
-- version selects one of three layouts; the offsets are those of the source.
use wireview_pro_ii.Base.{ℕ, ◌+◌, Bool, List, ltb, ◌==◌, if◌then◌else◌, set, replicate}
use wireview_pro_ii.Base.Int.{ℤ, pattern_of}
use wireview_pro_ii.Domain.Error.{Result, ok, ◌>>=◌, ◌>>◌}
use wireview_pro_ii.Float.{FloatOps}
use wireview_pro_ii.Config.Types.{DeviceConfiguration}
use wireview_pro_ii.Config.Ordinals.{
  configuration_size, fan_mode_code, temperature_source_code, encode_current_scale,
  power_scale_code, encode_rotation, timeout_mode_code, screen_code, encode_averaging,
  encode_background, encode_fan_theme, encode_legacy_theme,
}
use wireview_pro_ii.Config.Masks.{encode_faults, encode_screens}
use wireview_pro_ii.Config.Numbers.{encode_tenths_i16, encode_tenths_u8}
use wireview_pro_ii.Config.Bytes.{copy_at, write_u16, write_i16, write_u32}
use wireview_pro_ii.Config.Validate.{validate}
use wireview_pro_ii.Config.Decode.{ui_offset}

-- `u8::from(bool)`
abbrev flag_code : Bool → ℕ
flag_code b = if b then 1 else 0

-- The fallible parts of `encode_configuration`, in the order in which they are written.
pub record Scaled : Type 0 where
  pub temperature_min : ℤ
  pub temperature_max : ℤ
  pub temperature : ℤ
  pub wire_current : ℤ
  pub averaging : ℕ
  pub current_scale : ℕ
  pub rotation : ℕ

module _ {F : Type 0} (f : FloatOps F) where
  unfoldable pub scale : DeviceConfiguration F → Result Scaled
  scale c = do
    temperature_min ← encode_tenths_i16 f "fan.temperature_min_c" c.fan.temperature_min_c
    temperature_max ← encode_tenths_i16 f "fan.temperature_max_c" c.fan.temperature_max_c
    temperature ←
        encode_tenths_i16 f "fault_thresholds.temperature_c" c.fault_thresholds.temperature_c
    wire_current ←
        encode_tenths_u8 f "fault_thresholds.wire_current_a" c.fault_thresholds.wire_current_a
    averaging ← (if c.raw_version == 0 then ok 0 else encode_averaging c.averaging_ms)
    current_scale ← encode_current_scale c.display.current_scale_a
    rotation ← encode_rotation c.display.rotation_degrees
    ok (record {
      temperature_min = temperature_min;
      temperature_max = temperature_max;
      temperature = temperature;
      wire_current = wire_current;
      averaging = averaging;
      current_scale = current_scale;
      rotation = rotation;
    })

  -- The fields that every version shares, from the CRC to the logging interval.
  unfoldable pub write_common : DeviceConfiguration F → Scaled → List ℕ → List ℕ
  write_common c n bytes =
      let b = copy_at (set (write_u16 bytes 0 c.crc) 2 c.raw_version) 3 c.friendly_name in
      let b =
        set (set b 36 (fan_mode_code c.fan.mode)) 37
          (temperature_source_code c.fan.temperature_source) in
      let b = set (set b 38 c.fan.duty_min_percent) 39 c.fan.duty_max_percent in
      let b = write_i16 (write_i16 b 40 n.temperature_min) 42 n.temperature_max in
      let b = set b 44 c.backlight_percent in
      let b = write_u16 b 46 (encode_faults c.fault_actions.display) in
      let b = write_u16 b 48 (encode_faults c.fault_actions.buzzer) in
      let b = write_u16 b 50 (encode_faults c.fault_actions.soft_power) in
      let b = write_u16 b 52 (encode_faults c.fault_actions.hard_power) in
      let b = write_i16 b 54 n.temperature in
      let b =
        set (set b 56 c.fault_thresholds.total_current_a) 57 (pattern_of 256 n.wire_current) in
      let b = write_u16 b 58 c.fault_thresholds.total_power_w in
      let b = set b 60 c.fault_thresholds.current_imbalance_percent in
      let b = set b 61 c.fault_thresholds.current_imbalance_min_load_a in
      set (set b 62 c.shutdown_wait_seconds) 63 c.logging_interval_seconds

  unfoldable pub write_legacy_display : DeviceConfiguration F → Scaled → ℕ → List ℕ → List ℕ
  write_legacy_display c n ui bytes =
      let b =
        set (set bytes ui n.current_scale) (ui + 1) (power_scale_code c.display.power_scale) in
      let b = set (set b (ui + 2) (encode_legacy_theme c.display.background)) (ui + 3) n.rotation in
      let b = set b (ui + 4) (timeout_mode_code c.display.timeout_mode) in
      let b = set b (ui + 5) (encode_screens c.display.cycle_screens) in
      set (set b (ui + 6) c.display.cycle_time_seconds) (ui + 7) c.display.timeout_seconds

  unfoldable pub write_display : DeviceConfiguration F → Scaled → ℕ → List ℕ → List ℕ
  write_display c n ui bytes =
      let b = set (set bytes ui (screen_code c.display.default_screen)) (ui + 1) n.current_scale in
      let b = set (set b (ui + 2) (power_scale_code c.display.power_scale)) (ui + 3) n.rotation in
      let b = set b (ui + 4) (timeout_mode_code c.display.timeout_mode) in
      let b = set b (ui + 5) (encode_screens c.display.cycle_screens) in
      let b =
        set (set b (ui + 6) c.display.cycle_time_seconds) (ui + 7) c.display.timeout_seconds in
      let b =
        write_u32 (write_u32 b (ui + 8) c.display.colors.primary_color) (ui + 12)
          c.display.colors.secondary_color in
      let b =
        write_u32 (write_u32 b (ui + 16) c.display.colors.highlight_color) (ui + 20)
          c.display.colors.background_color in
      let b = set b (ui + 24) (encode_background c.display.background) in
      set (set b (ui + 25) (encode_fan_theme c.display.fan_theme)) (ui + 26)
        (flag_code c.display.inverted)

  unfoldable pub write_payload : DeviceConfiguration F → Scaled → List ℕ → List ℕ
  unfolding ui_offset write_common write_legacy_display write_display
  write_payload c n bytes =
      let b = write_common c n bytes in
      let b = if c.raw_version == 0 then b else set b 64 n.averaging in
      if ltb c.raw_version 2
      then write_legacy_display c n (ui_offset c.raw_version) b
      else write_display c n (ui_offset c.raw_version) b

  unfoldable pub encode_configuration : DeviceConfiguration F → Result (List ℕ)
  unfolding scale write_payload
  encode_configuration c = do
    validate f c
    size ← configuration_size c.raw_version
    n ← scale c
    ok (write_payload c n (replicate size 0))
