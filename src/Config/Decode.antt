-- ===== src/Config/Decode.antt =====
-- `decode_configuration` of crates/wireview-core/src/config.rs. The
-- version selects one of three layouts; the offsets are those of the source.
use wireview_pro_ii.Base.{
  String, ℕ, zero, suc, ◌+◌, Bool, true, false, not, List, [], ◌∷◌, ltb, ◌==◌, if◌then◌else◌,
  length, take, drop,
}
use wireview_pro_ii.Base.Int.{ℤ, pos}
use wireview_pro_ii.Base.Text.{◌<>◌, show, show_hex_upper}
use wireview_pro_ii.Domain.Error.{Result, ok, err, transport, ◌>>=◌, ◌>>◌}
use wireview_pro_ii.Float.{FloatOps}
use wireview_pro_ii.Config.Types.{
  ConfigScreen, FanConfiguration, FaultActions, FaultThresholds, DisplayConfiguration,
  DeviceConfiguration,
}
use wireview_pro_ii.Config.Ordinals.{
  configuration_size, decode_fan_mode, decode_temperature_source, decode_current_scale,
  decode_power_scale, decode_rotation, decode_timeout_mode, decode_screen, decode_averaging,
  decode_background, decode_fan_theme, decode_legacy_theme,
}
use wireview_pro_ii.Config.Masks.{decode_faults, decode_screens}
use wireview_pro_ii.Config.Bytes.{byte_at, read_u16, read_i16, read_u32, decode_name}
use wireview_pro_ii.Config.Validate.{validate}

-- `{byte:02X}` for each byte, joined by spaces.
show_bytes : List ℕ → String
show_bytes [] = ""
show_bytes (b ∷ []) = show_hex_upper 2 b
show_bytes (b ∷ c ∷ bytes) = show_hex_upper 2 b <> " " <> show_bytes (c ∷ bytes)

-- `match raw_version { 0 => 64, 1 => 65, 2 => 68 }`, for a version that has a size.
unfoldable pub ui_offset : ℕ → ℕ
ui_offset zero = 64
ui_offset (suc zero) = 65
ui_offset other = 68

unfoldable pub decode_inverted : ℕ → Result Bool
decode_inverted zero = ok false
decode_inverted (suc zero) = ok true
decode_inverted value = err (transport ("unknown display inversion ordinal " <> show value))

unfoldable pub decode_legacy_display : ℕ → List ℕ → Result DisplayConfiguration
decode_legacy_display ui bytes =
    let (background, fan_theme, theme_colors) = decode_legacy_theme (byte_at bytes (ui + 2)) in
    do
      current_scale ← decode_current_scale (byte_at bytes ui)
      power_scale ← decode_power_scale (byte_at bytes (ui + 1))
      rotation ← decode_rotation (byte_at bytes (ui + 3))
      timeout_mode ← decode_timeout_mode (byte_at bytes (ui + 4))
      cycle_screens ← decode_screens (byte_at bytes (ui + 5))
      ok (record {
        default_screen = ConfigScreen.main;
        current_scale_a = current_scale;
        power_scale = power_scale;
        rotation_degrees = rotation;
        timeout_mode = timeout_mode;
        cycle_screens = cycle_screens;
        cycle_time_seconds = byte_at bytes (ui + 6);
        timeout_seconds = byte_at bytes (ui + 7);
        colors = theme_colors;
        background = background;
        fan_theme = fan_theme;
        inverted = false;
      })

unfoldable pub decode_display : ℕ → List ℕ → Result DisplayConfiguration
unfolding decode_inverted
decode_display ui bytes = do
  default_screen ← decode_screen (byte_at bytes ui)
  current_scale ← decode_current_scale (byte_at bytes (ui + 1))
  power_scale ← decode_power_scale (byte_at bytes (ui + 2))
  rotation ← decode_rotation (byte_at bytes (ui + 3))
  timeout_mode ← decode_timeout_mode (byte_at bytes (ui + 4))
  cycle_screens ← decode_screens (byte_at bytes (ui + 5))
  background ← decode_background (byte_at bytes (ui + 24))
  fan_theme ← decode_fan_theme (byte_at bytes (ui + 25))
  inverted ← decode_inverted (byte_at bytes (ui + 26))
  ok (record {
    default_screen = default_screen;
    current_scale_a = current_scale;
    power_scale = power_scale;
    rotation_degrees = rotation;
    timeout_mode = timeout_mode;
    cycle_screens = cycle_screens;
    cycle_time_seconds = byte_at bytes (ui + 6);
    timeout_seconds = byte_at bytes (ui + 7);
    colors = record {
      primary_color = read_u32 bytes (ui + 8);
      secondary_color = read_u32 bytes (ui + 12);
      highlight_color = read_u32 bytes (ui + 16);
      background_color = read_u32 bytes (ui + 20);
    };
    background = background;
    fan_theme = fan_theme;
    inverted = inverted;
  })

unfoldable pub decode_actions : List ℕ → Result FaultActions
decode_actions bytes = do
  display ← decode_faults (read_u16 bytes 46)
  buzzer ← decode_faults (read_u16 bytes 48)
  soft_power ← decode_faults (read_u16 bytes 50)
  hard_power ← decode_faults (read_u16 bytes 52)
  ok (record {
    display = display;
    buzzer = buzzer;
    soft_power = soft_power;
    hard_power = hard_power;
  })

module _ {F : Type 0} (f : FloatOps F) where
  -- `f64::from(value) / 10.0`
  abbrev pub tenths : ℤ → F
  tenths value = f.div (f.of_int value) (f.literal (pos 10) 0)

  unfoldable pub decode_fan : List ℕ → Result (FanConfiguration F)
  decode_fan bytes = do
    mode ← decode_fan_mode (byte_at bytes 36)
    source ← decode_temperature_source (byte_at bytes 37)
    ok (record {
      mode = mode;
      temperature_source = source;
      duty_min_percent = byte_at bytes 38;
      duty_max_percent = byte_at bytes 39;
      temperature_min_c = tenths (read_i16 bytes 40);
      temperature_max_c = tenths (read_i16 bytes 42);
    })

  unfoldable pub decode_thresholds : List ℕ → FaultThresholds F
  decode_thresholds bytes = record {
    temperature_c = tenths (read_i16 bytes 54);
    total_current_a = byte_at bytes 56;
    wire_current_a = tenths (pos (byte_at bytes 57));
    total_power_w = read_u16 bytes 58;
    current_imbalance_percent = byte_at bytes 60;
    current_imbalance_min_load_a = byte_at bytes 61;
  }

  -- The body of `decode_configuration` behind its checks of the size and the version byte.
  unfoldable pub decode_payload : ℕ → List ℕ → Result (DeviceConfiguration F)
  unfolding ui_offset decode_legacy_display decode_display decode_actions decode_fan
      decode_thresholds
  decode_payload raw_version bytes = do
    display ←
        (if ltb raw_version 2
          then decode_legacy_display (ui_offset raw_version) bytes
          else decode_display (ui_offset raw_version) bytes)
    averaging_ms ← (if raw_version == 0 then ok 1417 else decode_averaging (byte_at bytes 64))
    friendly_name ← decode_name (take 32 (drop 3 bytes))
    fan ← decode_fan bytes
    fault_actions ← decode_actions bytes
    ok (record {
      raw_version = raw_version;
      crc = read_u16 bytes 0;
      settings = record {
        friendly_name = friendly_name;
        backlight_percent = byte_at bytes 44;
        fan = fan;
        fault_actions = fault_actions;
        fault_thresholds = decode_thresholds bytes;
        shutdown_wait_seconds = byte_at bytes 62;
        logging_interval_seconds = byte_at bytes 63;
        averaging_ms = averaging_ms;
        display = display;
      };
    })

  unfoldable pub decode_valid : ℕ → List ℕ → Result (DeviceConfiguration F)
  decode_valid raw_version bytes = do
    config ← decode_payload raw_version bytes
    validate f config
    ok config

  unfoldable pub decode_configuration : ℕ → List ℕ → Result (DeviceConfiguration F)
  unfolding show_bytes
  decode_configuration raw_version bytes = do
    expected ← configuration_size raw_version
    (if not (length bytes == expected)
        then err (
            transport (
              "configuration V"
              <> show (raw_version + 1)
              <> " has "
              <> show (length bytes)
              <> " bytes, expected "
              <> show expected))
        else if not (byte_at bytes 2 == raw_version)
        then err (
            transport (
              "configuration payload version "
              <> show (byte_at bytes 2)
              <> " does not match probed version "
              <> show raw_version
              <> " (first bytes: "
              <> show_bytes (take 8 bytes)
              <> ")"))
        else decode_valid raw_version bytes)
