-- ===== src/Config/Codes.antt =====
-- The ordinals of crates/wireview-core/src/config.rs come back from their bytes.
use wireview_pro_ii.Base.{ℕ, ◌≡◌, Bool, true, false, arith, ◌==◌}
use wireview_pro_ii.Domain.Error.{Result, ok, err}
use wireview_pro_ii.Config.Types.{
  FanMode, TemperatureSource, ConfigScreen, TimeoutMode, PowerScale, Background, FanTheme,
}
use wireview_pro_ii.Config.Ordinals.{
  fan_mode_code, decode_fan_mode, temperature_source_code, decode_temperature_source,
  decode_current_scale, encode_current_scale, power_scale_code, decode_power_scale, decode_rotation,
  encode_rotation, timeout_mode_code, decode_timeout_mode, screen_code, decode_screen,
  decode_averaging, encode_averaging, encode_background, decode_background, encode_fan_theme,
  decode_fan_theme, legacy_theme_settings, legacy_background, decode_legacy_theme,
  encode_legacy_theme,
}

-- What holds of a value, if there is one.
abbrev pub if_ok : {A : Type 0} → Result A → (A → Bool) → Bool
if_ok (ok a) p = p a
if_ok (err e) p = true

abbrev pub is_number : Result ℕ → ℕ → Bool
is_number (ok n) m = n == m
is_number (err e) m = false

-- Every value of an enum of the configuration is decoded from the byte that encodes it.
pub decode-code :
    (mode : FanMode) (source : TemperatureSource) (power : PowerScale) (timeout : TimeoutMode)
    (screen : ConfigScreen) (background : Background) (theme : FanTheme)
    → (decode_fan_mode (fan_mode_code mode) ≡ ok mode)
      × (decode_temperature_source (temperature_source_code source) ≡ ok source)
      × (decode_power_scale (power_scale_code power) ≡ ok power)
      × (decode_timeout_mode (timeout_mode_code timeout) ≡ ok timeout)
      × (decode_screen (screen_code screen) ≡ ok screen)
      × (decode_background (encode_background background) ≡ ok background)
      × (decode_fan_theme (encode_fan_theme theme) ≡ ok theme)
unfolding fan_mode_code decode_fan_mode temperature_source_code decode_temperature_source
    power_scale_code decode_power_scale timeout_mode_code decode_timeout_mode screen_code
    decode_screen encode_background decode_background encode_fan_theme decode_fan_theme
decode-code mode source power timeout screen background theme = ground arith

-- A byte that decodes to a value of an enum is the byte that encodes it: a configuration that is
-- read is written back with the same ordinals.
pub code-decode :
    (byte : ℕ)
    → (if_ok (decode_fan_mode byte) (λ x. fan_mode_code x == byte) ≡ true)
      × (if_ok (decode_temperature_source byte) (λ x. temperature_source_code x == byte) ≡ true)
      × (if_ok (decode_power_scale byte) (λ x. power_scale_code x == byte) ≡ true)
      × (if_ok (decode_timeout_mode byte) (λ x. timeout_mode_code x == byte) ≡ true)
      × (if_ok (decode_screen byte) (λ x. screen_code x == byte) ≡ true)
      × (if_ok (decode_background byte) (λ x. encode_background x == byte) ≡ true)
      × (if_ok (decode_fan_theme byte) (λ x. encode_fan_theme x == byte) ≡ true)
      × (if_ok (decode_current_scale byte) (λ x. is_number (encode_current_scale x) byte) ≡ true)
      × (if_ok (decode_averaging byte) (λ x. is_number (encode_averaging x) byte) ≡ true)
      × (if_ok (decode_rotation byte) (λ x. is_number (encode_rotation x) byte) ≡ true)
unfolding fan_mode_code decode_fan_mode temperature_source_code decode_temperature_source
    power_scale_code decode_power_scale timeout_mode_code decode_timeout_mode screen_code
    decode_screen encode_background decode_background encode_fan_theme decode_fan_theme
    encode_current_scale decode_current_scale encode_averaging decode_averaging encode_rotation
    decode_rotation
code-decode byte = ground arith

-- A number of the tables is decoded from the byte that encodes it.
pub decode-encode_table :
    (value : ℕ)
    → (if_ok (encode_current_scale value) (λ n. is_number (decode_current_scale n) value) ≡ true)
      × (if_ok (encode_averaging value) (λ n. is_number (decode_averaging n) value) ≡ true)
      × (if_ok (encode_rotation value) (λ n. is_number (decode_rotation n) value) ≡ true)
unfolding encode_current_scale decode_current_scale encode_averaging decode_averaging
    encode_rotation decode_rotation
decode-encode_table value = ground arith

-- The theme byte of the old versions stands for a background, and for the colors that go with it.
pub legacy_theme_lem :
    (b : Background)
    → decode_legacy_theme (encode_legacy_theme b)
      ≡ (b, (legacy_theme_settings b).0, (legacy_theme_settings b).1)
unfolding decode_legacy_theme encode_legacy_theme legacy_theme_settings legacy_background
legacy_theme_lem b = ground arith
