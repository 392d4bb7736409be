-- ===== src/Config/Ordinals.antt =====
-- The one-byte ordinals of crates/wireview-core/src/config.rs. Where the code casts an enum by
-- `as u8`, the ordinal is the constructor's place.
use wireview_pro_ii.Base.{
  ℕ, zero, suc, String, List, [], ◌∷◌, Option, none, some, get_elem?, ◌==◌, if◌then◌else◌,
}
use wireview_pro_ii.Base.Text.{◌<>◌, show}
use wireview_pro_ii.Domain.Error.{Result, ok, err, unsupported, invalid_argument, transport}
use wireview_pro_ii.Config.Types.{
  NvmOperation, FanMode, TemperatureSource, ConfigScreen, TimeoutMode, PowerScale, Background,
  FanTheme, Colors,
}

abbrev pub invalid : {A : Type 0} → String → Result A
invalid message = err (invalid_argument message)

abbrev pub unknown : {A : Type 0} → String → ℕ → Result A
unknown name value = err (transport ("unknown " <> name <> " ordinal " <> show value))

abbrev pub config_v1_size : ℕ
config_v1_size = 72

abbrev pub config_v2_size : ℕ
config_v2_size = 74

abbrev pub config_v3_size : ℕ
config_v3_size = 96

unfoldable pub configuration_size : ℕ → Result ℕ
configuration_size zero = ok config_v1_size
configuration_size (suc zero) = ok config_v2_size
configuration_size (suc (suc zero)) = ok config_v3_size
configuration_size other = err (unsupported ("configuration version " <> show other))

-- `operation as u8`
unfoldable pub nvm_code : NvmOperation → ℕ
nvm_code NvmOperation.reload = 1
nvm_code NvmOperation.store = 2
nvm_code NvmOperation.reset = 3

unfoldable pub fan_mode_code : FanMode → ℕ
fan_mode_code FanMode.curve = 0
fan_mode_code FanMode.fixed = 1

unfoldable pub decode_fan_mode : ℕ → Result FanMode
decode_fan_mode zero = ok FanMode.curve
decode_fan_mode (suc zero) = ok FanMode.fixed
decode_fan_mode value = unknown "fan mode" value

unfoldable pub temperature_source_code : TemperatureSource → ℕ
temperature_source_code TemperatureSource.input = 0
temperature_source_code TemperatureSource.output = 1
temperature_source_code TemperatureSource.external_1 = 2
temperature_source_code TemperatureSource.external_2 = 3
temperature_source_code TemperatureSource.maximum = 4

unfoldable pub decode_temperature_source : ℕ → Result TemperatureSource
decode_temperature_source zero = ok TemperatureSource.input
decode_temperature_source (suc zero) = ok TemperatureSource.output
decode_temperature_source (suc (suc zero)) = ok TemperatureSource.external_1
decode_temperature_source (suc (suc (suc zero))) = ok TemperatureSource.external_2
decode_temperature_source (suc (suc (suc (suc zero)))) = ok TemperatureSource.maximum
decode_temperature_source value = unknown "temperature source" value

-- `ok_or_else`
abbrev pub ok_or : {A : Type 0} → Option A → Result A → Result A
ok_or none e = e
ok_or (some a) e = ok a

-- `iter().position(|&candidate| candidate == value)`, counted from `i`.
abbrev pub position : ℕ → List ℕ → ℕ → Option ℕ
position value [] i = none
position value (candidate ∷ rest) i =
    if candidate == value then some i else position value rest (suc i)

abbrev pub current_scales : List ℕ
current_scales = 5 ∷ 10 ∷ 15 ∷ 20 ∷ []

unfoldable pub decode_current_scale : ℕ → Result ℕ
decode_current_scale value =
    ok_or (get_elem? current_scales value)
      (err (transport ("unknown current scale ordinal " <> show value)))

unfoldable pub encode_current_scale : ℕ → Result ℕ
encode_current_scale value =
    ok_or (position value current_scales 0) (invalid "current scale must be 5, 10, 15, or 20")

unfoldable pub power_scale_code : PowerScale → ℕ
power_scale_code PowerScale.auto = 0
power_scale_code PowerScale.watts_300 = 1
power_scale_code PowerScale.watts_600 = 2

unfoldable pub decode_power_scale : ℕ → Result PowerScale
decode_power_scale zero = ok PowerScale.auto
decode_power_scale (suc zero) = ok PowerScale.watts_300
decode_power_scale (suc (suc zero)) = ok PowerScale.watts_600
decode_power_scale value = unknown "power scale" value

unfoldable pub decode_rotation : ℕ → Result ℕ
decode_rotation zero = ok 0
decode_rotation (suc zero) = ok 180
decode_rotation value = unknown "display rotation" value

unfoldable pub encode_rotation : ℕ → Result ℕ
encode_rotation value =
    if value == 0
    then ok 0
    else if value == 180
    then ok 1
    else invalid "display rotation must be 0 or 180"

unfoldable pub timeout_mode_code : TimeoutMode → ℕ
timeout_mode_code TimeoutMode.static = 0
timeout_mode_code TimeoutMode.cycle = 1
timeout_mode_code TimeoutMode.sleep = 2

unfoldable pub decode_timeout_mode : ℕ → Result TimeoutMode
decode_timeout_mode zero = ok TimeoutMode.static
decode_timeout_mode (suc zero) = ok TimeoutMode.cycle
decode_timeout_mode (suc (suc zero)) = ok TimeoutMode.sleep
decode_timeout_mode value = unknown "timeout mode" value

unfoldable pub screen_code : ConfigScreen → ℕ
screen_code ConfigScreen.main = 0
screen_code ConfigScreen.simple = 1
screen_code ConfigScreen.current = 2
screen_code ConfigScreen.temperature = 3
screen_code ConfigScreen.status = 4

unfoldable pub decode_screen : ℕ → Result ConfigScreen
decode_screen zero = ok ConfigScreen.main
decode_screen (suc zero) = ok ConfigScreen.simple
decode_screen (suc (suc zero)) = ok ConfigScreen.current
decode_screen (suc (suc (suc zero))) = ok ConfigScreen.temperature
decode_screen (suc (suc (suc (suc zero)))) = ok ConfigScreen.status
decode_screen value = unknown "default screen" value

abbrev pub averagings : List ℕ
averagings = 22 ∷ 44 ∷ 89 ∷ 177 ∷ 354 ∷ 709 ∷ 1417 ∷ []

unfoldable pub decode_averaging : ℕ → Result ℕ
decode_averaging value =
    ok_or (get_elem? averagings value)
      (err (transport ("unknown averaging ordinal " <> show value)))

unfoldable pub encode_averaging : ℕ → Result ℕ
encode_averaging value =
    ok_or (position value averagings 0) (invalid ("unsupported averaging " <> show value <> " ms"))

unfoldable pub encode_background : Background → ℕ
encode_background Background.thermal_grizzly_orange = 1
encode_background Background.thermal_grizzly_dark = 2
encode_background Background.disabled = 255

unfoldable pub decode_background : ℕ → Result Background
decode_background value =
    if value == 1
    then ok Background.thermal_grizzly_orange
    else if value == 2
    then ok Background.thermal_grizzly_dark
    else if value == 255
    then ok Background.disabled
    else unknown "background bitmap" value

unfoldable pub encode_fan_theme : FanTheme → ℕ
encode_fan_theme FanTheme.thermal_grizzly_orange = 100
encode_fan_theme FanTheme.thermal_grizzly_dark = 117
encode_fan_theme FanTheme.black_and_white = 152

unfoldable pub decode_fan_theme : ℕ → Result FanTheme
decode_fan_theme value =
    if value == 100
    then ok FanTheme.thermal_grizzly_orange
    else if value == 117
    then ok FanTheme.thermal_grizzly_dark
    else if value == 152
    then ok FanTheme.black_and_white
    else unknown "fan bitmap" value

abbrev colors : ℕ → ℕ → ℕ → ℕ → Colors
colors p s h b = record {
  primary_color = p;
  secondary_color = s;
  highlight_color = h;
  background_color = b;
}

unfoldable pub legacy_theme_settings : Background → FanTheme × Colors
legacy_theme_settings Background.thermal_grizzly_orange =
    (FanTheme.thermal_grizzly_orange, colors 0xffff_ffff 0xff64_6464 0xffe6_4121 0xff00_0000)
legacy_theme_settings Background.thermal_grizzly_dark =
    (FanTheme.thermal_grizzly_dark, colors 0xffff_ffff 0xff64_6464 0xffbe_bebe 0xff00_0000)
legacy_theme_settings Background.disabled =
    (FanTheme.black_and_white, colors 0xff96_9696 0xff50_5050 0xffff_ffff 0xff00_0000)

-- The background of `decode_legacy_theme`.
unfoldable pub legacy_background : ℕ → Background
legacy_background zero = Background.thermal_grizzly_orange
legacy_background (suc zero) = Background.thermal_grizzly_dark
legacy_background value = Background.disabled

unfoldable pub decode_legacy_theme : ℕ → Background × FanTheme × Colors
unfolding legacy_background legacy_theme_settings
decode_legacy_theme value =
    let background = legacy_background value in
    let (fan_theme, theme_colors) = legacy_theme_settings background in
    (background, fan_theme, theme_colors)

unfoldable pub encode_legacy_theme : Background → ℕ
encode_legacy_theme Background.thermal_grizzly_orange = 0
encode_legacy_theme Background.thermal_grizzly_dark = 1
encode_legacy_theme Background.disabled = 2
