-- ===== src/Examples/Changes.antt =====
-- Changes of the configuration at concrete inputs.
use wireview_pro_ii.Base.{ℕ, ◌≡◌, refl, String, true, false, none, arith, if◌then◌else◌, ◌==◌}
use wireview_pro_ii.Domain.Error.{failed_and_rolled_back, transport, to_string, ok, err}
use wireview_pro_ii.Config.Types.{DeviceConfiguration}
use wireview_pro_ii.Manager.Mutation.{
  attempt, apply_configuration, accept, operation, recover, rollback_configuration, write_and_check,
  store_and_check, wait_for_nvm_mutation_slot, stamp_nvm_mutation,
}
use wireview_pro_ii.Manager.Outcomes.{Holds, apply_configuration-Holds}
use wireview_pro_ii.Manager.Rollback.{IsUndone, IsStarted, apply_configuration-IsUndone}
use wireview_pro_ii.Manager.Reports.{IsReported, busy_name, apply_configuration_command-IsReported}
use wireview_pro_ii.Manager.Refusals.{IsRefused, other_crc, IsRefused-untouched}
use wireview_pro_ii.Manager.Spacing.{
  IsClock, IsSpaced, reset_now, write_message, store_message, nvm_spacing,
}
use wireview_pro_ii.Manager.State.{Manager, set_busy, set_ready, bump_and_publish}
use wireview_pro_ii.Manager.Dispatch.{mutate, apply_configuration_command}
use wireview_pro_ii.Manager.Reply.{finish}
use wireview_pro_ii.Manager.Nvm.{run_nvm_operation}
use wireview_pro_ii.Config.Types.{NvmOperation}
use wireview_pro_ii.Config.Masks.{
  fault_code, encode_faults, encode_faults_from, encode_screens, encode_screens_from, count_ones,
}
use wireview_pro_ii.Config.Numbers.{encode_tenths_u8, validate_tenths_range}
use wireview_pro_ii.Config.Ordinals.{
  encode_background, encode_fan_theme, fan_mode_code, legacy_theme_settings, power_scale_code,
  screen_code, temperature_source_code, timeout_mode_code,
}
use wireview_pro_ii.Config.Validate.{validate}
use wireview_pro_ii.Config.Equality.{
  list_eq, faults_eq, actions_eq, display_eq, fan_eq, thresholds_eq, settings_eq, configuration_eq,
}
use wireview_pro_ii.Examples.Fixtures.{
  hundredths, mock_configuration, Device, Answers, device, env_of, sound, attached,
}

-- The mock configuration, dimmed; the device cannot store it.
abbrev dimmed : DeviceConfiguration ℕ
dimmed = record (mock_configuration) {
  settings = record (mock_configuration.settings) { backlight_percent = 50 };
}

abbrev picky : Answers
picky = record sound {
  store = λ active. if active.backlight_percent == 50 then err (transport "full") else ok tt;
}

applied : (apply_configuration (env_of sound) dimmed true none attached).0 ≡ ok dimmed
unfolding fault_code encode_faults encode_faults_from encode_screens encode_screens_from count_ones
    encode_tenths_u8 validate_tenths_range encode_background encode_fan_theme fan_mode_code
    legacy_theme_settings power_scale_code screen_code temperature_source_code timeout_mode_code
    validate list_eq faults_eq actions_eq display_eq fan_eq thresholds_eq settings_eq
    configuration_eq apply_configuration accept attempt operation recover rollback_configuration
    write_and_check store_and_check wait_for_nvm_mutation_slot stamp_nvm_mutation
applied = refl

apply_configuration-Holds_example :
    (validate hundredths dimmed ≡ ok tt)
    × Holds
        (env_of sound)
        dimmed
        true
        dimmed
        (apply_configuration (env_of sound) dimmed true none attached).1
apply_configuration-Holds_example =
    apply_configuration-Holds (env_of sound) dimmed dimmed true none attached applied

abbrev reason : String
reason = to_string (transport "full")

valid : validate hundredths dimmed ≡ ok tt
unfolding fault_code encode_faults encode_faults_from encode_screens encode_screens_from count_ones
    encode_tenths_u8 validate_tenths_range encode_background encode_fan_theme fan_mode_code
    legacy_theme_settings power_scale_code screen_code temperature_source_code timeout_mode_code
    validate
valid = refl

dimmed_accepted : (accept (env_of picky) dimmed none mock_configuration attached).0 ≡ ok tt
unfolding accept
dimmed_accepted = refl

abbrev start : IsStarted (env_of picky) dimmed none mock_configuration attached
start = record { answered = device; reads = refl; valid = valid; accepted = dimmed_accepted }

undone :
    (apply_configuration (env_of picky) dimmed true none attached).0
    ≡ err (failed_and_rolled_back reason)
unfolding fault_code encode_faults encode_faults_from encode_screens encode_screens_from count_ones
    encode_tenths_u8 validate_tenths_range encode_background encode_fan_theme fan_mode_code
    legacy_theme_settings power_scale_code screen_code temperature_source_code timeout_mode_code
    validate list_eq faults_eq actions_eq display_eq fan_eq thresholds_eq settings_eq
    configuration_eq attempt operation recover rollback_configuration write_and_check
    store_and_check wait_for_nvm_mutation_slot stamp_nvm_mutation apply_configuration accept
undone = refl

apply_configuration-IsUndone_example :
    IsUndone
      (env_of picky)
      mock_configuration
      true
      (apply_configuration (env_of picky) dimmed true none attached).1.device
apply_configuration-IsUndone_example =
    apply_configuration-IsUndone (env_of picky) dimmed mock_configuration true none reason attached
      start undone

busy_start :
    IsStarted
      (env_of picky)
      dimmed
      none
      mock_configuration
      (set_busy (busy_name (env_of picky) true) attached).1
unfolding set_busy bump_and_publish accept
busy_start = record { answered = device; reads = refl; valid = valid; accepted = refl }

told :
    (apply_configuration_command (env_of picky) dimmed true none attached).0
    ≡ err (failed_and_rolled_back reason)
unfolding fault_code encode_faults encode_faults_from encode_screens encode_screens_from count_ones
    encode_tenths_u8 validate_tenths_range encode_background encode_fan_theme fan_mode_code
    legacy_theme_settings power_scale_code screen_code temperature_source_code timeout_mode_code
    validate list_eq faults_eq actions_eq display_eq fan_eq thresholds_eq settings_eq
    configuration_eq attempt operation recover rollback_configuration write_and_check
    store_and_check wait_for_nvm_mutation_slot stamp_nvm_mutation apply_configuration accept
    apply_configuration_command mutate finish set_busy set_ready bump_and_publish
told = refl

apply_configuration_command-IsReported_example :
    IsReported
      (env_of picky)
      mock_configuration
      true
      (failed_and_rolled_back reason)
      (apply_configuration_command (env_of picky) dimmed true none attached).1
apply_configuration_command-IsReported_example =
    apply_configuration_command-IsReported (env_of picky) dimmed mock_configuration true none
      (failed_and_rolled_back reason) attached refl busy_start told

-- The configuration of another device.
abbrev stale : DeviceConfiguration ℕ
stale = record (mock_configuration) { crc = 7 }

stale_other : (mock_configuration.crc == stale.crc) ≡ false
stale_other = refl

IsRefused-untouched_example : IsRefused (env_of sound) stale true none device attached
IsRefused-untouched_example =
    IsRefused-untouched (env_of sound) stale mock_configuration true none device attached refl
      (other_crc stale_other)

sound-IsClock : IsClock (env_of sound)
sound-IsClock = record {
  sleeps = λ n d. ground arith;
  writes = λ c d. ground arith;
  reads = λ d. ground arith;
}

written :
    (write_and_check (env_of sound) dimmed (write_message (env_of sound)) attached).0 ≡ ok dimmed
unfolding list_eq faults_eq actions_eq display_eq fan_eq thresholds_eq settings_eq configuration_eq
    write_and_check fan_mode_code temperature_source_code fault_code screen_code power_scale_code
    timeout_mode_code encode_background encode_fan_theme
written = refl

nvm_spacing_example :
    ((q : Manager ℕ Device) × (operation (env_of sound) dimmed true attached
        ≡ store_and_check (env_of sound) dimmed (store_message (env_of sound)) q)
      × IsSpaced (env_of sound) 4500 q)
    × ((q : Manager ℕ Device) × (run_nvm_operation (env_of sound) NvmOperation.reset attached
          ≡ reset_now (env_of sound) q)
        × IsSpaced (env_of sound) 4500 q)
nvm_spacing_example =
    nvm_spacing (env_of sound) 4500 dimmed dimmed attached sound-IsClock refl (ground arith) written
