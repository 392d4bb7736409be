-- ===== src/Examples/Requests.antt =====
-- Requests to the service at a manager that has the mock configuration and does as it is told.
use wireview_pro_ii.Base.{ℕ, arith, ◌+◌, ◌≡◌, refl, String, [], ◌∷◌, inl, inr, true, false}
use wireview_pro_ii.Base.Sort.{same_text_refl}
use wireview_pro_ii.Domain.Error.{Result, ok, err, busy, is_ok}
use wireview_pro_ii.Config.Types.{from_configuration}
use wireview_pro_ii.Config.Validate.{
  percent, chars_count, validate_name, validate_faults, validate_actions, validate_display,
  validate_fan, validate_thresholds, validate_settings,
}
use wireview_pro_ii.Config.Revision.{configuration_revision, with_protocol_metadata}
use wireview_pro_ii.Config.Items.{null, parse_settings, from_json}
use wireview_pro_ii.Ipc.Messages.{ConfigurationDto}
use wireview_pro_ii.Varlink.Service.{answer, Library, ManagerHandle}
use wireview_pro_ii.Varlink.Methods.{write_theme_asset, clear_faults, reboot_device}
use wireview_pro_ii.Varlink.Settings.{
  apply_if_current, store_configuration, set_configuration_item, reset_configuration,
  configuration_dto,
}
use wireview_pro_ii.Varlink.Guards.{Refuses, unconfirmed, Applied, apply_if_current-Applied}
use wireview_pro_ii.Config.Masks.{
  count_ones, encode_faults, encode_faults_from, encode_screens, encode_screens_from, fault_code,
}
use wireview_pro_ii.Config.Numbers.{encode_tenths_u8, validate_tenths_range}
use wireview_pro_ii.Config.Ordinals.{screen_code}
use wireview_pro_ii.Examples.Fixtures.{hundredths, mock_configuration, attached}
use wireview_pro_ii.Examples.Codecs.{mock_encoded}

abbrev library : Library ℕ
library = record {
  floats = hundredths;
  serde = record {
    to_value = λ settings. null;
    to_string = λ document. "";
    serialize = λ document. inr "";
    from_str = λ text. inl "no document";
    settings_from_str = λ text. inr (from_configuration mock_configuration);
  };
  settings_to_string = λ settings. inr "settings";
  sha256_hex = λ bytes. "digest";
  quoted = λ text. text;
  api_compatibility_id = "id";
  version = "1";
  build_id = "b";
}

-- The world counts the commands.
abbrev manager : ManagerHandle ℕ ℕ
manager = record {
  state = λ w. attached.published;
  poll_interval_ms = λ w. (ok 500, w + 1);
  set_poll_interval_ms = λ n w. (ok n, w + 1);
  display_pause_state = λ w. (err (busy "pause"), w);
  pause_display = λ n w. (err (busy "pause"), w);
  resume_display = λ w. (err (busy "pause"), w);
  set_screen = λ screen w. (ok tt, w + 1);
  read_history_chunk = λ offset size w. (ok [], w + 1);
  begin_history_dump = λ w. (err (busy "history"), w);
  read_history_dump_chunk = λ id offset size w. (ok [], w + 1);
  end_history_dump = λ id w. (ok tt, w + 1);
  read_theme_asset = λ slot w. (ok [], w + 1);
  write_theme_asset = λ slot bytes w. (ok tt, w + 1);
  read_device_info = λ w. (err (busy "info"), w);
  clear_faults = λ active logged w. (err (busy "faults"), w);
  read_configuration = λ w. (ok mock_configuration, w + 1);
  read_configuration_item = λ key w. (ok key, w + 1);
  apply_configuration_if_revision = λ c persist revision w. (ok c, w + 1);
  set_configuration_item = λ key value persist w. (ok mock_configuration, w + 1);
  reload_configuration = λ w. (ok mock_configuration, w + 1);
  reset_configuration = λ w. (ok mock_configuration, w + 1);
  reboot_device = λ w. (ok tt, w + 1);
}

unconfirmed_example :
    Refuses (write_theme_asset library manager "background1" 1 "digest" (0 ∷ []) false)
    × Refuses (clear_faults library manager 1 1 false)
    × Refuses (
        store_configuration library manager
          (record { configuration_json = ""; revision = "" })
          false)
    × Refuses (set_configuration_item library manager "fan.mode" "curve" true false)
    × Refuses (reset_configuration library manager false)
    × Refuses (reboot_device library manager false)
unconfirmed_example =
    unconfirmed library manager "background1" "digest" "fan.mode" "curve" 1 1 1 (0 ∷ [])
      (record { configuration_json = ""; revision = "" })

-- The revision of the mock configuration in the session of the manager.
found : (x : Result String) → is_ok x ≡ true → (r : String) × (x ≡ ok r)
found (ok r) h = (r, refl)
found (err e) h = absurd (ground arith)

revision : (r : String) × (configuration_revision hundredths 1 mock_configuration ≡ ok r)
unfolding configuration_revision
revision = found (configuration_revision hundredths 1 mock_configuration) (rw mock_encoded refl)

abbrev request : ConfigurationDto
request = record { configuration_json = "{}"; revision = revision.0 }

valid : validate_settings hundredths (from_configuration mock_configuration) ≡ ok tt
unfolding validate_tenths_range encode_tenths_u8 count_ones encode_faults encode_faults_from
    fault_code encode_screens encode_screens_from screen_code percent chars_count validate_name
    validate_faults validate_actions validate_display validate_fan validate_thresholds
    validate_settings
valid = refl

decoded : from_json hundredths library.serde "{}" ≡ ok (from_configuration mock_configuration)
unfolding from_json parse_settings
decoded = rw valid refl

completed :
    with_protocol_metadata hundredths (from_configuration mock_configuration) mock_configuration
    ≡ ok mock_configuration
unfolding with_protocol_metadata
completed = rw valid refl

abbrev applied : ConfigurationDto
applied = record { configuration_json = "settings"; revision = revision.0 }

shown : apply_if_current library manager request false 0 ≡ (answer applied, 2)
unfolding apply_if_current configuration_dto
shown = rw (revision.1, same_text_refl revision.0, decoded) (rw completed (rw revision.1 refl))

apply_if_current-Applied_example : Applied library manager request false 0
apply_if_current-Applied_example =
    apply_if_current-Applied library manager request applied false 0 2 shown
