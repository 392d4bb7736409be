-- ===== src/Varlink/Service.antt =====
-- The methods of `DeviceService` in src/varlink.rs. The handle of the manager sends a command and
-- waits for its reply, while other turns of the manager go by: `W` is all of that. SHA-256, the
-- JSON text and the fingerprint of the interface are parameters.
use wireview_pro_ii.Base.{
  ◌⊎◌, ℕ, String, Bool, true, false, not, ◌||◌, Option, none, some, List, [], ◌∷◌, if◌then◌else◌,
}
use wireview_pro_ii.Base.Sort.{same_text}
use wireview_pro_ii.Base.Text.{◌<>◌, to_ascii_lowercase}
use wireview_pro_ii.Float.{FloatOps}
use wireview_pro_ii.Domain.Error.{DeviceError, Result, ok, err}
use wireview_pro_ii.Domain.Telemetry.{Screen, DeviceIdentity, Telemetry}
use wireview_pro_ii.Domain.Connection.{
  ConnectionState, busy, recovering, unsupported, ambiguous_device, DaemonState, DisconnectReason,
}
use wireview_pro_ii.Theme.{ThemeAssetSlot, all_slots, name as slot_name}
use wireview_pro_ii.Config.Types.{DeviceSettings, DeviceConfiguration}
use wireview_pro_ii.Config.Items.{Serde}
use wireview_pro_ii.Manager.State.{HistoryDump, DisplayPauseState}
use wireview_pro_ii.Ipc.Messages.{DisplayPauseDto}
use wireview_pro_ii.Ipc.Events.{reason_text}
use wireview_pro_ii.Ipc.Errors.{WireViewError, wire_view_error}

-- What a method answers, and what is outside after it.
pub data Answer (A : Type 0) : Type 0 where
  answer : A → Answer A
  refuse : WireViewError → Answer A

abbrev pub Method : Type 0 → Type 0 → Type 0
Method W A = W → Answer A × W

-- `ManagerHandle`: each call is one command to the manager; `state` reads what it published.
pub record ManagerHandle (F W : Type 0) : Type 0 where
  pub state : W → DaemonState F
  pub poll_interval_ms : W → Result ℕ × W
  pub set_poll_interval_ms : ℕ → W → Result ℕ × W
  pub display_pause_state : W → Result DisplayPauseState × W
  pub pause_display : ℕ → W → Result DisplayPauseState × W
  pub resume_display : W → Result DisplayPauseState × W
  pub set_screen : Screen → W → Result (Unit {0}) × W
  pub read_history_chunk : ℕ → ℕ → W → Result (List ℕ) × W
  pub begin_history_dump : W → Result HistoryDump × W
  pub read_history_dump_chunk : ℕ → ℕ → ℕ → W → Result (List ℕ) × W
  pub end_history_dump : ℕ → W → Result (Unit {0}) × W
  pub read_theme_asset : ThemeAssetSlot → W → Result (List ℕ) × W
  pub write_theme_asset : ThemeAssetSlot → List ℕ → W → Result (Unit {0}) × W
  pub read_device_info : W → Result DeviceIdentity × W
  pub clear_faults : ℕ → ℕ → W → Result (Telemetry F) × W
  pub read_configuration : W → Result (DeviceConfiguration F) × W
  pub read_configuration_item : String → W → Result String × W
  pub apply_configuration_if_revision :
      DeviceConfiguration F → Bool → String → W → Result (DeviceConfiguration F) × W
  pub set_configuration_item : String → String → Bool → W → Result (DeviceConfiguration F) × W
  pub reload_configuration : W → Result (DeviceConfiguration F) × W
  pub reset_configuration : W → Result (DeviceConfiguration F) × W
  pub reboot_device : W → Result (Unit {0}) × W

-- What the service takes from libraries and from its build.
pub record Library (F : Type 0) : Type 0 where
  pub floats : FloatOps F
  pub serde : Serde F
  -- `serde_json::to_string` of the settings.
  pub settings_to_string : DeviceSettings F → String ⊎ String
  pub sha256_hex : List ℕ → String
  -- `format!("{value:?}")` of a text.
  pub quoted : String → String
  pub api_compatibility_id : String
  pub version : String
  pub build_id : String

abbrev pub from_result : {A : Type 0} → Result A → Answer A
from_result (ok a) = answer a
from_result (err e) = refuse (wire_view_error e)

module _ {W : Type 0} where
  abbrev pub pure : {A : Type 0} → A → Method W A
  pure a w = (answer a, w)

  abbrev pub refuse_if : Bool → WireViewError → Method W (Unit {0})
  refuse_if true e w = (refuse e, w)
  refuse_if false e w = (answer tt, w)

  abbrev pub lift : {A : Type 0} → Result A → Method W A
  lift r w = (from_result r, w)

  -- `self.manager.…().await?`
  abbrev pub call : {A : Type 0} → (W → Result A × W) → Method W A
  call f w = let (r, w') = f w in (from_result r, w')

  abbrev pub continue : {A B : Type 0} → Answer A → (A → Method W B) → Method W B
  continue (answer a) f w = f a w
  continue (refuse e) f w = (refuse e, w)

infixl 5 ◌>>=◌ ◌>>◌
abbrev pub ◌>>=◌ : {W A B : Type 0} → Method W A → (A → Method W B) → Method W B
◌>>=◌ m f w = let (r, w') = m w in continue r f w'

abbrev pub ◌>>◌ : {W B : Type 0} → Method W (Unit {0}) → Method W B → Method W B
m >> k = m >>= λ _. k

unfoldable pub require_confirmation : {W : Type 0} → Bool → String → Method W (Unit {0})
unfolding ◌<>◌
require_confirmation confirm operation =
    refuse_if (not confirm)
      (WireViewError.invalid_argument (operation <> " requires explicit confirmation"))

abbrev pub text_or_empty : Option String → String
text_or_empty none = ""
text_or_empty (some text) = text

abbrev pub busy_operation : ConnectionState → String
busy_operation (busy session operation) = operation
busy_operation _ = ""

abbrev pub recovery_cause : ConnectionState → String
recovery_cause (recovering attempt cause) = cause
recovery_cause (unsupported reason) = reason
recovery_cause _ = ""

abbrev pub candidates_of : ConnectionState → List String
candidates_of (ambiguous_device candidates) = candidates
candidates_of _ = []

abbrev pub reason_or_empty : Option DisconnectReason → String
reason_or_empty none = ""
reason_or_empty (some reason) = reason_text reason

unfoldable pub display_pause_dto : DisplayPauseState → DisplayPauseDto
display_pause_dto value = record {
  paused = value.paused;
  debug_lease_active = value.debug_lease_active;
  history_dump_active = value.history_dump_active;
  remaining_ms = value.remaining_ms;
}

-- `Screen::from_str`
unfoldable pub parse_screen : (String → String) → String → Result Screen
unfolding to_ascii_lowercase ◌<>◌
parse_screen quoted value =
    let word = to_ascii_lowercase value in
    if same_text word "main"
    then ok Screen.main
    else if same_text word "current"
    then ok Screen.current
    else if same_text word "temp" || same_text word "temperature"
    then ok Screen.temp
    else if same_text word "status"
    then ok Screen.status
    else if same_text word "simple"
    then ok Screen.simple
    else if same_text word "same"
    then ok Screen.same
    else err (DeviceError.invalid_argument ("unknown screen " <> quoted value))

-- `find(|slot| slot.name().eq_ignore_ascii_case(value))`
unfoldable pub find_slot : String → List ThemeAssetSlot → Option ThemeAssetSlot
unfolding to_ascii_lowercase slot_name
find_slot value [] = none
find_slot value (slot ∷ slots) =
    let rest = find_slot value slots in
    if same_text (to_ascii_lowercase (slot_name slot)) (to_ascii_lowercase value)
    then some slot
    else rest

abbrev pub or_unknown_slot : String → Option ThemeAssetSlot → Result ThemeAssetSlot
or_unknown_slot text none = err (DeviceError.invalid_argument ("unknown theme asset slot " <> text))
or_unknown_slot text (some slot) = ok slot

-- `ThemeAssetSlot::from_str`
unfoldable pub parse_slot : (String → String) → String → Result ThemeAssetSlot
unfolding find_slot
parse_slot quoted value = or_unknown_slot (quoted value) (find_slot value all_slots)
