-- ===== src/Manager/Dispatch.antt =====
-- `Manager::handle_command` of src/manager.rs, with one constructor for each command, and the
-- commands on the configuration.
use wireview_pro_ii.Base.{ℕ, String, ◌⊎◌, inl, inr, Bool, List, Option, if◌then◌else◌}
use wireview_pro_ii.Base.Text.{◌<>◌}
use wireview_pro_ii.Base.State.{pure, ◌>>=◌, ◌>>◌}
use wireview_pro_ii.Domain.Error.{
  ok, err, transport, connection_lost, operation_outcome_unknown, Result, and_then,
}
use wireview_pro_ii.Domain.Telemetry.{Screen, DeviceIdentity, Telemetry}
use wireview_pro_ii.Theme.{ThemeAssetSlot}
use wireview_pro_ii.Config.Types.{NvmOperation, DeviceConfiguration, from_configuration}
use wireview_pro_ii.Config.Items.{item as settings_item}
use wireview_pro_ii.Manager.Backend.{Env}
use wireview_pro_ii.Manager.State.{
  HistoryDump, DisplayPauseState, M, call, set_busy, display_pause_state,
}
use wireview_pro_ii.Manager.Reply.{when_ready, finish}
use wireview_pro_ii.Manager.Dump
use wireview_pro_ii.Manager.Commands
use wireview_pro_ii.Manager.Mutation.{Outcome}
use wireview_pro_ii.Manager.Mutation
use wireview_pro_ii.Manager.Nvm.{run_nvm_operation}

pub data Command (F : Type 0) : Type 0 where
  set_screen : Screen → Command F
  read_history_chunk : ℕ → ℕ → Command F
  read_theme_asset : ThemeAssetSlot → Command F
  write_theme_asset : ThemeAssetSlot → List ℕ → Command F
  begin_history_dump : Command F
  read_history_dump_chunk : ℕ → ℕ → ℕ → Command F
  end_history_dump : ℕ → Command F
  read_device_info : Command F
  clear_faults : ℕ → ℕ → Command F
  get_poll_interval : Command F
  set_poll_interval : ℕ → Command F
  get_display_pause : Command F
  pause_display : ℕ → Command F
  resume_display : Command F
  read_configuration : Command F
  read_configuration_item : String → Command F
  apply_configuration : DeviceConfiguration F → Bool → Option String → Command F
  set_configuration_item : String → String → Bool → Command F
  reload_configuration : Command F
  reset_configuration : Command F
  reboot_device : Command F

-- What is sent on a command's `reply` channel.
pub data Reply (F : Type 0) : Type 0 where
  done : Result (Unit {0}) → Reply F
  bytes : Result (List ℕ) → Reply F
  dump : Result HistoryDump → Reply F
  device_info : Result DeviceIdentity → Reply F
  faults : Result (Telemetry F) → Reply F
  interval : ℕ → Reply F
  new_interval : Result ℕ → Reply F
  display : DisplayPauseState → Reply F
  new_display : Result DisplayPauseState → Reply F
  configuration : Result (DeviceConfiguration F) → Reply F
  item : Result String → Reply F

module _ {F D : Type 0} (env : Env F D) where
  open env use {floats, backend, serde}

  unfoldable pub read_configuration_command : M F D (Outcome env)
  read_configuration_command = when_ready (do
    set_busy "reading_configuration"
    result ← call backend.read_configuration
    finish backend connection_lost result)

  -- `map_err` on the text of the item.
  abbrev pub serialized : String ⊎ String → Result String
  serialized (inl error) = err (transport ("failed to serialize configuration item: " <> error))
  serialized (inr text) = ok text

  abbrev pub item_json : DeviceConfiguration F → String → Result String
  item_json c key =
      and_then (settings_item serde (from_configuration c) key)
        (λ value. serialized (serde.serialize value))

  unfoldable pub read_configuration_item_command : String → M F D (Result String)
  read_configuration_item_command key = when_ready (do
    set_busy "reading_configuration_item"
    result ← call backend.read_configuration
    finish backend connection_lost (and_then result (λ c. item_json c key)))

  -- A configuration change under `set_busy`, with `finish_configuration_mutation`.
  unfoldable pub mutate : String → M F D (Outcome env) → M F D (Outcome env)
  mutate operation change =
      when_ready
        (do set_busy operation; result ← change; finish backend operation_outcome_unknown result)

  unfoldable pub apply_configuration_command :
      DeviceConfiguration F → Bool → Option String → M F D (Outcome env)
  apply_configuration_command c persist expected_revision =
      mutate (if persist then "storing_configuration" else "applying_configuration")
        (Mutation.apply_configuration env c persist expected_revision)

  unfoldable pub set_configuration_item_command : String → String → Bool → M F D (Outcome env)
  set_configuration_item_command key value persist =
      mutate (if persist then "storing_configuration_item" else "applying_configuration_item")
        (Mutation.set_configuration_item env key value persist)

  unfoldable pub reload_configuration_command : M F D (Outcome env)
  reload_configuration_command =
      mutate "reloading_configuration" (run_nvm_operation env NvmOperation.reload)

  unfoldable pub reset_configuration_command : M F D (Outcome env)
  reset_configuration_command =
      mutate "resetting_configuration" (run_nvm_operation env NvmOperation.reset)

  abbrev sends : {A : Type 0} → M F D A → (A → Reply F) → M F D (Reply F)
  sends method reply = do result ← method; pure (reply result)

  unfoldable pub handle_command : Command F → M F D (Reply F)
  handle_command (set_screen screen) = sends (Commands.set_screen backend screen) done
  handle_command (read_history_chunk offset size) =
      sends (Dump.read_history_chunk backend offset size) bytes
  handle_command (read_theme_asset slot) = sends (Commands.read_theme_asset backend slot) bytes
  handle_command (write_theme_asset slot content) =
      sends (Commands.write_theme_asset backend slot content) done
  handle_command begin_history_dump = sends (Dump.begin_history_dump backend) dump
  handle_command (read_history_dump_chunk dump_id offset size) =
      sends (Dump.read_history_dump_chunk backend dump_id offset size) bytes
  handle_command (end_history_dump dump_id) = sends (Dump.end_history_dump backend dump_id) done
  handle_command read_device_info = sends (Commands.read_device_info backend) device_info
  handle_command (clear_faults active logged) =
      sends (Commands.clear_faults backend active logged) faults
  handle_command get_poll_interval = sends (Commands.get_poll_interval backend) interval
  handle_command (set_poll_interval ms) = sends (Commands.set_poll_interval backend ms) new_interval
  handle_command get_display_pause = sends (display_pause_state backend) display
  handle_command (pause_display ms) = sends (Commands.pause_display backend ms) new_display
  handle_command resume_display = sends (Commands.resume_display backend) new_display
  handle_command read_configuration = sends read_configuration_command configuration
  handle_command (read_configuration_item key) = sends (read_configuration_item_command key) item
  handle_command (apply_configuration c persist revision) =
      sends (apply_configuration_command c persist revision) configuration
  handle_command (set_configuration_item key value persist) =
      sends (set_configuration_item_command key value persist) configuration
  handle_command reload_configuration = sends reload_configuration_command configuration
  handle_command reset_configuration = sends reset_configuration_command configuration
  handle_command reboot_device = sends (Commands.reboot_device backend) done
