-- ===== src/Varlink/Methods.antt =====
-- The methods of src/varlink.rs over the handle of the manager.
use wireview_pro_ii.Base.{
  ℕ, ◌^◌, String, Bool, true, false, not, ◌||◌, Option, none, some, List, leb, ◌==◌, length,
}
use wireview_pro_ii.Base.Sort.{same_text}
use wireview_pro_ii.Base.Text.{◌<>◌, show}
use wireview_pro_ii.Domain.Error.{Result, ok, err}
use wireview_pro_ii.Domain.Telemetry.{Telemetry}
use wireview_pro_ii.Domain.Connection.{DaemonState, name}
use wireview_pro_ii.Theme.{byte_len, width, height, name as slot_name}
use wireview_pro_ii.Manager.State.{DisplayPauseState}
use wireview_pro_ii.Ipc.Messages.{
  StatusDto, TelemetryDto, telemetry_dto, HistoryChunkDto, HistoryDumpDto, ThemeAssetDto,
  ThemeAssetWriteDto, DeviceInfoDto, device_info_dto, DisplayPauseDto,
}
use wireview_pro_ii.Ipc.Events.{screen_text}
use wireview_pro_ii.Ipc.Errors.{WireViewError}
use wireview_pro_ii.Ipc.Compatibility.{api_version, api_capabilities}
use wireview_pro_ii.Varlink.Service.{
  Answer, answer, refuse, Method, ManagerHandle, Library, pure, refuse_if, lift, call, ◌>>=◌, ◌>>◌,
  require_confirmation, text_or_empty, busy_operation, recovery_cause, candidates_of,
  reason_or_empty, display_pause_dto, parse_screen, parse_slot,
}

abbrev pub history_bytes : ℕ
history_bytes = 0x0080_0000

module _ {F W : Type 0} (library : Library F) (manager : ManagerHandle F W) where
  open library use {floats, serde}

  unfoldable pub status_from_state : DaemonState F → StatusDto
  status_from_state value = record {
    api_version = api_version;
    api_compatibility_id = library.api_compatibility_id;
    api_capabilities = api_capabilities;
    daemon_version = library.version;
    daemon_build_id = library.build_id;
    state = name value.connection;
    sequence = value.sequence;
    session_id = value.session_id;
    connected_port = text_or_empty value.connected_port;
    last_disconnect_reason = reason_or_empty value.last_disconnect_reason;
    busy_operation = busy_operation value.connection;
    recovery_cause = recovery_cause value.connection;
    candidates = candidates_of value.connection;
    poll_interval_ms = 0;
    display_paused = false;
    display_pause_debug_active = false;
    display_pause_history_active = false;
    display_pause_remaining_ms = 0;
  }

  abbrev pub or_default : Result ℕ → ℕ
  or_default (ok n) = n
  or_default (err e) = 0

  abbrev pub with_pause : Result DisplayPauseState → StatusDto → StatusDto
  with_pause (ok pause) status = record status {
    display_paused = pause.paused;
    display_pause_debug_active = pause.debug_lease_active;
    display_pause_history_active = pause.history_dump_active;
    display_pause_remaining_ms = pause.remaining_ms;
  }
  with_pause (err e) status = status

  unfoldable pub get_status : W → StatusDto × W
  unfolding status_from_state
  get_status w =
      let status = status_from_state (manager.state w) in
      let (interval, w1) = manager.poll_interval_ms w in
      let (pause, w2) = manager.display_pause_state w1 in
      (with_pause pause (record status { poll_interval_ms = or_default interval }), w2)

  abbrev pub telemetry_or_refuse : Option (Telemetry F) → Answer (TelemetryDto F)
  telemetry_or_refuse none = refuse (WireViewError.unavailable "telemetry is not available")
  telemetry_or_refuse (some t) = answer (telemetry_dto floats t)

  unfoldable pub get_telemetry : Method W (TelemetryDto F)
  unfolding telemetry_dto
  get_telemetry w = (telemetry_or_refuse (manager.state w).telemetry, w)

  unfoldable pub set_screen : String → Method W String
  unfolding screen_text
  set_screen text = do
    screen ← lift (parse_screen library.quoted text)
    call (manager.set_screen screen)
    pure (screen_text screen)

  -- `usize::try_from` of a `u32` does not fail on the platforms of the program.
  unfoldable pub read_history_chunk : ℕ → ℕ → Method W HistoryChunkDto
  read_history_chunk offset size = do
    bytes ← call (manager.read_history_chunk offset size)
    pure (record { offset = offset; total_bytes = history_bytes; bytes = bytes })

  unfoldable pub begin_history_dump : Method W HistoryDumpDto
  begin_history_dump = do
    dump ← call manager.begin_history_dump
    refuse_if (leb (2 ^ 32) dump.total_bytes)
        (WireViewError.device_error "history length does not fit the Varlink contract")
    pure
        (record { dump_id = dump.id; session_id = dump.session_id; total_bytes = dump.total_bytes })

  unfoldable pub read_history_dump_chunk : ℕ → ℕ → ℕ → Method W HistoryChunkDto
  read_history_dump_chunk dump_id offset size = do
    bytes ← call (manager.read_history_dump_chunk dump_id offset size)
    pure (record { offset = offset; total_bytes = history_bytes; bytes = bytes })

  unfoldable pub end_history_dump : ℕ → Method W (Unit {0})
  end_history_dump dump_id = call (manager.end_history_dump dump_id)

  unfoldable pub read_theme_asset : String → Method W ThemeAssetDto
  unfolding slot_name ◌<>◌
  read_theme_asset text = do
    slot ← lift (parse_slot library.quoted text)
    bytes ← call (manager.read_theme_asset slot)
    refuse_if (not (length bytes == byte_len slot)) (
        WireViewError.device_error (
          "device returned "
          <> show (length bytes)
          <> " bytes for "
          <> slot_name slot
          <> ", expected "
          <> show (byte_len slot)))
    pure (record {
      slot = slot_name slot;
      width = width slot;
      height = height slot;
      byte_length = length bytes;
      sha256 = library.sha256_hex bytes;
      bytes = bytes;
    })

  unfoldable pub write_theme_asset :
      String → ℕ → String → List ℕ → Bool → Method W ThemeAssetWriteDto
  unfolding slot_name ◌<>◌
  write_theme_asset text byte_length sha256 bytes confirm = do
    require_confirmation confirm "writing a theme asset"
    slot ← lift (parse_slot library.quoted text)
    refuse_if (not (byte_length == length bytes) || not (length bytes == byte_len slot)) (
        WireViewError.invalid_argument (
          "theme asset "
          <> slot_name slot
          <> " must be exactly "
          <> show (byte_len slot)
          <> " bytes"))
    refuse_if (not (same_text sha256 (library.sha256_hex bytes)))
        (WireViewError.invalid_argument "theme asset SHA-256 does not match its data")
    call (manager.write_theme_asset slot bytes)
    pure (record {
      slot = slot_name slot;
      byte_length = byte_length;
      sha256 = library.sha256_hex bytes;
    })

  unfoldable pub get_device_info : Method W DeviceInfoDto
  unfolding device_info_dto
  get_device_info = do info ← call manager.read_device_info; pure (device_info_dto info)

  unfoldable pub clear_faults : ℕ → ℕ → Bool → Method W (TelemetryDto F)
  unfolding telemetry_dto
  clear_faults active_mask logged_mask confirm = do
    require_confirmation confirm "clearing device faults"
    telemetry ← call (manager.clear_faults active_mask logged_mask)
    pure (telemetry_dto floats telemetry)

  unfoldable pub get_poll_interval : Method W ℕ
  get_poll_interval = call manager.poll_interval_ms

  unfoldable pub set_poll_interval : ℕ → Method W ℕ
  set_poll_interval milliseconds = call (manager.set_poll_interval_ms milliseconds)

  unfoldable pub pause_display : ℕ → Method W DisplayPauseDto
  unfolding display_pause_dto
  pause_display milliseconds = do
    pause ← call (manager.pause_display milliseconds)
    pure (display_pause_dto pause)

  unfoldable pub resume_display : Method W DisplayPauseDto
  unfolding display_pause_dto
  resume_display = do pause ← call manager.resume_display; pure (display_pause_dto pause)

  unfoldable pub reboot_device : Bool → Method W Bool
  reboot_device confirm = do
    require_confirmation confirm "rebooting the device"
    call manager.reboot_device
    pure true
