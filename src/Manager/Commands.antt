-- ===== src/Manager/Commands.antt =====
-- The other device commands of src/manager.rs: screens, themes, device information, faults, the
-- poll interval, the debug pause and the reboot.
use wireview_pro_ii.Base.{
  ℕ, ◌+◌, ◌-◌, bit_and, String, Bool, true, false, not, ◌&&◌, ◌||◌, List, Option, none, some, leb,
  ◌==◌, if◌then◌else◌,
}
use wireview_pro_ii.Base.State.{modify, gets, pure, ◌>>=◌, ◌>>◌}
use wireview_pro_ii.Domain.Error.{
  not_connected, connection_lost, connection_lost_before_mutation, operation_outcome_unknown,
  invalid_argument, Result, ok, err, lost, is_connection_lost,
}
use wireview_pro_ii.Domain.Telemetry.{Screen, DeviceIdentity, Telemetry}
use wireview_pro_ii.Domain.Connection.{DisconnectReason, is_ready, is_busy, screen_changed}
use wireview_pro_ii.Theme.{ThemeAssetSlot}
use wireview_pro_ii.Manager.Backend.{Call, Backend}
use wireview_pro_ii.Manager.State.{
  DisplayPauseState, M, call, effect, now, change_state, broadcast, bump_and_publish, set_busy,
  set_ready, display_pause_state,
}
use wireview_pro_ii.Manager.Display.{ensure_display_paused, resume_display_if_unowned}
use wireview_pro_ii.Manager.Connection.{disconnect}
use wireview_pro_ii.Manager.Reply.{when_ready, when_ready_or_busy, finish, pass, settle}

abbrev pub known_fault_mask : ℕ
known_fault_mask = 0x003f

-- `mask & !KNOWN_FAULT_MASK != 0`, on a `u16`.
abbrev pub has_unknown_faults : ℕ → Bool
has_unknown_faults mask = not (bit_and mask (0xffff - known_fault_mask) == 0)

-- `(lo..=hi).contains(&value)`
abbrev pub in_range : ℕ → ℕ → ℕ → Bool
in_range lo hi value = leb lo value && leb value hi

-- `Err(ConnectionLost | ConnectionLostBeforeMutation)`
abbrev pub write_lost : Result (Unit {0}) → Bool
write_lost (err connection_lost) = true
write_lost (err connection_lost_before_mutation) = true
write_lost _ = false

-- What the client of a theme write is told.
abbrev pub write_outcome : Result (Unit {0}) → Result (Unit {0})
write_outcome (err connection_lost) = err operation_outcome_unknown
write_outcome (err connection_lost_before_mutation) = err connection_lost
write_outcome result = result

module _ {F D : Type 0} (b : Backend F D) where
  abbrev pub screen_set : Screen → Result (Unit {0}) → M F D (Result (Unit {0}))
  screen_set screen (ok _) = do
    bump_and_publish
    broadcast (λ s. screen_changed s.sequence s.session_id screen)
    pure (ok tt)
  screen_set screen (err error) = pass b operation_outcome_unknown (err error)

  unfoldable pub set_screen : Screen → M F D (Result (Unit {0}))
  set_screen screen = when_ready (call (b.set_screen screen) >>= screen_set screen)

  -- A theme operation with the display paused: `transfer` is the backend's call, `is_lost` says
  -- which of its results end the session, `outcome` what the client is told.
  module _ {A : Type 0} (transfer : Call D A) (is_lost : Result A → Bool)
      (outcome : Result A → Result A) where
    abbrev pub paused_transfer : Result (Unit {0}) → M F D (Result A)
    paused_transfer (err error) = settle b (is_connection_lost error) >> pure (err error)
    paused_transfer (ok _) = do
      result ← call transfer
      resume ← resume_display_if_unowned b
      settle b (is_lost result || lost resume)
      pure (outcome result)

    unfoldable pub themed : String → M F D (Result A)
    themed operation =
        when_ready_or_busy "a history dump is active"
          (do set_busy operation; paused ← ensure_display_paused b; paused_transfer paused)

  unfoldable pub read_theme_asset : ThemeAssetSlot → M F D (Result (List ℕ))
  read_theme_asset slot = themed (b.read_theme_asset slot) lost (λ r. r) "reading_theme_asset"

  unfoldable pub write_theme_asset : ThemeAssetSlot → List ℕ → M F D (Result (Unit {0}))
  write_theme_asset slot bytes =
      themed (b.write_theme_asset slot bytes) write_lost write_outcome "writing_theme_asset"

  -- `identity.clone().ok_or(NotConnected).expect(…)`: a ready manager has an identity, and the
  -- source panics where it has none.
  abbrev pub with_build : Option DeviceIdentity → String → String → Option DeviceIdentity
  with_build none product_name build_string = none
  with_build (some i) product_name build_string =
      some (record i { product_name = product_name; build_string = build_string })

  abbrev pub reply_identity : Option DeviceIdentity → Result DeviceIdentity
  reply_identity none = err not_connected
  reply_identity (some i) = ok i

  abbrev pub build_read : Result (String × String) → M F D (Result DeviceIdentity)
  build_read (ok (product_name, build_string)) = do
    change_state (λ s. record s { identity = with_build s.identity product_name build_string })
    identity ← gets (λ m. m.state.identity)
    set_ready
    pure (reply_identity identity)
  build_read (err error) = finish b connection_lost (err error)

  unfoldable pub read_device_info : M F D (Result DeviceIdentity)
  read_device_info = when_ready (do
    set_busy "reading_device_information"
    build ← call b.read_build_information
    build_read build)

  -- The `async` block: clear, wait, read.
  abbrev pub cleared : Result (Unit {0}) → M F D (Result (Telemetry F))
  cleared (err error) = pure (err error)
  cleared (ok _) = do effect (b.sleep 50); call b.read_telemetry

  abbrev pub faults_cleared : Result (Telemetry F) → M F D (Result (Telemetry F))
  faults_cleared (ok telemetry) = do
    stamped ←
        gets (λ m. record telemetry {
          session_id = m.state.session_id;
          sequence = m.state.sequence + 1;
        })
    change_state (λ s. record s { telemetry = some stamped })
    set_ready
    pure (ok stamped)
  faults_cleared (err error) = finish b operation_outcome_unknown (err error)

  unfoldable pub clear_faults : ℕ → ℕ → M F D (Result (Telemetry F))
  clear_faults active_mask logged_mask = when_ready (
      if has_unknown_faults active_mask || has_unknown_faults logged_mask
      then pure (err (invalid_argument "fault masks may contain only known bits 0x003f"))
      else if active_mask == 0 && logged_mask == 0
      then pure (err (invalid_argument "at least one active or logged fault must be selected"))
      else do
        set_busy "clearing_faults"
        done ← call (b.clear_faults active_mask logged_mask)
        result ← cleared done
        faults_cleared result)

  -- The interval is below 2 ^ 64 milliseconds.
  unfoldable pub get_poll_interval : M F D ℕ
  get_poll_interval = gets λ m. m.poll_interval

  unfoldable pub set_poll_interval : ℕ → M F D (Result ℕ)
  set_poll_interval milliseconds =
      if in_range 100 5000 milliseconds
      then modify (λ m. record m { poll_interval = milliseconds }) >> pure (ok milliseconds)
      else pure (err (invalid_argument "poll interval must be from 100 to 5000 milliseconds"))

  abbrev pub pause_taken : ℕ → Result (Unit {0}) → M F D (Result DisplayPauseState)
  pause_taken milliseconds (ok _) = do
    time ← now b
    modify (λ m. record m { debug_pause_expires_at = some (time + milliseconds) })
    paused ← display_pause_state b
    pure (ok paused)
  pause_taken milliseconds (err error) = pass b connection_lost (err error)

  unfoldable pub pause_display : ℕ → M F D (Result DisplayPauseState)
  pause_display milliseconds =
      if in_range 100 300000 milliseconds
      then (do
        connection ← gets (λ m. m.state.connection)
        if is_ready connection || is_busy connection
            then ensure_display_paused b >>= pause_taken milliseconds
            else pure (err not_connected))
      else pure (err (invalid_argument "display pause must be from 100 to 300000 milliseconds"))

  abbrev pub resumed : Result (Unit {0}) → M F D (Result DisplayPauseState)
  resumed (ok _) = do paused ← display_pause_state b; pure (ok paused)
  resumed (err error) = pass b connection_lost (err error)

  unfoldable pub resume_display : M F D (Result DisplayPauseState)
  resume_display = do
    modify (λ m. record m { debug_pause_expires_at = none })
    result ← resume_display_if_unowned b
    resumed result

  abbrev pub rebooted : Result (Unit {0}) → M F D (Result (Unit {0}))
  rebooted (ok _) = disconnect b DisconnectReason.device_reboot >> pure (ok tt)
  rebooted (err error) =
      if is_connection_lost error
      then disconnect b DisconnectReason.device_reboot >> pure (err operation_outcome_unknown)
      else set_ready >> pure (err error)

  unfoldable pub reboot_device : M F D (Result (Unit {0}))
  reboot_device =
      when_ready (do set_busy "rebooting_device"; result ← call b.reboot_device; rebooted result)
