-- ===== src/Manager/Exclusive.antt =====
-- What the commands of src/manager.rs do while a history dump is active, and what a hidden loss of
-- the connection does to the display.
use wireview_pro_ii.Base.{ℕ, ◌≡◌, Bool, true, false, ◌||◌, Option, none, is_some, arith}
use wireview_pro_ii.Domain.Error.{DeviceError, connection_lost, ok, err, is_connection_lost}
use wireview_pro_ii.Domain.Connection.{DisconnectReason, is_ready, is_busy, absent}
use wireview_pro_ii.Manager.Backend.{Backend, Env}
use wireview_pro_ii.Manager.State.{
  Manager, set_busy, set_ready, bump_and_publish, clear_history_cancellation,
}
use wireview_pro_ii.Manager.Display.{is_owned, ensure_display_paused, resume_display_if_unowned}
use wireview_pro_ii.Manager.Connection.{disconnect}
use wireview_pro_ii.Manager.Dump.{begin_history_dump, read_history_chunk}
use wireview_pro_ii.Manager.Commands.{
  themed, read_theme_asset, write_theme_asset, set_screen, clear_faults, read_device_info,
  reboot_device,
}
use wireview_pro_ii.Manager.Reply.{finish}
use wireview_pro_ii.Manager.Dispatch.{
  Command, Reply, done, bytes, dump, device_info, faults, new_interval, new_display, configuration,
  item, read_configuration_command, read_configuration_item_command, mutate,
  apply_configuration_command, set_configuration_item_command, reload_configuration_command,
  reset_configuration_command, handle_command,
}
use wireview_pro_ii.Manager.Invariant.{Inv}

-- The commands that talk to the device and do not belong to a dump or to the display pause.
abbrev pub needs_ready : {F : Type 0} → Command F → Bool
needs_ready (Command.read_history_dump_chunk dump_id offset size) = false
needs_ready (Command.end_history_dump dump_id) = false
needs_ready Command.get_poll_interval = false
needs_ready (Command.set_poll_interval ms) = false
needs_ready Command.get_display_pause = false
needs_ready (Command.pause_display ms) = false
needs_ready Command.resume_display = false
needs_ready _ = true

-- The client is told of a failure.
abbrev pub failed : {F : Type 0} → Reply F → Bool
failed (done (err e)) = true
failed (bytes (err e)) = true
failed (dump (err e)) = true
failed (device_info (err e)) = true
failed (faults (err e)) = true
failed (new_interval (err e)) = true
failed (new_display (err e)) = true
failed (configuration (err e)) = true
failed (item (err e)) = true
failed _ = false

module _ {F D : Type 0} (env : Env F D) where
  -- While no device is ready, and so while a dump is active, every command that would talk to the
  -- device is answered with an error, and changes nothing.
  pub not_ready_untouched :
      (c : Command F) (m : Manager F D)
      → is_ready m.state.connection ≡ false
      → needs_ready c ≡ true
      → (failed (handle_command env c m).0 ≡ true) × ((handle_command env c m).1 ≡ m)
  unfolding handle_command read_configuration_command read_configuration_item_command mutate
      apply_configuration_command set_configuration_item_command reload_configuration_command
      reset_configuration_command begin_history_dump read_history_chunk themed read_theme_asset
      write_theme_asset set_screen clear_faults read_device_info reboot_device
  not_ready_untouched c m r n = ground arith

  -- While a history dump is active at a manager that keeps its invariant, every command that would
  -- talk to the device and belongs neither to the dump nor to the display pause is answered with an
  -- error and leaves the manager, and so the device, as it was.
  pub dump_untouched :
      (c : Command F) (m : Manager F D)
      → Inv m
      → is_some m.active_history_dump ≡ true
      → needs_ready c ≡ true
      → (failed (handle_command env c m).0 ≡ true) × ((handle_command env c m).1 ≡ m)
  dump_untouched c m i a n = not_ready_untouched c m (ground arith) n

module _ {F D : Type 0} (b : Backend F D) where
  -- When the read of a single chunk fails, and the connection is lost while the display is resumed,
  -- the manager stays ready with the display paused, owned by nobody, and no resume is scheduled.
  pub read_history_chunk-hides_loss :
      (offset size : ℕ) (error : DeviceError) (m : Manager F D)
      → is_ready m.state.connection ≡ true
      → is_owned m ≡ false
      → m.display_physically_paused ≡ false
      → is_connection_lost error ≡ false
      → ((d : D) → (b.pause_history_updates d).0 ≡ ok tt)
      → ((n : ℕ) (c : Option ℕ) (d : D) → (b.read_history_chunk offset size n c d).0 ≡ err error)
      → ((d : D) → (b.resume_history_updates d).0 ≡ err connection_lost)
      → (is_ready (read_history_chunk b offset size m).1.state.connection ≡ true)
        × ((read_history_chunk b offset size m).1.display_physically_paused ≡ true)
        × (is_owned (read_history_chunk b offset size m).1 ≡ false)
        × ((read_history_chunk b offset size m).1.display_resume_retry_at ≡ none)
  unfolding read_history_chunk set_busy set_ready ensure_display_paused resume_display_if_unowned
      finish
  read_history_chunk-hides_loss offset size error m r o p e pausing reading resuming = grind arith

  pub gone :
      (reason : DisconnectReason) (m : Manager F D)
      → is_ready m.state.connection || is_busy m.state.connection ≡ true
      → (disconnect b reason m).1.state.connection ≡ absent reason
  unfolding disconnect clear_history_cancellation bump_and_publish
  gone reason m a = ground arith
