-- ===== src/Manager/SequenceRuns.antt =====
-- What `Manager::run` of src/manager.rs publishes is numbered.
use wireview_pro_ii.Base.{◌≤◌, ◌<◌, ◌≡◌, ◌⊎◌, inl, inr, String, leb, arith, Bool-cases}
use wireview_pro_ii.Domain.Error.{connection_lost, operation_outcome_unknown, lost}
use wireview_pro_ii.Domain.Connection.{DisconnectReason, DaemonState}
use wireview_pro_ii.Config.Types.{NvmOperation}
use wireview_pro_ii.Manager.Backend.{Env}
use wireview_pro_ii.Manager.State.{M, set_busy, display_pause_state}
use wireview_pro_ii.Manager.Connection.{HostEvent, candidates, shutdown}
use wireview_pro_ii.Manager.Commands.{
  write_lost, write_outcome, get_poll_interval, read_theme_asset, write_theme_asset,
}
use wireview_pro_ii.Manager.Mutation.{Outcome}
use wireview_pro_ii.Manager.Dispatch.{
  Command, read_configuration_command, read_configuration_item_command, mutate,
  apply_configuration_command, set_configuration_item_command, reload_configuration_command,
  reset_configuration_command, handle_command,
}
use wireview_pro_ii.Manager.Loop.{
  Loop, run_timers, on_wake, on_host_event, on_command, Step, wake, host, command, outside, Reach,
  here, next,
}
use wireview_pro_ii.Manager.Frame.{
  Frames, Frames-apply_configuration, Frames-set_configuration_item, Frames-run_nvm_operation,
}
use wireview_pro_ii.Manager.Invariant.{Inv}
use wireview_pro_ii.Manager.Sequence.{
  IsLater, Numbers, call-Numbers, set_busy-Numbers, disconnect-Numbers, Same-IsLater,
  when_ready-Numbers, handle_host_event-Numbers,
}
use wireview_pro_ii.Manager.SequenceParts.{
  finish-Numbers, poll_once-Numbers, expire_history_dump-Numbers, expire_debug_pause-Numbers,
  retry_display_resume_cleanup-Numbers,
}
use wireview_pro_ii.Manager.SequenceCommands.{
  set_screen-Numbers, themed-Numbers, read_device_info-Numbers, clear_faults-Numbers,
  set_poll_interval-Numbers, pause_display-Numbers, resume_display-Numbers, reboot_device-Numbers,
  begin_history_dump-Numbers, read_history_dump_chunk-Numbers, end_history_dump-Numbers,
  read_history_chunk-Numbers,
}

module _ {F D : Type 0} (start : DaemonState F) (env : Env F D) where
  open env use {backend}

  read_configuration-Numbers : Numbers start (read_configuration_command env)
  unfolding read_configuration_command
  read_configuration-Numbers = when_ready-Numbers start _ λ m h.
      finish-Numbers start backend connection_lost _ _ (
        call-Numbers start backend.read_configuration _
          (set_busy-Numbers start "reading_configuration" m h))

  read_item-Numbers : (key : String) → Numbers start (read_configuration_item_command env key)
  unfolding read_configuration_item_command
  read_item-Numbers key = when_ready-Numbers start _ λ m h.
      finish-Numbers start backend connection_lost _ _ (
        call-Numbers start backend.read_configuration _
          (set_busy-Numbers start "reading_configuration_item" m h))

  mutate-Numbers :
      (operation : String) (change : M F D (Outcome env))
      → Frames change
      → Numbers start (mutate env operation change)
  unfolding mutate
  mutate-Numbers operation change f = when_ready-Numbers start _ λ m h.
      let m' = (set_busy operation m).1 in
      finish-Numbers start backend operation_outcome_unknown _ _
        (Same-IsLater start _ _ (f m') (set_busy-Numbers start operation m h))

  handle_command-Numbers : (c : Command F) → Numbers start (handle_command env c)
  unfolding handle_command get_poll_interval display_pause_state apply_configuration_command
      set_configuration_item_command reload_configuration_command reset_configuration_command
      read_theme_asset write_theme_asset
  handle_command-Numbers (Command.set_screen screen) m h =
      set_screen-Numbers start backend screen m h
  handle_command-Numbers (Command.read_history_chunk offset size) m h =
      read_history_chunk-Numbers start backend offset size m h
  handle_command-Numbers (Command.read_theme_asset slot) m h =
      themed-Numbers start backend (backend.read_theme_asset slot) lost (λ r. r)
        "reading_theme_asset" m h
  handle_command-Numbers (Command.write_theme_asset slot content) m h =
      themed-Numbers start backend (backend.write_theme_asset slot content) write_lost write_outcome
        "writing_theme_asset" m h
  handle_command-Numbers Command.begin_history_dump m h =
      begin_history_dump-Numbers start backend m h
  handle_command-Numbers (Command.read_history_dump_chunk dump_id offset size) m h =
      read_history_dump_chunk-Numbers start backend dump_id offset size m h
  handle_command-Numbers (Command.end_history_dump dump_id) m h =
      end_history_dump-Numbers start backend dump_id m h
  handle_command-Numbers Command.read_device_info m h = read_device_info-Numbers start backend m h
  handle_command-Numbers (Command.clear_faults active logged) m h =
      clear_faults-Numbers start backend active logged m h
  handle_command-Numbers Command.get_poll_interval m h = h
  handle_command-Numbers (Command.set_poll_interval ms) m h =
      set_poll_interval-Numbers start backend ms m h
  handle_command-Numbers Command.get_display_pause m h = h
  handle_command-Numbers (Command.pause_display ms) m h = pause_display-Numbers start backend ms m h
  handle_command-Numbers Command.resume_display m h = resume_display-Numbers start backend m h
  handle_command-Numbers Command.read_configuration m h = read_configuration-Numbers m h
  handle_command-Numbers (Command.read_configuration_item key) m h = read_item-Numbers key m h
  handle_command-Numbers (Command.apply_configuration c persist revision) m h =
      mutate-Numbers _ _ (Frames-apply_configuration env c persist revision) m h
  handle_command-Numbers (Command.set_configuration_item key value persist) m h =
      mutate-Numbers _ _ (Frames-set_configuration_item env key value persist) m h
  handle_command-Numbers Command.reload_configuration m h =
      mutate-Numbers _ _ (Frames-run_nvm_operation env NvmOperation.reload) m h
  handle_command-Numbers Command.reset_configuration m h =
      mutate-Numbers _ _ (Frames-run_nvm_operation env NvmOperation.reset) m h
  handle_command-Numbers Command.reboot_device m h = reboot_device-Numbers start backend m h

  run_timers-Numbers : Numbers start (run_timers env)
  unfolding run_timers
  run_timers-Numbers m h =
      retry_display_resume_cleanup-Numbers start backend _
        (expire_debug_pause-Numbers start backend _ (expire_history_dump-Numbers start backend m h))

  on_wake-IsLater : (l : Loop F D) → IsLater start l.manager → IsLater start (on_wake env l).manager
  unfolding on_wake
  on_wake-IsLater l h =
      let m = (run_timers env l.manager).1 in
      elim (Bool-cases (leb l.next_poll (backend.now m.device))) [
        | inl due ↦ rw due (poll_once-Numbers start backend m (run_timers-Numbers l.manager h))
        | inr early ↦ rw early (run_timers-Numbers l.manager h)
      ]

  on_host_event-IsLater :
      (e : HostEvent) (l : Loop F D)
      → IsLater start l.manager
      → IsLater start (on_host_event env e l).manager
  unfolding on_host_event
  on_host_event-IsLater shutdown l h =
      disconnect-Numbers start backend DisconnectReason.shutdown l.manager h
  on_host_event-IsLater (candidates found) l h =
      handle_host_event-Numbers start backend (candidates found) l.manager h

  Step-IsLater : (l k : Loop F D) → Step env l k → IsLater start l.manager → IsLater start k.manager
  unfolding on_command
  Step-IsLater l _ (wake running due) h = on_wake-IsLater l h
  Step-IsLater l _ (host e running) h = on_host_event-IsLater e l h
  Step-IsLater l _ (command c running) h = handle_command-Numbers c l.manager h
  Step-IsLater l _ (outside d) h = ground arith

  Reach-IsLater :
      (l k : Loop F D) → Reach env l k → IsLater start l.manager → IsLater start k.manager
  Reach-IsLater l _ here h = h
  Reach-IsLater l k (next {k = j} r s) h = Step-IsLater j k s (Reach-IsLater l j r h)

-- From a sound manager on, however many turns the loop takes, the published state either is still
-- the same or has a higher sequence number, and the number does not fall: a subscriber sees every
-- change of the published state by its number.
pub numbered :
    {F D : Type 0} (env : Env F D) (l k : Loop F D)
    → Inv l.manager
    → Reach env l k
    → (l.manager.published.sequence ≤ k.manager.state.sequence)
      × ((k.manager.published ≡ l.manager.published)
          ⊎ (l.manager.published.sequence < k.manager.published.sequence))
numbered env l k i r =
    let now_later : IsLater l.manager.published l.manager = ground arith in
    let later = Reach-IsLater l.manager.published env l k r now_later in (later.grown, later.told)
