-- ===== src/Manager/ResumeRuns.antt =====
-- Every turn of `Manager::run` in src/manager.rs leaves a paused display owned or its resume due,
-- but for the command `ReadHistoryChunk`, which can hide a lost connection.
use wireview_pro_ii.Base.{◌≡◌, String, Bool, true, false, inl, inr, arith, Bool-cases, leb}
use wireview_pro_ii.Domain.Error.{connection_lost, operation_outcome_unknown, lost}
use wireview_pro_ii.Domain.Connection.{DisconnectReason}
use wireview_pro_ii.Config.Types.{NvmOperation}
use wireview_pro_ii.Manager.Backend.{Env}
use wireview_pro_ii.Manager.State.{Manager, M, set_busy, display_pause_state}
use wireview_pro_ii.Manager.Connection.{HostEvent, candidates, shutdown}
use wireview_pro_ii.Manager.Commands.{
  write_lost, write_outcome, read_theme_asset, write_theme_asset, get_poll_interval,
}
use wireview_pro_ii.Manager.Invariant.{Inv}
use wireview_pro_ii.Manager.Frame.{Frames}
use wireview_pro_ii.Manager.Answers.{call-IsWorking, started}
use wireview_pro_ii.Manager.Resumes.{
  IsCovered, set_busy-IsCovered, disconnect-IsCovered, finish-IsCovered, call-IsCovered,
}
use wireview_pro_ii.Manager.Answers.{Same-IsWorking}
use wireview_pro_ii.Manager.Dispatch.{
  Command, read_configuration_command, read_configuration_item_command, mutate,
  apply_configuration_command, set_configuration_item_command, reload_configuration_command,
  reset_configuration_command, handle_command,
}
use wireview_pro_ii.Manager.Mutation.{Outcome}
use wireview_pro_ii.Manager.Frame.{
  Frames-apply_configuration, Frames-set_configuration_item, Frames-run_nvm_operation,
}
use wireview_pro_ii.Manager.Loop.{
  Loop, run_timers, on_wake, on_host_event, on_command, Step, wake, host, command, outside,
}
use wireview_pro_ii.Manager.Pauses.{expire_history_dump-Inv, expire_debug_pause-Inv}
use wireview_pro_ii.Manager.Runs.{run_timers-Inv}
use wireview_pro_ii.Manager.ResumeTimers.{
  poll_once-IsCovered, expire_history_dump-IsCovered, expire_debug_pause-IsCovered,
  retry_display_resume_cleanup-IsCovered,
}
use wireview_pro_ii.Manager.ResumeHost.{handle_host_event-IsCovered}
use wireview_pro_ii.Manager.Resumes.{Same-IsCovered}
use wireview_pro_ii.Manager.ResumeCommands.{
  when_ready-IsCovered, set_screen-IsCovered, themed-IsCovered, read_device_info-IsCovered,
  clear_faults-IsCovered, set_poll_interval-IsCovered, pause_display-IsCovered,
  resume_display-IsCovered, reboot_device-IsCovered,
}
use wireview_pro_ii.Manager.ResumeDumps.{
  begin_history_dump-IsCovered, read_history_dump_chunk-IsCovered, end_history_dump-IsCovered,
}

-- Every command but the one that reads a single chunk of the history.
abbrev pub is_single_chunk : {F : Type 0} → Command F → Bool
is_single_chunk (Command.read_history_chunk offset size) = true
is_single_chunk _ = false

module _ {F D : Type 0} (env : Env F D) where
  open env use {backend}

  abbrev pub reads_single_chunk : {l k : Loop F D} → Step env l k → Bool
  reads_single_chunk (command c running) = is_single_chunk c
  reads_single_chunk _ = false

  -- A change that only touches the outside can run as a command.
  mutate-IsCovered :
      (operation : String) (change : M F D (Outcome env))
      → Frames change
      → (m : Manager F D) → Inv m
      → IsCovered m
      → IsCovered (mutate env operation change m).1
  unfolding mutate
  mutate-IsCovered operation change f m i c = when_ready-IsCovered _ m c λ r.
      let m' = (set_busy operation m).1 in
      finish-IsCovered backend operation_outcome_unknown _ _
        (Same-IsWorking _ _ (f m') (started operation m i r))
        (λ _. Same-IsCovered _ _ (f m') (set_busy-IsCovered operation m c))

  read_configuration-IsCovered :
      (m : Manager F D) → Inv m → IsCovered m → IsCovered (read_configuration_command env m).1
  unfolding read_configuration_command
  read_configuration-IsCovered m i c =
      let busy = (set_busy "reading_configuration" m).1 in
      when_ready-IsCovered _ m c λ r.
        finish-IsCovered backend connection_lost _ _
          (call-IsWorking backend.read_configuration _ (started "reading_configuration" m i r))
          (λ _.
            call-IsCovered backend backend.read_configuration busy
              (set_busy-IsCovered "reading_configuration" m c))

  read_item-IsCovered :
      (key : String) (m : Manager F D)
      → Inv m
      → IsCovered m
      → IsCovered (read_configuration_item_command env key m).1
  unfolding read_configuration_item_command
  read_item-IsCovered key m i c =
      let busy = (set_busy "reading_configuration_item" m).1 in
      when_ready-IsCovered _ m c λ r.
        finish-IsCovered backend connection_lost _ _
          (call-IsWorking backend.read_configuration _ (started "reading_configuration_item" m i r))
          (λ _.
            call-IsCovered backend backend.read_configuration busy
              (set_busy-IsCovered "reading_configuration_item" m c))

  pub handle_command-IsCovered :
      (c : Command F) (m : Manager F D)
      → is_single_chunk c ≡ false
      → Inv m
      → IsCovered m
      → IsCovered (handle_command env c m).1
  unfolding handle_command get_poll_interval display_pause_state apply_configuration_command
      set_configuration_item_command reload_configuration_command reset_configuration_command
      read_theme_asset write_theme_asset
  handle_command-IsCovered (Command.set_screen screen) m o i c =
      set_screen-IsCovered backend screen m i c
  handle_command-IsCovered (Command.read_history_chunk offset size) m o i c = ground arith
  handle_command-IsCovered (Command.read_theme_asset slot) m o i c =
      themed-IsCovered backend (backend.read_theme_asset slot) lost (λ r. r) "reading_theme_asset" m
        i c
  handle_command-IsCovered (Command.write_theme_asset slot content) m o i c =
      themed-IsCovered backend (backend.write_theme_asset slot content) write_lost write_outcome
        "writing_theme_asset" m i c
  handle_command-IsCovered Command.begin_history_dump m o i c =
      begin_history_dump-IsCovered backend m i c
  handle_command-IsCovered (Command.read_history_dump_chunk dump_id offset size) m o i c =
      read_history_dump_chunk-IsCovered backend dump_id offset size m i c
  handle_command-IsCovered (Command.end_history_dump dump_id) m o i c =
      end_history_dump-IsCovered backend dump_id m i c
  handle_command-IsCovered Command.read_device_info m o i c =
      read_device_info-IsCovered backend m i c
  handle_command-IsCovered (Command.clear_faults active logged) m o i c =
      clear_faults-IsCovered backend active logged m i c
  handle_command-IsCovered Command.get_poll_interval m o i c = c
  handle_command-IsCovered (Command.set_poll_interval ms) m o i c =
      set_poll_interval-IsCovered backend ms m c
  handle_command-IsCovered Command.get_display_pause m o i c = c
  handle_command-IsCovered (Command.pause_display ms) m o i c =
      pause_display-IsCovered backend ms m i c
  handle_command-IsCovered Command.resume_display m o i c = resume_display-IsCovered backend m i
  handle_command-IsCovered Command.read_configuration m o i c = read_configuration-IsCovered m i c
  handle_command-IsCovered (Command.read_configuration_item key) m o i c =
      read_item-IsCovered key m i c
  handle_command-IsCovered (Command.apply_configuration cfg persist revision) m o i c =
      mutate-IsCovered _ _ (Frames-apply_configuration env cfg persist revision) m i c
  handle_command-IsCovered (Command.set_configuration_item key value persist) m o i c =
      mutate-IsCovered _ _ (Frames-set_configuration_item env key value persist) m i c
  handle_command-IsCovered Command.reload_configuration m o i c =
      mutate-IsCovered _ _ (Frames-run_nvm_operation env NvmOperation.reload) m i c
  handle_command-IsCovered Command.reset_configuration m o i c =
      mutate-IsCovered _ _ (Frames-run_nvm_operation env NvmOperation.reset) m i c
  handle_command-IsCovered Command.reboot_device m o i c = reboot_device-IsCovered backend m i c

  run_timers-IsCovered : (m : Manager F D) → Inv m → IsCovered m → IsCovered (run_timers env m).1
  unfolding run_timers
  run_timers-IsCovered m i c =
      let dumped = expire_history_dump-Inv backend m i in
      let paused = expire_debug_pause-Inv backend _ dumped in
      retry_display_resume_cleanup-IsCovered backend _ paused (
        expire_debug_pause-IsCovered backend _ dumped (expire_history_dump-IsCovered backend m i c))

  on_wake-IsCovered :
      (l : Loop F D) → Inv l.manager → IsCovered l.manager → IsCovered (on_wake env l).manager
  unfolding on_wake
  on_wake-IsCovered l i c =
      let m = (run_timers env l.manager).1 in
      elim (Bool-cases (leb l.next_poll (backend.now m.device))) [
        | inl due ↦ rw due (
            poll_once-IsCovered backend m (run_timers-Inv env l.manager i)
              (run_timers-IsCovered l.manager i c))
        | inr early ↦ rw early (run_timers-IsCovered l.manager i c)
      ]

  on_host_event-IsCovered :
      (e : HostEvent) (l : Loop F D)
      → Inv l.manager
      → IsCovered l.manager
      → IsCovered (on_host_event env e l).manager
  unfolding on_host_event
  on_host_event-IsCovered shutdown l i c =
      disconnect-IsCovered backend DisconnectReason.shutdown l.manager i
  on_host_event-IsCovered (candidates found) l i c =
      handle_host_event-IsCovered backend (candidates found) l.manager i c

  -- A turn of a sound manager whose paused display is owned, or due to be resumed, leaves it so,
  -- if the turn is not the command that reads a single chunk of the history.
  pub Step-IsCovered :
      (l k : Loop F D) (s : Step env l k)
      → reads_single_chunk s ≡ false
      → Inv l.manager
      → IsCovered l.manager
      → IsCovered k.manager
  unfolding on_command
  Step-IsCovered l _ (wake running due) o i c = on_wake-IsCovered l i c
  Step-IsCovered l _ (host e running) o i c = on_host_event-IsCovered e l i c
  Step-IsCovered l _ (command cmd running) o i c = handle_command-IsCovered cmd l.manager o i c
  Step-IsCovered l _ (outside d) o i c = ground arith
