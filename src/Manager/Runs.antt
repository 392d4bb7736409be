-- ===== src/Manager/Runs.antt =====
-- Every turn of `Manager::run` in src/manager.rs keeps the invariant.
use wireview_pro_ii.Base.{ℕ, String, inl, inr, arith, Bool-cases, leb}
use wireview_pro_ii.Domain.Error.{connection_lost, operation_outcome_unknown}
use wireview_pro_ii.Domain.Connection.{DisconnectReason}
use wireview_pro_ii.Config.Types.{NvmOperation}
use wireview_pro_ii.Manager.Backend.{Env}
use wireview_pro_ii.Manager.State.{Manager, M, set_busy, display_pause_state}
use wireview_pro_ii.Manager.Connection.{HostEvent, candidates, shutdown}
use wireview_pro_ii.Manager.Commands.{get_poll_interval}
use wireview_pro_ii.Manager.Mutation.{Outcome}
use wireview_pro_ii.Manager.Dispatch.{
  Command, read_configuration_command, read_configuration_item_command, mutate,
  apply_configuration_command, set_configuration_item_command, reload_configuration_command,
  reset_configuration_command, handle_command,
}
use wireview_pro_ii.Manager.Loop.{
  Loop, run_timers, on_wake, on_host_event, on_command, spawn_manager, Step, wake, host, command,
  outside, Reach, here, next,
}
use wireview_pro_ii.Manager.Invariant.{Inv, initial-Inv}
use wireview_pro_ii.Manager.Keeps.{disconnect-Inv}
use wireview_pro_ii.Manager.Discovery.{handle_host_event-Inv}
use wireview_pro_ii.Manager.Pauses.{
  poll_once-Inv, expire_history_dump-Inv, expire_debug_pause-Inv, retry_display_resume_cleanup-Inv,
}
use wireview_pro_ii.Manager.Frame.{
  Frames, Frames-apply_configuration, Frames-set_configuration_item, Frames-run_nvm_operation,
}
use wireview_pro_ii.Manager.Answers.{
  call-IsWorking, Same-IsWorking, started, when_ready-Inv, finish-Inv,
}
use wireview_pro_ii.Manager.DumpKeeps.{
  begin_history_dump-Inv, read_history_dump_chunk-Inv, end_history_dump-Inv, read_history_chunk-Inv,
}
use wireview_pro_ii.Manager.CommandKeeps.{
  set_screen-Inv, read_theme_asset-Inv, write_theme_asset-Inv, read_device_info-Inv,
  clear_faults-Inv, set_poll_interval-Inv, pause_display-Inv, resume_display-Inv, reboot_device-Inv,
}

module _ {F D : Type 0} (env : Env F D) where
  open env use {backend}

  read_configuration-Inv : (m : Manager F D) → Inv m → Inv (read_configuration_command env m).1
  unfolding read_configuration_command
  read_configuration-Inv m i = when_ready-Inv _ m i λ r.
      finish-Inv backend connection_lost _ _
        (call-IsWorking backend.read_configuration _ (started "reading_configuration" m i r))

  read_configuration_item-Inv :
      (key : String) (m : Manager F D) → Inv m → Inv (read_configuration_item_command env key m).1
  unfolding read_configuration_item_command
  read_configuration_item-Inv key m i = when_ready-Inv _ m i λ r.
      finish-Inv backend connection_lost _ _
        (call-IsWorking backend.read_configuration _ (started "reading_configuration_item" m i r))

  -- A change that only touches the outside can run as a command.
  mutate-Inv :
      (operation : String) (change : M F D (Outcome env))
      → Frames change
      → (m : Manager F D) → Inv m
      → Inv (mutate env operation change m).1
  unfolding mutate
  mutate-Inv operation change f m i = when_ready-Inv _ m i λ r.
      finish-Inv backend operation_outcome_unknown _ _
        (Same-IsWorking _ _ (f (set_busy operation m).1) (started operation m i r))

  -- A command keeps the invariant, whatever the device answers.
  pub handle_command-Inv :
      (c : Command F) (m : Manager F D) → Inv m → Inv (handle_command env c m).1
  unfolding handle_command get_poll_interval display_pause_state apply_configuration_command
      set_configuration_item_command reload_configuration_command reset_configuration_command
  handle_command-Inv (Command.set_screen screen) m i = set_screen-Inv backend screen m i
  handle_command-Inv (Command.read_history_chunk offset size) m i =
      read_history_chunk-Inv backend offset size m i
  handle_command-Inv (Command.read_theme_asset slot) m i = read_theme_asset-Inv backend slot m i
  handle_command-Inv (Command.write_theme_asset slot content) m i =
      write_theme_asset-Inv backend slot content m i
  handle_command-Inv Command.begin_history_dump m i = begin_history_dump-Inv backend m i
  handle_command-Inv (Command.read_history_dump_chunk dump_id offset size) m i =
      read_history_dump_chunk-Inv backend dump_id offset size m i
  handle_command-Inv (Command.end_history_dump dump_id) m i =
      end_history_dump-Inv backend dump_id m i
  handle_command-Inv Command.read_device_info m i = read_device_info-Inv backend m i
  handle_command-Inv (Command.clear_faults active logged) m i =
      clear_faults-Inv backend active logged m i
  handle_command-Inv Command.get_poll_interval m i = i
  handle_command-Inv (Command.set_poll_interval ms) m i = set_poll_interval-Inv backend ms m i
  handle_command-Inv Command.get_display_pause m i = i
  handle_command-Inv (Command.pause_display ms) m i = pause_display-Inv backend ms m i
  handle_command-Inv Command.resume_display m i = resume_display-Inv backend m i
  handle_command-Inv Command.read_configuration m i = read_configuration-Inv m i
  handle_command-Inv (Command.read_configuration_item key) m i = read_configuration_item-Inv key m i
  handle_command-Inv (Command.apply_configuration c persist revision) m i =
      mutate-Inv _ _ (Frames-apply_configuration env c persist revision) m i
  handle_command-Inv (Command.set_configuration_item key value persist) m i =
      mutate-Inv _ _ (Frames-set_configuration_item env key value persist) m i
  handle_command-Inv Command.reload_configuration m i =
      mutate-Inv _ _ (Frames-run_nvm_operation env NvmOperation.reload) m i
  handle_command-Inv Command.reset_configuration m i =
      mutate-Inv _ _ (Frames-run_nvm_operation env NvmOperation.reset) m i
  handle_command-Inv Command.reboot_device m i = reboot_device-Inv backend m i

  pub run_timers-Inv : (m : Manager F D) → Inv m → Inv (run_timers env m).1
  unfolding run_timers
  run_timers-Inv m i =
      retry_display_resume_cleanup-Inv backend _
        (expire_debug_pause-Inv backend _ (expire_history_dump-Inv backend m i))

  on_wake-Inv : (l : Loop F D) → Inv l.manager → Inv (on_wake env l).manager
  unfolding on_wake
  on_wake-Inv l i =
      let m = (run_timers env l.manager).1 in
      elim (Bool-cases (leb l.next_poll (backend.now m.device))) [
        | inl due ↦ rw due (poll_once-Inv backend m (run_timers-Inv l.manager i))
        | inr early ↦ rw early (run_timers-Inv l.manager i)
      ]

  on_host_event-Inv :
      (e : HostEvent) (l : Loop F D) → Inv l.manager → Inv (on_host_event env e l).manager
  unfolding on_host_event
  on_host_event-Inv shutdown l i = disconnect-Inv backend DisconnectReason.shutdown l.manager i
  on_host_event-Inv (candidates found) l i =
      handle_host_event-Inv backend (candidates found) l.manager i

  Step-Inv : (l k : Loop F D) → Step env l k → Inv l.manager → Inv k.manager
  unfolding on_command
  Step-Inv l _ (wake running due) i = on_wake-Inv l i
  Step-Inv l _ (host e running) i = on_host_event-Inv e l i
  Step-Inv l _ (command c running) i = handle_command-Inv c l.manager i
  Step-Inv l _ (outside d) i = ground arith

  pub Reach-Inv : (l k : Loop F D) → Reach env l k → Inv l.manager → Inv k.manager
  Reach-Inv l _ here i = i
  Reach-Inv l k (next {k = j} r s) i = Step-Inv j k s (Reach-Inv l j r i)

  -- Whatever the device, the host and the clients do, every manager that is reached from a started
  -- one is sound: the published state is the current one, and the connection state says which
  -- port, identity, reading and leases it holds.
  pub run-Inv :
      (d : D) (poll_interval : ℕ) (l : Loop F D)
      → Reach env (spawn_manager env d poll_interval) l
      → Inv l.manager
  unfolding spawn_manager
  run-Inv d poll_interval l r = Reach-Inv _ l r (initial-Inv d poll_interval)
