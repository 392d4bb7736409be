-- ===== src/Examples/Turns.antt =====
-- Turns of the manager's loop at concrete inputs.
use wireview_pro_ii.Base.{ℕ, ◌+◌, ◌≤◌, ◌<◌, ◌≡◌, refl, true, false, [], ◌∷◌, none, some, arith}
use wireview_pro_ii.Domain.Error.{connection_lost, transport, err}
use wireview_pro_ii.Domain.Telemetry.{Screen}
use wireview_pro_ii.Domain.Connection.{ConnectionState, is_ready}
use wireview_pro_ii.Manager.State.{Manager}
use wireview_pro_ii.Manager.Display.{is_owned}
use wireview_pro_ii.Manager.Connection.{
  candidates, retry_delay, next_attempt, connection_failed, handle_candidates,
}
use wireview_pro_ii.Manager.Dump.{read_history_chunk}
use wireview_pro_ii.Manager.Dispatch.{Command, handle_command}
use wireview_pro_ii.Manager.Loop.{
  Loop, Reach, here, next, host, command, on_host_event, on_command, spawn_manager,
}
use wireview_pro_ii.Manager.Invariant.{Inv}
use wireview_pro_ii.Manager.Runs.{run-Inv}
use wireview_pro_ii.Manager.Resumes.{IsCovered}
use wireview_pro_ii.Manager.ResumeRuns.{Step-IsCovered}
use wireview_pro_ii.Manager.Exclusive.{failed, dump_untouched, read_history_chunk-hides_loss}
use wireview_pro_ii.Manager.Backoff.{retry_delay_lem, failed_port_waits}
use wireview_pro_ii.Manager.Leases.{is_due_by, wake_at_lem, lease_ends}
use wireview_pro_ii.Manager.Loop.{dump_expires_at, wake_at, run_timers}
use wireview_pro_ii.Manager.SequenceRuns.{numbered}
use wireview_pro_ii.Base.{◌⊎◌}
use wireview_pro_ii.Examples.Fixtures.{Device, Answers, device, env_of, backend_of, sound, attached}

abbrev started : Loop ℕ Device
started = spawn_manager (env_of sound) device 500

-- The device is plugged in, and a client starts a history dump.
abbrev plugged : Loop ℕ Device
plugged = on_host_event (env_of sound) (candidates ("p" ∷ [])) started

abbrev dumped : Loop ℕ Device
dumped = on_command (env_of sound) Command.begin_history_dump plugged

run : Reach (env_of sound) started dumped
unfolding spawn_manager on_host_event
run = next (next here (host (candidates ("p" ∷ [])) refl)) (command Command.begin_history_dump refl)

run-Inv_example : Inv dumped.manager
run-Inv_example = run-Inv (env_of sound) device 500 dumped run

abbrev loop : Loop ℕ Device
loop = record { manager = attached; next_poll = 5200; running = true }

attached-Inv : Inv attached
attached-Inv = ground arith

attached-IsCovered : IsCovered attached
attached-IsCovered = ground arith

Step-IsCovered_example :
    IsCovered (on_command (env_of sound) Command.begin_history_dump loop).manager
Step-IsCovered_example =
    Step-IsCovered (env_of sound) loop _ (command Command.begin_history_dump refl) refl attached-Inv
      attached-IsCovered

-- The manager during a dump.
abbrev dumping : Manager ℕ Device
dumping = record attached {
  active_history_dump =
      some (record { id = 1; session_id = 1; expires_at = 15000; cancellation = 0 });
  next_history_dump_id = 1;
  display_physically_paused = true;
  history_cancellation = some (1, 0);
  state = record (attached.state) { connection = ConnectionState.busy 1 "reading_device_history" };
  published = record (attached.state) {
    connection = ConnectionState.busy 1 "reading_device_history";
  };
}

dumping-Inv : Inv dumping
dumping-Inv = ground arith

dump_untouched_example :
    (failed (handle_command (env_of sound) (Command.set_screen Screen.main) dumping).0 ≡ true)
    × ((handle_command (env_of sound) (Command.set_screen Screen.main) dumping).1 ≡ dumping)
dump_untouched_example =
    dump_untouched (env_of sound) (Command.set_screen Screen.main) dumping dumping-Inv refl refl

abbrev silent : Answers
silent = record sound { telemetry = err (transport "timeout") }

abbrev hiding : Answers
hiding = record sound { chunk = err (transport "bad chunk"); resume = err connection_lost }

read_history_chunk-hides_loss_example :
    (is_ready (read_history_chunk (backend_of hiding) 0 256 attached).1.state.connection ≡ true)
    × ((read_history_chunk (backend_of hiding) 0 256 attached).1.display_physically_paused ≡ true)
    × (is_owned (read_history_chunk (backend_of hiding) 0 256 attached).1 ≡ false)
    × ((read_history_chunk (backend_of hiding) 0 256 attached).1.display_resume_retry_at ≡ none)
read_history_chunk-hides_loss_example =
    read_history_chunk-hides_loss (backend_of hiding) 0 256 (transport "bad chunk") attached refl
      refl refl refl (λ d. refl) (λ n c d. refl) (λ d. refl)

retry_delay_lem_example :
    (250 ≤ retry_delay 2) × (retry_delay 2 ≤ retry_delay 9) × (retry_delay 9 ≤ 30000)
retry_delay_lem_example = retry_delay_lem 2 9 (ground arith)

soon : 5100 < 5000 + retry_delay (next_attempt "p" none)
unfolding retry_delay next_attempt
soon = ground arith

-- The manager after the port "p" could not be opened, a little later.
abbrev waiting : Manager ℕ Device
waiting = record ((connection_failed (backend_of sound) "p" (transport "open") attached).1) {
  device = record device { time = 5100 };
}

failed_port_waits_example : (handle_candidates (backend_of sound) ("p" ∷ []) waiting).1 ≡ waiting
failed_port_waits_example =
    failed_port_waits (backend_of sound) "p" (transport "open") (record device { time = 5100 })
      attached refl soon

wake_at_lem_example :
    (wake_at (env_of sound) loop ≤ 5200)
    × (is_due_by (wake_at (env_of sound) loop) (dump_expires_at (env_of sound) attached) ≡ true)
    × (is_due_by (wake_at (env_of sound) loop) attached.debug_pause_expires_at ≡ true)
    × (is_due_by (wake_at (env_of sound) loop) attached.display_resume_retry_at ≡ true)
wake_at_lem_example = wake_at_lem (env_of sound) loop

-- The debug pause ran out a second ago.
abbrev overdue : Manager ℕ Device
overdue = record attached { debug_pause_expires_at = some 4000; display_physically_paused = true }

same_time : (d : Device) → d.time ≤ d.time
same_time d = ground arith

lease_ends_example : (run_timers (env_of sound) overdue).1.debug_pause_expires_at ≡ none
lease_ends_example = lease_ends (env_of sound) 4000 overdue same_time same_time refl (ground arith)

abbrev loop_dumping : Loop ℕ Device
loop_dumping = on_command (env_of sound) Command.begin_history_dump loop

numbered_example :
    (3 ≤ loop_dumping.manager.state.sequence)
    × ((loop_dumping.manager.published ≡ attached.published)
        ⊎ (3 < loop_dumping.manager.published.sequence))
numbered_example =
    numbered (env_of sound) loop loop_dumping attached-Inv
      (next here (command Command.begin_history_dump refl))
