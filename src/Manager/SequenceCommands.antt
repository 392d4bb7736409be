-- ===== src/Manager/SequenceCommands.antt =====
-- What src/manager.rs publishes is numbered: the device commands.
use wireview_pro_ii.Base.{
  ℕ, ◌+◌, inl, inr, String, Bool, ◌||◌, ◌&&◌, Option, none, some, arith, Bool-cases,
}
use wireview_pro_ii.Base.State.{◌>>=◌, ◌>>◌}
use wireview_pro_ii.Domain.Error.{Result, ok, err, is_connection_lost}
use wireview_pro_ii.Domain.Telemetry.{Telemetry}
use wireview_pro_ii.Domain.Connection.{DisconnectReason, DaemonState, is_ready, is_busy}
use wireview_pro_ii.Manager.Backend.{Call, Backend}
use wireview_pro_ii.Manager.State.{
  ActiveHistoryDump, Manager, call, bump_and_publish, set_busy, set_ready,
}
use wireview_pro_ii.Manager.Sequence.{
  IsLater, Numbers, Numbers-if, call-Numbers, set_busy-Numbers, set_ready-Numbers,
  disconnect-Numbers, when_ready-Numbers, when_ready_or_busy-Numbers,
}
use wireview_pro_ii.Manager.State.{display_pause_state}
use wireview_pro_ii.Domain.Telemetry.{Screen}
use wireview_pro_ii.Domain.Error.{connection_lost, operation_outcome_unknown}
use wireview_pro_ii.Manager.Dump.{
  new_cancellation, is_same_dump, start_dump, renew_and_read, finish_dump, begun,
  begin_history_dump, read_dump, read_history_dump_chunk, end_dump, end_history_dump, chunk_read,
  read_history_chunk,
}
use wireview_pro_ii.Manager.Commands.{
  has_unknown_faults, in_range, screen_set, set_screen, paused_transfer, themed, build_read,
  read_device_info, cleared, faults_cleared, clear_faults, set_poll_interval, pause_taken,
  pause_display, resumed, resume_display, rebooted, reboot_device,
}
use wireview_pro_ii.Base.{◌==◌}
use wireview_pro_ii.Manager.SequenceParts.{
  resume-Numbers, ensure-Numbers, pass-Numbers, settle-Numbers, dropped, unpaused, finish-Numbers,
}
use wireview_pro_ii.Manager.Dump.{dump_lease}

module _ {F D : Type 0} (start : DaemonState F) (b : Backend F D) where
  screen_set-Numbers :
      (screen : Screen) (r : Result (Unit {0})) → Numbers start (screen_set b screen r)
  unfolding bump_and_publish
  screen_set-Numbers screen (ok _) m h = ground arith
  screen_set-Numbers screen (err error) m h =
      pass-Numbers start b operation_outcome_unknown (err error) m h

  pub set_screen-Numbers : (screen : Screen) → Numbers start (set_screen b screen)
  unfolding set_screen
  set_screen-Numbers screen =
      when_ready-Numbers start _
        λ m h. screen_set-Numbers screen _ _ (call-Numbers start (b.set_screen screen) m h)

  module _ {A : Type 0} (transfer : Call D A) (is_lost : Result A → Bool)
      (outcome : Result A → Result A) where
    paused_transfer-Numbers :
        (r : Result (Unit {0})) → Numbers start (paused_transfer b transfer is_lost outcome r)
    paused_transfer-Numbers (err error) m h = settle-Numbers start b (is_connection_lost error) m h
    paused_transfer-Numbers (ok _) m h =
        settle-Numbers start b _ _ (resume-Numbers start b _ (call-Numbers start transfer m h))

    pub themed-Numbers :
        (operation : String) → Numbers start (themed b transfer is_lost outcome operation)
    unfolding themed
    themed-Numbers operation = when_ready_or_busy-Numbers start _ _ λ m h.
        paused_transfer-Numbers _ _
          (ensure-Numbers start b _ (set_busy-Numbers start operation m h))

  build_read-Numbers : (r : Result (String × String)) → Numbers start (build_read b r)
  unfolding set_ready
  build_read-Numbers (ok _) m h = ground arith
  build_read-Numbers (err error) m h = finish-Numbers start b connection_lost (err error) m h

  pub read_device_info-Numbers : Numbers start (read_device_info b)
  unfolding read_device_info
  read_device_info-Numbers = when_ready-Numbers start _ λ m h. build_read-Numbers _ _ (
      call-Numbers start b.read_build_information _
        (set_busy-Numbers start "reading_device_information" m h))

  cleared-Numbers : (done : Result (Unit {0})) → Numbers start (cleared b done)
  cleared-Numbers (err error) m h = h
  cleared-Numbers (ok _) m h = ground arith

  faults_cleared-Numbers : (r : Result (Telemetry F)) → Numbers start (faults_cleared b r)
  unfolding set_ready
  faults_cleared-Numbers (ok telemetry) m h = ground arith
  faults_cleared-Numbers (err error) m h =
      finish-Numbers start b operation_outcome_unknown (err error) m h

  clearing-Numbers :
      (active logged : ℕ)
      → Numbers start (do
        set_busy "clearing_faults"
        done ← call (b.clear_faults active logged)
        result ← cleared b done
        faults_cleared b result)
  clearing-Numbers active logged m h = faults_cleared-Numbers _ _ (
      cleared-Numbers _ _ (
        call-Numbers start (b.clear_faults active logged) _
          (set_busy-Numbers start "clearing_faults" m h)))

  pub clear_faults-Numbers : (active logged : ℕ) → Numbers start (clear_faults b active logged)
  unfolding clear_faults
  clear_faults-Numbers active logged = when_ready-Numbers start _ (
      Numbers-if start (has_unknown_faults active || has_unknown_faults logged) _ _ (λ m h. h)
        (Numbers-if start (active == 0 && logged == 0) _ _ (λ m h. h)
          (clearing-Numbers active logged)))

  pub set_poll_interval-Numbers :
      (milliseconds : ℕ) → Numbers start (set_poll_interval b milliseconds)
  unfolding set_poll_interval
  set_poll_interval-Numbers milliseconds m h = ground arith

  pause_taken-Numbers :
      (milliseconds : ℕ) (r : Result (Unit {0})) → Numbers start (pause_taken b milliseconds r)
  unfolding display_pause_state
  pause_taken-Numbers milliseconds (ok _) m h = ground arith
  pause_taken-Numbers milliseconds (err error) m h =
      pass-Numbers start b connection_lost (err error) m h

  pub pause_display-Numbers : (milliseconds : ℕ) → Numbers start (pause_display b milliseconds)
  unfolding pause_display
  pause_display-Numbers milliseconds m h = elim (Bool-cases (in_range 100 300000 milliseconds)) [
    | inr outside ↦ rw outside h
    | inl within ↦
        rw within (elim (Bool-cases (is_ready m.state.connection || is_busy m.state.connection)) [
          | inr other ↦ rw other h
          | inl attached ↦
              rw attached (pause_taken-Numbers milliseconds _ _ (ensure-Numbers start b m h))
        ])
  ]

  resumed-Numbers : (r : Result (Unit {0})) → Numbers start (resumed b r)
  unfolding display_pause_state
  resumed-Numbers (ok _) m h = h
  resumed-Numbers (err error) m h = pass-Numbers start b connection_lost (err error) m h

  pub resume_display-Numbers : Numbers start (resume_display b)
  unfolding resume_display
  resume_display-Numbers m h = resumed-Numbers _ _ (resume-Numbers start b _ (unpaused start b m h))

  rebooted-Numbers : (r : Result (Unit {0})) → Numbers start (rebooted b r)
  rebooted-Numbers (ok _) m h = disconnect-Numbers start b DisconnectReason.device_reboot m h
  rebooted-Numbers (err error) m h = elim (Bool-cases (is_connection_lost error)) [
    | inl gone ↦ rw gone (disconnect-Numbers start b DisconnectReason.device_reboot m h)
    | inr other ↦ rw other (set_ready-Numbers start m h)
  ]

  pub reboot_device-Numbers : Numbers start (reboot_device b)
  unfolding reboot_device
  reboot_device-Numbers = when_ready-Numbers start _ λ m h.
      rebooted-Numbers _ _
        (call-Numbers start b.reboot_device _ (set_busy-Numbers start "rebooting_device" m h))

  begun-Numbers : (r : Result (Unit {0})) → Numbers start (begun b r)
  unfolding start_dump set_busy bump_and_publish
  begun-Numbers (ok _) m h = ground arith
  begun-Numbers (err error) m h = pass-Numbers start b connection_lost (err error) m h

  pub begin_history_dump-Numbers : Numbers start (begin_history_dump b)
  unfolding begin_history_dump
  begin_history_dump-Numbers =
      when_ready_or_busy-Numbers start _ _ λ m h. begun-Numbers _ _ (ensure-Numbers start b m h)

  renewed :
      (dump : ActiveHistoryDump) (m : Manager F D)
      → IsLater start m
      → IsLater start (record m { active_history_dump = some dump })
  renewed dump m h = ground arith

  renew_and_read-Numbers :
      (dump : ActiveHistoryDump) (offset size : ℕ)
      → Numbers start (renew_and_read b dump offset size)
  unfolding renew_and_read
  renew_and_read-Numbers dump offset size m h =
      let expires_at = b.now m.device + dump_lease in
      let op = b.read_history_chunk offset size dump.cancellation (some expires_at) in
      pass-Numbers start b connection_lost _ _
        (call-Numbers start op _ (renewed (record dump { expires_at = expires_at }) m h))

  read_dump-Numbers :
      (dump_id offset size : ℕ) (dump : Option ActiveHistoryDump)
      → Numbers start (read_dump b dump_id offset size dump)
  read_dump-Numbers dump_id offset size none m h = h
  read_dump-Numbers dump_id offset size (some dump) m h =
      elim (Bool-cases (is_same_dump dump dump_id m.state.session_id)) [
        | inl same ↦ rw same (renew_and_read-Numbers dump offset size m h)
        | inr other ↦ rw other h
      ]

  pub read_history_dump_chunk-Numbers :
      (dump_id offset size : ℕ) → Numbers start (read_history_dump_chunk b dump_id offset size)
  unfolding read_history_dump_chunk
  read_history_dump_chunk-Numbers dump_id offset size m h =
      read_dump-Numbers dump_id offset size m.active_history_dump m h

  finish_dump-Numbers : (dump_id : ℕ) → Numbers start (finish_dump b dump_id)
  unfolding finish_dump
  finish_dump-Numbers dump_id m h =
      finish-Numbers start b connection_lost _ _
        (resume-Numbers start b _ (dropped start b (some dump_id) m h))

  end_dump-Numbers :
      (dump_id : ℕ) (dump : Option ActiveHistoryDump) → Numbers start (end_dump b dump_id dump)
  end_dump-Numbers dump_id none m h = h
  end_dump-Numbers dump_id (some dump) m h =
      elim (Bool-cases (is_same_dump dump dump_id m.state.session_id)) [
        | inl same ↦ rw same (finish_dump-Numbers dump_id m h)
        | inr other ↦ rw other h
      ]

  pub end_history_dump-Numbers : (dump_id : ℕ) → Numbers start (end_history_dump b dump_id)
  unfolding end_history_dump
  end_history_dump-Numbers dump_id m h = end_dump-Numbers dump_id m.active_history_dump m h

  chunk_read-Numbers :
      (cell offset size : ℕ) (paused : Result (Unit {0}))
      → Numbers start (chunk_read b cell offset size paused)
  chunk_read-Numbers cell offset size (err error) m h = h
  chunk_read-Numbers cell offset size (ok _) m h =
      resume-Numbers start b _ (call-Numbers start (b.read_history_chunk offset size cell none) m h)

  with_cell : (m : Manager F D) → IsLater start m → IsLater start (new_cancellation b m).1
  with_cell m h = ground arith

  pub read_history_chunk-Numbers :
      (offset size : ℕ) → Numbers start (read_history_chunk b offset size)
  unfolding read_history_chunk
  read_history_chunk-Numbers offset size = when_ready-Numbers start _ λ m h.
      finish-Numbers start b connection_lost _ _ (
        chunk_read-Numbers _ offset size _ _ (
          ensure-Numbers start b _
            (with_cell _ (set_busy-Numbers start "reading_device_history" m h))))
