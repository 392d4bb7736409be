-- ===== src/Manager/SequenceParts.antt =====
-- What src/manager.rs publishes is numbered: the timers and the commands.
use wireview_pro_ii.Base.{
  ℕ, inl, inr, Bool, true, false, not, ◌||◌, Option, none, some, ltb, leb, arith, Bool-cases,
  if◌then◌else◌,
}
use wireview_pro_ii.Domain.Error.{DeviceError, Result, ok, err, is_connection_lost}
use wireview_pro_ii.Domain.Telemetry.{Telemetry}
use wireview_pro_ii.Domain.Connection.{DisconnectReason, DaemonState, is_ready}
use wireview_pro_ii.Manager.Backend.{Backend}
use wireview_pro_ii.Manager.State.{
  ActiveHistoryDump, Manager, M, bump_and_publish, set_ready, clear_history_cancellation,
}
use wireview_pro_ii.Manager.Display.{is_owned, ensure_display_paused, resume_display_if_unowned}
use wireview_pro_ii.Manager.Connection.{disconnect}
use wireview_pro_ii.Manager.Timers.{
  next_failure, flag_overdue, poll_succeeded, poll_failed, polled, poll_once, after_dump,
  dump_expiry, expire_history_dump, after_pause, pause_expiry, expire_debug_pause, after_retry,
  resume_retry, retry_display_resume_cleanup,
}
use wireview_pro_ii.Manager.Reply.{finish, pass, settle}
use wireview_pro_ii.Manager.Sequence.{
  IsLater, Numbers, Numbers-if, call-Numbers, set_ready-Numbers, disconnect-Numbers,
}

module _ {F D : Type 0} (start : DaemonState F) (b : Backend F D) where
  pub resume-Numbers : Numbers start (resume_display_if_unowned b)
  unfolding resume_display_if_unowned
  resume-Numbers m h = ground arith

  pub ensure-Numbers : Numbers start (ensure_display_paused b)
  unfolding ensure_display_paused
  ensure-Numbers m h = ground arith

  lost_or :
      (f : M F D (Unit {0})) (error : DeviceError) (reason : DisconnectReason)
      → Numbers start f
      → Numbers start (if is_connection_lost error then disconnect b reason else f)
  lost_or f error reason p =
      Numbers-if start (is_connection_lost error) (disconnect b reason) f
        (disconnect-Numbers start b reason) p

  flag_overdue-Numbers : Numbers start (flag_overdue b)
  unfolding flag_overdue bump_and_publish
  flag_overdue-Numbers m h = ground arith

  poll_failed-Numbers : Numbers start (poll_failed b)
  unfolding poll_failed
  poll_failed-Numbers m h =
      let counted : Manager F D = record m {
        consecutive_poll_failures = next_failure m.consecutive_poll_failures;
      } in
      let flagged = (flag_overdue b counted).1 in
      let kept = flag_overdue-Numbers counted (ground arith) in
      elim (Bool-cases (leb 3 flagged.consecutive_poll_failures)) [
        | inl many ↦
            rw many (disconnect-Numbers start b DisconnectReason.presence_check_failed flagged kept)
        | inr few ↦ rw few kept
      ]

  poll_succeeded-Numbers : (telemetry : Telemetry F) → Numbers start (poll_succeeded b telemetry)
  unfolding poll_succeeded bump_and_publish
  poll_succeeded-Numbers telemetry m h = ground arith

  polled-Numbers : (reading : Result (Telemetry F)) → Numbers start (polled b reading)
  polled-Numbers (ok telemetry) = poll_succeeded-Numbers telemetry
  polled-Numbers (err error) =
      lost_or (poll_failed b) error DisconnectReason.serial_hangup poll_failed-Numbers

  pub poll_once-Numbers : Numbers start (poll_once b)
  unfolding poll_once
  poll_once-Numbers m h = elim (Bool-cases (is_ready m.state.connection)) [
    | inl r ↦ rw r (polled-Numbers _ _ (call-Numbers start b.read_telemetry m h))
    | inr other ↦ rw other h
  ]

  after_dump-Numbers : (r : Result (Unit {0})) → Numbers start (after_dump b r)
  after_dump-Numbers (ok _) = set_ready-Numbers start
  after_dump-Numbers (err error) =
      lost_or set_ready error DisconnectReason.serial_hangup (set_ready-Numbers start)

  pub dropped :
      (id : Option ℕ) (m : Manager F D)
      → IsLater start m
      → IsLater start (clear_history_cancellation id (record m { active_history_dump = none })).1
  unfolding clear_history_cancellation
  dropped id m h = ground arith

  dump_expiry-Numbers : (dump : Option ActiveHistoryDump) → Numbers start (dump_expiry b dump)
  dump_expiry-Numbers none m h = h
  dump_expiry-Numbers (some dump) m h = elim (Bool-cases (ltb (b.now m.device) dump.expires_at)) [
    | inl early ↦ rw early h
    | inr due ↦ rw due (after_dump-Numbers _ _ (resume-Numbers _ (dropped none m h)))
  ]

  pub expire_history_dump-Numbers : Numbers start (expire_history_dump b)
  unfolding expire_history_dump
  expire_history_dump-Numbers m h = dump_expiry-Numbers m.active_history_dump m h

  after_pause-Numbers : (r : Result (Unit {0})) → Numbers start (after_pause b r)
  after_pause-Numbers (ok _) m h = h
  after_pause-Numbers (err error) m h =
      lost_or _ error DisconnectReason.serial_hangup (λ n k. k) m h

  pub unpaused :
      (m : Manager F D)
      → IsLater start m
      → IsLater start (record m { debug_pause_expires_at = none })
  unpaused m h = ground arith

  pause_expiry-Numbers : (lease : Option ℕ) → Numbers start (pause_expiry b lease)
  pause_expiry-Numbers none m h = h
  pause_expiry-Numbers (some expires_at) m h = elim (Bool-cases (ltb (b.now m.device) expires_at)) [
    | inl early ↦ rw early h
    | inr due ↦ rw due (after_pause-Numbers _ _ (resume-Numbers _ (unpaused m h)))
  ]

  pub expire_debug_pause-Numbers : Numbers start (expire_debug_pause b)
  unfolding expire_debug_pause
  expire_debug_pause-Numbers m h = pause_expiry-Numbers m.debug_pause_expires_at m h

  after_retry-Numbers : (r : Result (Unit {0})) → Numbers start (after_retry b r)
  unfolding bump_and_publish
  after_retry-Numbers (ok _) m h = ground arith
  after_retry-Numbers (err error) m h =
      lost_or _ error DisconnectReason.serial_hangup (λ n k. k) m h

  resume_retry-Numbers : (retry_at : Option ℕ) → Numbers start (resume_retry b retry_at)
  resume_retry-Numbers none m h = h
  resume_retry-Numbers (some retry_at) m h =
      elim (Bool-cases (ltb (b.now m.device) retry_at || not (is_ready m.state.connection))) [
        | inl early ↦ rw early h
        | inr due ↦ rw due (elim (Bool-cases (is_owned m || not m.display_physically_paused)) [
          | inl needless ↦ rw needless (ground arith)
          | inr owed ↦ rw owed (after_retry-Numbers _ _ (resume-Numbers m h))
        ])
      ]

  pub retry_display_resume_cleanup-Numbers : Numbers start (retry_display_resume_cleanup b)
  unfolding retry_display_resume_cleanup
  retry_display_resume_cleanup-Numbers m h = resume_retry-Numbers m.display_resume_retry_at m h

  pub finish-Numbers :
      {A : Type 0} (on_lost : DeviceError) (r : Result A) → Numbers start (finish b on_lost r)
  unfolding finish
  finish-Numbers on_lost (ok a) m h = set_ready-Numbers start m h
  finish-Numbers on_lost (err error) m h = elim (Bool-cases (is_connection_lost error)) [
    | inl gone ↦ rw gone (disconnect-Numbers start b DisconnectReason.serial_hangup m h)
    | inr other ↦ rw other (set_ready-Numbers start m h)
  ]

  pub pass-Numbers :
      {A : Type 0} (on_lost : DeviceError) (r : Result A) → Numbers start (pass b on_lost r)
  unfolding pass
  pass-Numbers on_lost (ok a) m h = h
  pass-Numbers on_lost (err error) m h = elim (Bool-cases (is_connection_lost error)) [
    | inl gone ↦ rw gone (disconnect-Numbers start b DisconnectReason.serial_hangup m h)
    | inr other ↦ rw other h
  ]

  pub settle-Numbers : (gone : Bool) → Numbers start (settle b gone)
  unfolding settle
  settle-Numbers true = disconnect-Numbers start b DisconnectReason.serial_hangup
  settle-Numbers false = set_ready-Numbers start
