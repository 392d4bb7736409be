-- ===== src/Manager/ResumeTimers.antt =====
-- The timers of src/manager.rs leave no display paused for nobody.
use wireview_pro_ii.Base.{
  ℕ, ◌≡◌, refl, false, not, ◌||◌, Option, none, some, ltb, leb, inl, inr, arith, Bool-cases,
}
use wireview_pro_ii.Domain.Error.{Result, ok, err, lost, is_connection_lost}
use wireview_pro_ii.Domain.Connection.{DisconnectReason, is_ready}
use wireview_pro_ii.Domain.Telemetry.{Telemetry}
use wireview_pro_ii.Manager.Backend.{Backend}
use wireview_pro_ii.Manager.State.{ActiveHistoryDump, Manager, bump_and_publish}
use wireview_pro_ii.Manager.Display.{is_owned}
use wireview_pro_ii.Manager.Timers.{
  dump_expiry, pause_expiry, resume_retry, flag_overdue, after_dump, after_pause, after_retry,
  poll_once, poll_failed, poll_succeeded, polled, expire_history_dump, expire_debug_pause,
  retry_display_resume_cleanup, next_failure,
}
use wireview_pro_ii.Manager.Invariant.{Inv, IsWorking}
use wireview_pro_ii.Manager.Pauses.{
  dropped-IsWorking, resume-IsWorking, unpaused-Inv, resume-Inv, call-Inv, flag_overdue-Inv,
}
use wireview_pro_ii.Manager.Resumes.{
  IsCovered, unpaused-IsCovered, set_ready-IsCovered, disconnect-unpaused, disconnect-IsCovered,
  resume-IsCovered, call-IsCovered,
}

module _ {F D : Type 0} (b : Backend F D) where
  flag_overdue-IsCovered : (m : Manager F D) → IsCovered m → IsCovered (flag_overdue b m).1
  unfolding flag_overdue bump_and_publish
  flag_overdue-IsCovered m c = ground arith

  poll_failed-IsCovered : (m : Manager F D) → Inv m → IsCovered m → IsCovered (poll_failed b m).1
  unfolding poll_failed
  poll_failed-IsCovered m i c =
      let counted : Manager F D = record m {
        consecutive_poll_failures = next_failure m.consecutive_poll_failures;
      } in
      let flagged = (flag_overdue b counted).1 in
      elim (Bool-cases (leb 3 flagged.consecutive_poll_failures)) [
        | inl many ↦ rw many (
            disconnect-IsCovered b DisconnectReason.presence_check_failed flagged
              (flag_overdue-Inv b counted (ground arith)))
        | inr few ↦ rw few (flag_overdue-IsCovered counted (ground arith))
      ]

  polled-IsCovered :
      (reading : Result (Telemetry F)) (m : Manager F D)
      → Inv m
      → IsCovered m
      → IsCovered (polled b reading m).1
  unfolding poll_succeeded bump_and_publish
  polled-IsCovered (ok telemetry) m i c = ground arith
  polled-IsCovered (err error) m i c = elim (Bool-cases (is_connection_lost error)) [
    | inl gone ↦ rw gone (disconnect-IsCovered b DisconnectReason.serial_hangup m i)
    | inr other ↦ rw other (poll_failed-IsCovered m i c)
  ]

  pub poll_once-IsCovered : (m : Manager F D) → Inv m → IsCovered m → IsCovered (poll_once b m).1
  unfolding poll_once
  poll_once-IsCovered m i c = elim (Bool-cases (is_ready m.state.connection)) [
    | inl r ↦ rw r (
        polled-IsCovered _ _ (call-Inv b b.read_telemetry m i)
          (call-IsCovered b b.read_telemetry m c))
    | inr other ↦ rw other c
  ]

  after_dump-IsCovered :
      (result : Result (Unit {0})) (m : Manager F D)
      → IsWorking m
      → (lost result ≡ false → IsCovered m)
      → IsCovered (after_dump b result m).1
  after_dump-IsCovered (ok _) m w c = set_ready-IsCovered m (c refl)
  after_dump-IsCovered (err error) m w c = elim (Bool-cases (is_connection_lost error)) [
    | inl gone ↦
        rw gone (
          unpaused-IsCovered _
            (disconnect-unpaused b DisconnectReason.serial_hangup m w.connection))
    | inr other ↦ rw other (set_ready-IsCovered m (c other))
  ]

  dump_expiry-IsCovered :
      (dump : Option ActiveHistoryDump) (m : Manager F D)
      → m.active_history_dump ≡ dump
      → Inv m
      → IsCovered m
      → IsCovered (dump_expiry b dump m).1
  dump_expiry-IsCovered none m e i c = c
  dump_expiry-IsCovered (some dump) m e i c =
      elim (Bool-cases (ltb (b.now m.device) dump.expires_at)) [
        | inl early ↦ rw early c
        | inr due ↦ rw due (
            after_dump-IsCovered _ _
              (resume-IsWorking b _ (dropped-IsWorking b none m i (ground arith) refl))
              (resume-IsCovered b _))
      ]

  pub expire_history_dump-IsCovered :
      (m : Manager F D) → Inv m → IsCovered m → IsCovered (expire_history_dump b m).1
  unfolding expire_history_dump
  expire_history_dump-IsCovered m i c = dump_expiry-IsCovered m.active_history_dump m refl i c

  after_pause-IsCovered :
      (result : Result (Unit {0})) (m : Manager F D)
      → Inv m
      → (lost result ≡ false → IsCovered m)
      → IsCovered (after_pause b result m).1
  after_pause-IsCovered (ok _) m i c = c refl
  after_pause-IsCovered (err error) m i c = elim (Bool-cases (is_connection_lost error)) [
    | inl gone ↦ rw gone (disconnect-IsCovered b DisconnectReason.serial_hangup m i)
    | inr other ↦ rw other (c other)
  ]

  pause_expiry-IsCovered :
      (lease : Option ℕ) (m : Manager F D)
      → Inv m
      → IsCovered m
      → IsCovered (pause_expiry b lease m).1
  pause_expiry-IsCovered none m i c = c
  pause_expiry-IsCovered (some expires_at) m i c =
      elim (Bool-cases (ltb (b.now m.device) expires_at)) [
        | inl early ↦ rw early c
        | inr due ↦
            rw due (
              after_pause-IsCovered _ _ (resume-Inv b _ (unpaused-Inv b m i))
                (resume-IsCovered b _))
      ]

  pub expire_debug_pause-IsCovered :
      (m : Manager F D) → Inv m → IsCovered m → IsCovered (expire_debug_pause b m).1
  unfolding expire_debug_pause
  expire_debug_pause-IsCovered m i c = pause_expiry-IsCovered m.debug_pause_expires_at m i c

  after_retry-IsCovered :
      (result : Result (Unit {0})) (m : Manager F D)
      → Inv m
      → (lost result ≡ false → IsCovered m)
      → IsCovered (after_retry b result m).1
  unfolding bump_and_publish
  after_retry-IsCovered (ok _) m i c = let covered = c refl in ground arith
  after_retry-IsCovered (err error) m i c = elim (Bool-cases (is_connection_lost error)) [
    | inl gone ↦ rw gone (disconnect-IsCovered b DisconnectReason.serial_hangup m i)
    | inr other ↦ rw other (c other)
  ]

  resume_retry-IsCovered :
      (retry_at : Option ℕ) (m : Manager F D)
      → Inv m
      → IsCovered m
      → IsCovered (resume_retry b retry_at m).1
  resume_retry-IsCovered none m i c = c
  resume_retry-IsCovered (some retry_at) m i c =
      elim (Bool-cases (ltb (b.now m.device) retry_at || not (is_ready m.state.connection))) [
        | inl early ↦ rw early c
        | inr due ↦ rw due (elim (Bool-cases (is_owned m || not m.display_physically_paused)) [
          | inl needless ↦ rw needless (ground arith)
          | inr owed ↦ rw owed (after_retry-IsCovered _ _ (resume-Inv b m i) (resume-IsCovered b m))
        ])
      ]

  pub retry_display_resume_cleanup-IsCovered :
      (m : Manager F D) → Inv m → IsCovered m → IsCovered (retry_display_resume_cleanup b m).1
  unfolding retry_display_resume_cleanup
  retry_display_resume_cleanup-IsCovered m i c =
      resume_retry-IsCovered m.display_resume_retry_at m i c
