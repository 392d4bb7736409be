-- ===== src/Manager/Pauses.antt =====
-- The display pause and the timers of src/manager.rs keep the invariant.
use wireview_pro_ii.Base.{
  ℕ, ◌≡◌, refl, Bool, true, not, ◌||◌, Option, none, is_some, ltb, leb, ◌==◌, inl, inr, some, arith,
  Bool-cases,
}
use wireview_pro_ii.Domain.Error.{Result, ok, err, is_connection_lost}
use wireview_pro_ii.Domain.Connection.{DisconnectReason, is_ready, is_busy}
use wireview_pro_ii.Domain.Telemetry.{Telemetry}
use wireview_pro_ii.Manager.Backend.{Call, Backend}
use wireview_pro_ii.Manager.State.{
  ActiveHistoryDump, Manager, call, bump_and_publish, clear_history_cancellation,
}
use wireview_pro_ii.Manager.Display.{is_owned, ensure_display_paused, resume_display_if_unowned}
use wireview_pro_ii.Manager.Timers.{
  next_failure, dump_expiry, pause_expiry, resume_retry, flag_overdue, after_dump, after_pause,
  after_retry, poll_once, poll_failed, poll_succeeded, polled, expire_history_dump,
  expire_debug_pause, retry_display_resume_cleanup,
}
use wireview_pro_ii.Manager.Invariant.{Inv, IsWorking}
use wireview_pro_ii.Manager.Keeps.{set_ready-Inv, disconnect-Inv, disconnect-Inv_attached}

-- The identifier with which the slot of that dump is cleared.
abbrev pub clears : Option ℕ → Option ActiveHistoryDump → Bool
clears none dump = true
clears (some id) none = true
clears (some id) (some dump) = dump.id == id

module _ {F D : Type 0} (b : Backend F D) where
  pub resume-Inv : (m : Manager F D) → Inv m → Inv (resume_display_if_unowned b m).1
  unfolding resume_display_if_unowned
  resume-Inv m i = ground arith

  pub resume-IsWorking :
      (m : Manager F D) → IsWorking m → IsWorking (resume_display_if_unowned b m).1
  unfolding resume_display_if_unowned
  resume-IsWorking m w = ground arith

  pub ensure-Inv :
      (m : Manager F D)
      → Inv m
      → is_ready m.state.connection || is_busy m.state.connection ≡ true
      → Inv (ensure_display_paused b m).1
  unfolding ensure_display_paused
  ensure-Inv m i c = ground arith

  pub ensure-IsWorking : (m : Manager F D) → IsWorking m → IsWorking (ensure_display_paused b m).1
  unfolding ensure_display_paused
  ensure-IsWorking m w = ground arith

  -- A pause that succeeded leaves the display paused.
  pub ensure_paused :
      (m : Manager F D)
      → (ensure_display_paused b m).0 ≡ ok tt
      → (ensure_display_paused b m).1.display_physically_paused ≡ true
  unfolding ensure_display_paused
  ensure_paused m h = ground arith

  pub flag_overdue-Inv : (m : Manager F D) → Inv m → Inv (flag_overdue b m).1
  unfolding flag_overdue bump_and_publish
  flag_overdue-Inv m i = ground arith

  poll_failed-Inv : (m : Manager F D) → Inv m → Inv (poll_failed b m).1
  unfolding poll_failed
  poll_failed-Inv m i =
      let counted : Manager F D = record m {
        consecutive_poll_failures = next_failure m.consecutive_poll_failures;
      } in
      let flagged = (flag_overdue b counted).1 in
      let kept : Inv flagged = flag_overdue-Inv counted (ground arith) in
      elim (Bool-cases (leb 3 flagged.consecutive_poll_failures)) [
        | inl many ↦ rw many (disconnect-Inv b DisconnectReason.presence_check_failed flagged kept)
        | inr few ↦ rw few kept
      ]

  poll_succeeded-Inv :
      (telemetry : Telemetry F) (m : Manager F D)
      → Inv m
      → is_ready m.state.connection ≡ true
      → Inv (poll_succeeded b telemetry m).1
  unfolding poll_succeeded bump_and_publish
  poll_succeeded-Inv telemetry m i r = ground arith

  polled-Inv :
      (reading : Result (Telemetry F)) (m : Manager F D)
      → Inv m
      → is_ready m.state.connection ≡ true
      → Inv (polled b reading m).1
  polled-Inv (ok telemetry) m i r = poll_succeeded-Inv telemetry m i r
  polled-Inv (err error) m i r = elim (Bool-cases (is_connection_lost error)) [
    | inl gone ↦ rw gone (disconnect-Inv b DisconnectReason.serial_hangup m i)
    | inr other ↦ rw other (poll_failed-Inv m i)
  ]

  -- A change outside is none of the manager's.
  pub call-Inv : {A : Type 0} (op : Call D A) (m : Manager F D) → Inv m → Inv (call op m).1
  call-Inv op m i = ground arith

  pub poll_once-Inv : (m : Manager F D) → Inv m → Inv (poll_once b m).1
  unfolding poll_once
  poll_once-Inv m i = elim (Bool-cases (is_ready m.state.connection)) [
    | inl r ↦ rw r (polled-Inv _ _ (call-Inv b.read_telemetry m i) r)
    | inr other ↦ rw other i
  ]

  after_dump-Inv :
      (result : Result (Unit {0})) (m : Manager F D) → IsWorking m → Inv (after_dump b result m).1
  after_dump-Inv (ok _) m w = set_ready-Inv m w
  after_dump-Inv (err error) m w = elim (Bool-cases (is_connection_lost error)) [
    | inl gone ↦ rw gone (disconnect-Inv_attached b DisconnectReason.serial_hangup m w.connection)
    | inr other ↦ rw other (set_ready-Inv m w)
  ]

  -- A manager whose dump ends goes on working.
  pub dropped-IsWorking :
      (id : Option ℕ) (m : Manager F D)
      → Inv m
      → is_some m.active_history_dump ≡ true
      → clears id m.active_history_dump ≡ true
      → IsWorking (clear_history_cancellation id (record m { active_history_dump = none })).1
  unfolding clear_history_cancellation
  dropped-IsWorking id m i a c = ground arith

  dump_expiry-Inv :
      (dump : Option ActiveHistoryDump) (m : Manager F D)
      → m.active_history_dump ≡ dump
      → Inv m
      → Inv (dump_expiry b dump m).1
  dump_expiry-Inv none m e i = i
  dump_expiry-Inv (some dump) m e i = elim (Bool-cases (ltb (b.now m.device) dump.expires_at)) [
    | inl early ↦ rw early i
    | inr due ↦
        rw due
          (after_dump-Inv _ _ (resume-IsWorking _ (dropped-IsWorking none m i (ground arith) refl)))
  ]

  pub expire_history_dump-Inv : (m : Manager F D) → Inv m → Inv (expire_history_dump b m).1
  unfolding expire_history_dump
  expire_history_dump-Inv m i = dump_expiry-Inv m.active_history_dump m refl i

  after_pause-Inv :
      (result : Result (Unit {0})) (m : Manager F D) → Inv m → Inv (after_pause b result m).1
  after_pause-Inv (ok _) m i = i
  after_pause-Inv (err error) m i = elim (Bool-cases (is_connection_lost error)) [
    | inl gone ↦ rw gone (disconnect-Inv b DisconnectReason.serial_hangup m i)
    | inr other ↦ rw other i
  ]

  pub unpaused-Inv : (m : Manager F D) → Inv m → Inv (record m { debug_pause_expires_at = none })
  unpaused-Inv m i = ground arith

  pause_expiry-Inv : (lease : Option ℕ) (m : Manager F D) → Inv m → Inv (pause_expiry b lease m).1
  pause_expiry-Inv none m i = i
  pause_expiry-Inv (some expires_at) m i = elim (Bool-cases (ltb (b.now m.device) expires_at)) [
    | inl early ↦ rw early i
    | inr due ↦ rw due (after_pause-Inv _ _ (resume-Inv _ (unpaused-Inv m i)))
  ]

  pub expire_debug_pause-Inv : (m : Manager F D) → Inv m → Inv (expire_debug_pause b m).1
  unfolding expire_debug_pause
  expire_debug_pause-Inv m i = pause_expiry-Inv m.debug_pause_expires_at m i

  after_retry-Inv :
      (result : Result (Unit {0})) (m : Manager F D) → Inv m → Inv (after_retry b result m).1
  unfolding bump_and_publish
  after_retry-Inv (ok _) m i = ground arith
  after_retry-Inv (err error) m i = elim (Bool-cases (is_connection_lost error)) [
    | inl gone ↦ rw gone (disconnect-Inv b DisconnectReason.serial_hangup m i)
    | inr other ↦ rw other i
  ]

  resume_retry-Inv :
      (retry_at : Option ℕ) (m : Manager F D) → Inv m → Inv (resume_retry b retry_at m).1
  resume_retry-Inv none m i = i
  resume_retry-Inv (some retry_at) m i =
      elim (Bool-cases (ltb (b.now m.device) retry_at || not (is_ready m.state.connection))) [
        | inl early ↦ rw early i
        | inr due ↦ rw due (elim (Bool-cases (is_owned m || not m.display_physically_paused)) [
          | inl needless ↦ rw needless (ground arith)
          | inr owed ↦ rw owed (after_retry-Inv _ _ (resume-Inv m i))
        ])
      ]

  pub retry_display_resume_cleanup-Inv :
      (m : Manager F D) → Inv m → Inv (retry_display_resume_cleanup b m).1
  unfolding retry_display_resume_cleanup
  retry_display_resume_cleanup-Inv m i = resume_retry-Inv m.display_resume_retry_at m i
