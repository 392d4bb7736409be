-- ===== src/Manager/Timers.antt =====
-- What the timers of `Manager::run` in src/manager.rs do: telemetry polls, the leases of the
-- history dump and of the debug pause, and the retry that resumes the display.
use wireview_pro_ii.Base.{
  ℕ, ◌+◌, ◌-◌, ◌*◌, min, Bool, false, not, ◌&&◌, ◌||◌, Option, none, some, leb, ltb, if◌then◌else◌,
}
use wireview_pro_ii.Base.State.{modify, gets, skip, ◌>>=◌, ◌>>◌}
use wireview_pro_ii.Domain.Error.{Result, ok, err, is_connection_lost}
use wireview_pro_ii.Domain.Telemetry.{Telemetry}
use wireview_pro_ii.Domain.Connection.{DisconnectReason, is_ready, telemetry_updated}
use wireview_pro_ii.Manager.Backend.{Backend}
use wireview_pro_ii.Manager.State.{
  ActiveHistoryDump, Manager, M, call, now, change_state, broadcast, bump_and_publish, set_ready,
  clear_history_cancellation,
}
use wireview_pro_ii.Manager.Display.{is_owned, resume_display_if_unowned}
use wireview_pro_ii.Manager.Connection.{mark_stale, is_fresh, disconnect}

-- `saturating_add(1)` on a `u8`.
abbrev pub next_failure : ℕ → ℕ
next_failure n = min (n + 1) 255

module _ {F D : Type 0} where
  -- `telemetry.sequence = self.state.sequence + 1; telemetry.session_id = self.state.session_id;`
  abbrev pub store_telemetry : Telemetry F → M F D (Unit {0})
  store_telemetry telemetry = change_state λ s. record s {
    telemetry = some (record telemetry { sequence = s.sequence + 1; session_id = s.session_id });
  }

module _ {F D : Type 0} (b : Backend F D) where
  -- `last.elapsed() >= self.poll_interval.saturating_mul(2)`
  abbrev pub is_overdue : Manager F D → Option ℕ → Bool
  is_overdue m none = false
  is_overdue m (some last) = leb (m.poll_interval * 2) (b.now m.device - last)

  unfoldable pub poll_succeeded : Telemetry F → M F D (Unit {0})
  poll_succeeded telemetry = do
    store_telemetry telemetry
    time ← now b
    modify (λ m. record m { consecutive_poll_failures = 0; last_successful_poll = some time })
    bump_and_publish
    broadcast (λ s. telemetry_updated s.sequence s.session_id)

  -- A reading that is two poll intervals old is published as stale.
  unfoldable pub flag_overdue : M F D (Unit {0})
  flag_overdue = do
    overdue ← gets (λ m. is_overdue m m.last_successful_poll && is_fresh m.state.telemetry)
    if overdue
        then (do
          change_state (λ s. record s { telemetry = mark_stale s.telemetry })
          bump_and_publish)
        else skip

  unfoldable pub poll_failed : M F D (Unit {0})
  poll_failed = do
    modify (λ m. record m { consecutive_poll_failures = next_failure m.consecutive_poll_failures })
    flag_overdue
    failures ← gets (λ m. m.consecutive_poll_failures)
    if leb 3 failures then disconnect b DisconnectReason.presence_check_failed else skip

  abbrev pub polled : Result (Telemetry F) → M F D (Unit {0})
  polled (ok telemetry) = poll_succeeded telemetry
  polled (err error) =
      if is_connection_lost error then disconnect b DisconnectReason.serial_hangup else poll_failed

  unfoldable pub poll_once : M F D (Unit {0})
  poll_once = do
    connection ← gets (λ m. m.state.connection)
    if not (is_ready connection) then skip else do reading ← call b.read_telemetry; polled reading

  -- What follows a resume of the display when a lease or a dump has ended.
  abbrev pub after_dump : Result (Unit {0}) → M F D (Unit {0})
  after_dump (ok _) = set_ready
  after_dump (err error) =
      if is_connection_lost error then disconnect b DisconnectReason.serial_hangup else set_ready

  abbrev pub dump_expiry : Option ActiveHistoryDump → M F D (Unit {0})
  dump_expiry none = skip
  dump_expiry (some dump) = do
    time ← now b
    if ltb time dump.expires_at then skip else do
      modify (λ m. record m { active_history_dump = none })
      clear_history_cancellation none
      result ← resume_display_if_unowned b
      after_dump result

  unfoldable pub expire_history_dump : M F D (Unit {0})
  expire_history_dump = gets (λ m. m.active_history_dump) >>= dump_expiry

  abbrev pub after_pause : Result (Unit {0}) → M F D (Unit {0})
  after_pause (ok _) = skip
  after_pause (err error) =
      if is_connection_lost error then disconnect b DisconnectReason.serial_hangup else skip

  abbrev pub pause_expiry : Option ℕ → M F D (Unit {0})
  pause_expiry none = skip
  pause_expiry (some expires_at) = do
    time ← now b
    if ltb time expires_at then skip else do
      modify (λ m. record m { debug_pause_expires_at = none })
      result ← resume_display_if_unowned b
      after_pause result

  unfoldable pub expire_debug_pause : M F D (Unit {0})
  expire_debug_pause = gets (λ m. m.debug_pause_expires_at) >>= pause_expiry

  abbrev pub after_retry : Result (Unit {0}) → M F D (Unit {0})
  after_retry (ok _) = bump_and_publish
  after_retry (err error) =
      if is_connection_lost error then disconnect b DisconnectReason.serial_hangup else skip

  abbrev pub resume_retry : Option ℕ → M F D (Unit {0})
  resume_retry none = skip
  resume_retry (some retry_at) = do
    time ← now b
    connection ← gets (λ m. m.state.connection)
    if ltb time retry_at || not (is_ready connection) then skip else do
      needless ← gets (λ m. is_owned m || not m.display_physically_paused)
      if needless
          then modify (λ m. record m { display_resume_retry_at = none })
          else do result ← resume_display_if_unowned b; after_retry result

  unfoldable pub retry_display_resume_cleanup : M F D (Unit {0})
  retry_display_resume_cleanup = gets (λ m. m.display_resume_retry_at) >>= resume_retry
