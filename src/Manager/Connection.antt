-- ===== src/Manager/Connection.antt =====
-- The connection of `Manager` in src/manager.rs: discovery events, retries with backoff, polling
-- and disconnection.
use wireview_pro_ii.Base.{
  ℕ, ◌+◌, ◌-◌, ◌*◌, ◌^◌, min, String, Bool, true, false, not, ◌||◌, List, [], ◌∷◌, Option, none,
  some, is_some, leb, if◌then◌else◌,
}
use wireview_pro_ii.Base.State.{modify, gets, skip, pure, ◌>>=◌, ◌>>◌}
use wireview_pro_ii.Base.Sort.{sort, dedup, same_text, same_texts, is_text}
use wireview_pro_ii.Domain.Error.{
  DeviceError, unsupported, protocol_unverified, Result, ok, err, to_string,
}
use wireview_pro_ii.Domain.Telemetry.{DeviceIdentity, Telemetry}
use wireview_pro_ii.Domain.Connection.{
  DisconnectReason, ConnectionState, absent, connecting, disconnecting, is_ready, is_busy,
  is_absent, connected, disconnected,
}
use wireview_pro_ii.Manager.Backend.{Backend}
use wireview_pro_ii.Manager.State.{
  RetryState, Manager, M, call, effect, now, change_state, connection_is, broadcast,
  bump_and_publish, clear_history_cancellation,
}

pub data HostEvent : Type 0 where
  candidates : List String → HostEvent
  shutdown : HostEvent

-- Every saturating operation of the source on a `u32` or a `u8`.
abbrev pub u32_max : ℕ
u32_max = 2 ^ 32 - 1

-- `Duration::from_millis(250).saturating_mul(1 << shift).min(Duration::from_secs(30))`
unfoldable pub retry_delay : ℕ → ℕ
retry_delay attempt = min (250 * 2 ^ min (attempt - 1) 7) 30000

-- `retry.filter(|retry| retry.port == port).map_or(1, …)`
unfoldable pub next_attempt : String → Option RetryState → ℕ
next_attempt port none = 1
next_attempt port (some r) = if same_text r.port port then min (r.attempt + 1) u32_max else 1

abbrev is_due : Option ℕ → ℕ → Bool
is_due none time = false
is_due (some not_before) time = leb not_before time

abbrev pub is_ambiguous : ConnectionState → List String → Bool
is_ambiguous (ConnectionState.ambiguous_device existing) found = same_texts existing found
is_ambiguous _ found = false

module _ {F : Type 0} where
  -- `if let Some(telemetry) = &mut self.state.telemetry { telemetry.stale = true; }`
  abbrev pub mark_stale : Option (Telemetry F) → Option (Telemetry F)
  mark_stale none = none
  mark_stale (some t) = some (record t { stale = true })

  abbrev pub is_fresh : Option (Telemetry F) → Bool
  is_fresh none = false
  is_fresh (some t) = not t.stale

module _ {F D : Type 0} (b : Backend F D) where
  -- The fields that every loss of the connection resets.
  abbrev forget_session : M F D (Unit {0})
  forget_session = do
    modify (λ m. record m { active_history_dump = none })
    clear_history_cancellation none
    modify (λ m. record m {
      debug_pause_expires_at = none;
      display_physically_paused = false;
      display_resume_retry_at = none;
    })

  detach : DisconnectReason → M F D (Unit {0})
  detach reason = do
    change_state (λ s. record s { connection = disconnecting s.session_id reason })
    bump_and_publish
    effect b.disconnect
    forget_session
    modify (λ m. record m { current_port = none })
    change_state (λ s. record s {
      connected_port = none;
      telemetry = mark_stale s.telemetry;
      connection = absent reason;
      last_disconnect_reason = some reason;
    })
    bump_and_publish
    broadcast (λ s. disconnected s.sequence s.session_id reason)

  was_attached : Manager F D → Bool
  was_attached m =
      is_some m.current_port || (is_ready m.state.connection || is_busy m.state.connection)

  unfoldable pub disconnect : DisconnectReason → M F D (Unit {0})
  unfolding detach was_attached
  disconnect reason = do
    attached ← gets was_attached
    if attached then detach reason else do
      connection ← gets (λ m. m.state.connection)
      if is_absent connection then skip else do
        change_state
            (λ s. record s { connection = absent reason; last_disconnect_reason = some reason })
        bump_and_publish

  schedule_retry : String → ℕ → Option ℕ → M F D (Unit {0})
  schedule_retry port attempt not_before = modify λ m. record m {
    retry = some (record { port = port; attempt = attempt; not_before = not_before });
  }

  -- The `match &error` of `connection_failed`.
  unfoldable pub retry_after : String → DeviceError → M F D (Unit {0})
  unfolding schedule_retry
  retry_after port (protocol_unverified reason) =
      schedule_retry port 1 none >> connection_is (ConnectionState.unsupported reason)
  retry_after port (unsupported reason) =
      schedule_retry port 1 none >> connection_is (ConnectionState.unsupported reason)
  retry_after port other = do
    attempt ← gets (λ m. next_attempt port m.retry)
    time ← now b
    schedule_retry port attempt (some (time + retry_delay attempt))
    connection_is (ConnectionState.recovering attempt (to_string other))

  unfoldable pub connection_failed : String → DeviceError → M F D (Unit {0})
  unfolding retry_after
  connection_failed port error = do
    effect b.disconnect
    forget_session
    modify (λ m. record m {
      consecutive_poll_failures = 0;
      last_successful_poll = none;
      current_port = none;
    })
    change_state (λ s. record s { connected_port = none; identity = none })
    retry_after port error
    bump_and_publish

  unfoldable pub established : String → DeviceIdentity → Telemetry F → M F D (Unit {0})
  established port identity telemetry = do
    change_state (λ s. record s { session_id = s.session_id + 1 })
    change_state (λ s. record s {
      connected_port = some port;
      identity = some identity;
      telemetry = some (record telemetry { session_id = s.session_id; sequence = s.sequence + 1 });
      connection = ConnectionState.ready s.session_id;
    })
    time ← now b
    modify (λ m. record m {
      current_port = some port;
      consecutive_poll_failures = 0;
      last_successful_poll = some time;
    })
    forget_session
    modify (λ m. record m { retry = none })
    bump_and_publish
    broadcast (λ s. connected s.sequence s.session_id port)

  abbrev pub first_reading : String → DeviceIdentity → Result (Telemetry F) → M F D (Unit {0})
  first_reading port identity (ok telemetry) = established port identity telemetry
  first_reading port identity (err error) = connection_failed port error

  abbrev pub opened : String → Result DeviceIdentity → M F D (Unit {0})
  opened port (ok identity) = call b.read_telemetry >>= first_reading port identity
  opened port (err error) = connection_failed port error

  unfoldable pub connect : String → M F D (Unit {0})
  connect port = do
    connection_is (connecting port)
    bump_and_publish
    identity ← call (b.connect port)
    opened port identity

  abbrev due : String → Option RetryState → M F D Bool
  due port none = pure true
  due port (some r) =
      if not (same_text r.port port)
      then (do modify (λ m. record m { retry = none }); pure true)
      else do time ← now b; pure (is_due r.not_before time)

  unfoldable pub retry_is_due : String → M F D Bool
  retry_is_due port = gets (λ m. m.retry) >>= due port

  unfoldable pub single : String → M F D (Unit {0})
  single port = do
    go ← retry_is_due port
    if not go then skip else do
      attached ← gets (λ m. is_some m.current_port)
      if attached then disconnect DisconnectReason.replaced else skip
      connect port

  unfoldable pub several : List String → M F D (Unit {0})
  several found = do
    modify (λ m. record m { retry = none })
    connection ← gets (λ m. m.state.connection)
    if is_ambiguous connection found then skip else do
      disconnect DisconnectReason.removed_from_host
      connection_is (ConnectionState.ambiguous_device found)
      bump_and_publish

  -- The `match` on the sorted candidates.
  unfoldable pub handle_candidates : List String → M F D (Unit {0})
  unfolding single several
  handle_candidates [] = do
    modify (λ m. record m { retry = none })
    disconnect DisconnectReason.removed_from_host
  handle_candidates (port ∷ []) = do
    current ← gets (λ m. m.current_port)
    if is_text current port then skip else single port
  handle_candidates (port ∷ other ∷ rest) = several (port ∷ other ∷ rest)

  unfoldable pub handle_host_event : HostEvent → M F D (Unit {0})
  unfolding handle_candidates
  handle_host_event (candidates found) = handle_candidates (dedup (sort found))
  handle_host_event shutdown = skip
