-- ===== src/Manager/Reply.antt =====
-- The shapes that the arms of `handle_command` in src/manager.rs share. The value of a method is
-- what its arm sends on the `reply` channel.
use wireview_pro_ii.Base.{String, Bool, is_some, if◌then◌else◌}
use wireview_pro_ii.Base.State.{gets, pure, ◌>>=◌, ◌>>◌}
use wireview_pro_ii.Domain.Error.{
  DeviceError, not_connected, busy, Result, ok, err, is_connection_lost,
}
use wireview_pro_ii.Domain.Connection.{DisconnectReason, is_ready}
use wireview_pro_ii.Manager.Backend.{Backend}
use wireview_pro_ii.Manager.State.{M, set_ready}
use wireview_pro_ii.Manager.Connection.{disconnect}

module _ {F D A : Type 0} where
  -- `if !matches!(connection, Ready { .. }) { reply.send(Err(NotConnected)); return; }`
  abbrev pub when_ready : M F D (Result A) → M F D (Result A)
  when_ready body = do
    ready ← gets (λ m. is_ready m.state.connection)
    if ready then body else pure (err not_connected)

  -- The same where an active history dump is reported.
  abbrev pub when_ready_or_busy : String → M F D (Result A) → M F D (Result A)
  when_ready_or_busy message body = do
    ready ← gets (λ m. is_ready m.state.connection)
    dumping ← gets (λ m. is_some m.active_history_dump)
    if ready then body else pure (err (if dumping then busy message else not_connected))

module _ {F D : Type 0} (b : Backend F D) where
  -- The three arms on the result of an operation that ran under `set_busy`.
  unfoldable pub finish : {A : Type 0} → DeviceError → Result A → M F D (Result A)
  finish on_lost (ok a) = set_ready >> pure (ok a)
  finish on_lost (err error) =
      if is_connection_lost error
      then disconnect b DisconnectReason.serial_hangup >> pure (err on_lost)
      else set_ready >> pure (err error)

  -- The arms of an operation that did not change the connection.
  unfoldable pub pass : {A : Type 0} → DeviceError → Result A → M F D (Result A)
  pass on_lost (ok a) = pure (ok a)
  pass on_lost (err error) =
      if is_connection_lost error
      then disconnect b DisconnectReason.serial_hangup >> pure (err on_lost)
      else pure (err error)

  -- `if connection_lost { disconnect } else { set_ready }`
  unfoldable pub settle : Bool → M F D (Unit {0})
  settle connection_lost =
      if connection_lost then disconnect b DisconnectReason.serial_hangup else set_ready
