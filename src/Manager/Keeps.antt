-- ===== src/Manager/Keeps.antt =====
-- The parts of the methods of src/manager.rs keep what `Invariant` states.
use wireview_pro_ii.Base.{◌≡◌, String, true, false, ◌||◌, arith}
use wireview_pro_ii.Domain.Error.{DeviceError, Result, ok, err}
use wireview_pro_ii.Domain.Telemetry.{DeviceIdentity, Telemetry}
use wireview_pro_ii.Domain.Connection.{DisconnectReason, is_ready, is_busy}
use wireview_pro_ii.Manager.Backend.{Backend}
use wireview_pro_ii.Manager.State.{
  Manager, call, bump_and_publish, set_busy, set_ready, clear_history_cancellation,
}
use wireview_pro_ii.Manager.Connection.{
  is_fresh, disconnect, connection_failed, established, connect, first_reading, opened,
}
use wireview_pro_ii.Manager.Invariant.{IsDetached, Inv, IsWorking}

module _ {F D : Type 0} where
  pub set_ready-Inv : (m : Manager F D) → IsWorking m → Inv (set_ready m).1
  unfolding set_ready
  set_ready-Inv m w = ground arith

  pub set_busy-IsWorking :
      (operation : String) (m : Manager F D) → IsWorking m → IsWorking (set_busy operation m).1
  unfolding set_busy
  set_busy-IsWorking operation m w = ground arith

  -- A ready manager can start an operation.
  pub Inv-IsWorking : (m : Manager F D) → Inv m → is_ready m.state.connection ≡ true → IsWorking m
  Inv-IsWorking m i r = ground arith

module _ {F D : Type 0} (b : Backend F D) where
  -- From an attached state a disconnect always ends in a sound detached one.
  pub disconnect-Inv_attached :
      (reason : DisconnectReason) (m : Manager F D)
      → is_ready m.state.connection || is_busy m.state.connection ≡ true
      → Inv (disconnect b reason m).1
  unfolding disconnect clear_history_cancellation bump_and_publish
  disconnect-Inv_attached reason m a = ground arith

  pub disconnect-Inv :
      (reason : DisconnectReason) (m : Manager F D) → Inv m → Inv (disconnect b reason m).1
  unfolding disconnect clear_history_cancellation bump_and_publish
  disconnect-Inv reason m i = ground arith

  pub connection_failed-Inv :
      (port : String) (error : DeviceError) (m : Manager F D)
      → is_fresh m.state.telemetry ≡ false
      → Inv (connection_failed b port error m).1
  unfolding connection_failed clear_history_cancellation bump_and_publish
  connection_failed-Inv port error m h = ground arith

  pub established-Inv :
      (port : String) (identity : DeviceIdentity) (telemetry : Telemetry F) (m : Manager F D)
      → Inv (established b port identity telemetry m).1
  unfolding established clear_history_cancellation bump_and_publish
  established-Inv port identity telemetry m = ground arith

  first_reading-Inv :
      (port : String) (identity : DeviceIdentity) (reading : Result (Telemetry F)) (m : Manager F D)
      → is_fresh m.state.telemetry ≡ false
      → Inv (first_reading b port identity reading m).1
  first_reading-Inv port identity (ok telemetry) m h = established-Inv port identity telemetry m
  first_reading-Inv port identity (err error) m h = connection_failed-Inv port error m h

  opened-Inv :
      (port : String) (identity : Result DeviceIdentity) (m : Manager F D)
      → is_fresh m.state.telemetry ≡ false
      → Inv (opened b port identity m).1
  opened-Inv port (ok identity) m h =
      first_reading-Inv port identity (b.read_telemetry m.device).0 (call b.read_telemetry m).1 h
  opened-Inv port (err error) m h = connection_failed-Inv port error m h

  -- A connection attempt from a detached state ends attached or detached.
  pub connect-Inv :
      (port : String) (m : Manager F D)
      → is_fresh m.state.telemetry ≡ false
      → Inv (connect b port m).1
  unfolding connect bump_and_publish
  connect-Inv port m h = opened-Inv port _ _ h

  pub disconnect-IsDetached :
      (reason : DisconnectReason) (m : Manager F D) → Inv m → IsDetached (disconnect b reason m).1
  unfolding disconnect clear_history_cancellation bump_and_publish
  disconnect-IsDetached reason m i = ground arith
