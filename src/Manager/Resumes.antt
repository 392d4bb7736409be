-- ===== src/Manager/Resumes.antt =====
-- No part of src/manager.rs leaves the display paused when nobody owns the pause: a lease or a dump
-- ends it, or a retry of the resume is scheduled.
use wireview_pro_ii.Base.{
  ◌≡◌, refl, String, Bool, true, false, not, ◌||◌, is_some, inl, inr, arith, Bool-cases,
}
use wireview_pro_ii.Domain.Error.{DeviceError, Result, ok, err, lost, is_connection_lost}
use wireview_pro_ii.Domain.Connection.{DisconnectReason, is_ready, is_busy}
use wireview_pro_ii.Manager.Backend.{Call, Backend}
use wireview_pro_ii.Manager.State.{
  Manager, call, bump_and_publish, set_ready, set_busy, clear_history_cancellation,
}
use wireview_pro_ii.Manager.Display.{is_owned, ensure_display_paused, resume_display_if_unowned}
use wireview_pro_ii.Manager.Connection.{disconnect, connection_failed, established, connect}
use wireview_pro_ii.Manager.Reply.{finish, pass, settle}
use wireview_pro_ii.Manager.Frame.{Same}
use wireview_pro_ii.Manager.Invariant.{Inv, IsWorking}
use wireview_pro_ii.Manager.Keeps.{disconnect-IsDetached}

module _ {F D : Type 0} where
  -- A paused display is owned, or its resume is due again.
  pub record IsCovered (m : Manager F D) : Type 0 where
    pub covers :
        not m.display_physically_paused || (is_owned m || is_some m.display_resume_retry_at) ≡ true

  pub unpaused-IsCovered : (m : Manager F D) → m.display_physically_paused ≡ false → IsCovered m
  unpaused-IsCovered m h = ground arith

  pub Same-IsCovered : (m n : Manager F D) → Same m n → IsCovered m → IsCovered n
  Same-IsCovered m n s c = ground arith

  pub set_ready-IsCovered : (m : Manager F D) → IsCovered m → IsCovered (set_ready m).1
  unfolding set_ready
  set_ready-IsCovered m c = ground arith

  pub set_busy-IsCovered :
      (operation : String) (m : Manager F D) → IsCovered m → IsCovered (set_busy operation m).1
  unfolding set_busy
  set_busy-IsCovered operation m c = ground arith

module _ {F D : Type 0} (b : Backend F D) where
  pub disconnect-unpaused :
      (reason : DisconnectReason) (m : Manager F D)
      → is_ready m.state.connection || is_busy m.state.connection ≡ true
      → (disconnect b reason m).1.display_physically_paused ≡ false
  unfolding disconnect clear_history_cancellation bump_and_publish
  disconnect-unpaused reason m a = ground arith

  pub disconnect-IsCovered :
      (reason : DisconnectReason) (m : Manager F D) → Inv m → IsCovered (disconnect b reason m).1
  disconnect-IsCovered reason m i = unpaused-IsCovered _ (disconnect-IsDetached b reason m i).paused

  -- A resume covers the display unless the connection is lost.
  pub resume-IsCovered :
      (m : Manager F D)
      → lost (resume_display_if_unowned b m).0 ≡ false
      → IsCovered (resume_display_if_unowned b m).1
  unfolding resume_display_if_unowned
  resume-IsCovered m kept = ground arith

  pub ensure-IsCovered :
      (m : Manager F D)
      → IsCovered m
      → (e : DeviceError) → (ensure_display_paused b m).0 ≡ err e
      → IsCovered (ensure_display_paused b m).1
  unfolding ensure_display_paused
  ensure-IsCovered m c e h = ground arith

  pub finish-IsCovered :
      {A : Type 0} (on_lost : DeviceError) (r : Result A) (m : Manager F D)
      → IsWorking m
      → (lost r ≡ false → IsCovered m)
      → IsCovered (finish b on_lost r m).1
  unfolding finish
  finish-IsCovered on_lost (ok a) m w c = set_ready-IsCovered m (c refl)
  finish-IsCovered on_lost (err error) m w c = elim (Bool-cases (is_connection_lost error)) [
    | inl gone ↦
        rw gone
          (unpaused-IsCovered _ (disconnect-unpaused DisconnectReason.serial_hangup m w.connection))
    | inr other ↦ rw other (set_ready-IsCovered m (c other))
  ]

  pub pass-IsCovered :
      {A : Type 0} (on_lost : DeviceError) (r : Result A) (m : Manager F D)
      → Inv m
      → (lost r ≡ false → IsCovered m)
      → IsCovered (pass b on_lost r m).1
  unfolding pass
  pass-IsCovered on_lost (ok a) m i c = c refl
  pass-IsCovered on_lost (err error) m i c = elim (Bool-cases (is_connection_lost error)) [
    | inl gone ↦ rw gone (disconnect-IsCovered DisconnectReason.serial_hangup m i)
    | inr other ↦ rw other (c other)
  ]

  pub settle-IsCovered :
      (gone : Bool) (m : Manager F D)
      → IsWorking m
      → (gone ≡ false → IsCovered m)
      → IsCovered (settle b gone m).1
  unfolding settle
  settle-IsCovered true m w c =
      unpaused-IsCovered _ (disconnect-unpaused DisconnectReason.serial_hangup m w.connection)
  settle-IsCovered false m w c = set_ready-IsCovered m (c refl)

  -- A connection attempt leaves nothing paused.
  pub connect-unpaused :
      (port : String) (m : Manager F D) → (connect b port m).1.display_physically_paused ≡ false
  unfolding connect connection_failed established bump_and_publish clear_history_cancellation
  connect-unpaused port m = ground arith

  pub call-IsCovered :
      {A : Type 0} (op : Call D A) (m : Manager F D) → IsCovered m → IsCovered (call op m).1
  call-IsCovered op m c = ground arith
