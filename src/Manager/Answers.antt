-- ===== src/Manager/Answers.antt =====
-- How the arms of `handle_command` in src/manager.rs end keeps the invariant.
use wireview_pro_ii.Base.{◌≡◌, String, Bool, true, false, inl, inr, arith, Bool-cases}
use wireview_pro_ii.Domain.Error.{DeviceError, Result, ok, err, is_connection_lost}
use wireview_pro_ii.Domain.Connection.{DisconnectReason, is_ready}
use wireview_pro_ii.Manager.Backend.{Call, Backend}
use wireview_pro_ii.Manager.State.{Manager, M, call, set_busy}
use wireview_pro_ii.Manager.Reply.{when_ready, when_ready_or_busy, finish, pass, settle}
use wireview_pro_ii.Manager.Frame.{Same}
use wireview_pro_ii.Manager.Invariant.{Inv, IsWorking}
use wireview_pro_ii.Manager.Keeps.{
  set_ready-Inv, set_busy-IsWorking, disconnect-Inv, disconnect-Inv_attached, Inv-IsWorking,
}

module _ {F D : Type 0} where
  pub call-IsWorking :
      {A : Type 0} (op : Call D A) (m : Manager F D) → IsWorking m → IsWorking (call op m).1
  call-IsWorking op m w = ground arith

  -- A step that only touches the outside leaves the manager working.
  pub Same-IsWorking : (m n : Manager F D) → Same m n → IsWorking m → IsWorking n
  Same-IsWorking m n s w = ground arith

  -- A ready manager that turns busy is working.
  pub started :
      (operation : String) (m : Manager F D)
      → Inv m
      → is_ready m.state.connection ≡ true
      → IsWorking (set_busy operation m).1
  started operation m i r = set_busy-IsWorking operation m (Inv-IsWorking m i r)

  pub when_ready-Inv :
      {A : Type 0} (body : M F D (Result A)) (m : Manager F D)
      → Inv m
      → (is_ready m.state.connection ≡ true → Inv (body m).1)
      → Inv (when_ready body m).1
  when_ready-Inv body m i h = elim (Bool-cases (is_ready m.state.connection)) [
    | inl r ↦ rw r (h r)
    | inr other ↦ rw other i
  ]

  pub when_ready_or_busy-Inv :
      {A : Type 0} (message : String) (body : M F D (Result A)) (m : Manager F D)
      → Inv m
      → (is_ready m.state.connection ≡ true → Inv (body m).1)
      → Inv (when_ready_or_busy message body m).1
  when_ready_or_busy-Inv message body m i h = elim (Bool-cases (is_ready m.state.connection)) [
    | inl r ↦ rw r (h r)
    | inr other ↦ rw other i
  ]

module _ {F D : Type 0} (b : Backend F D) where
  pub finish-Inv :
      {A : Type 0} (on_lost : DeviceError) (r : Result A) (m : Manager F D)
      → IsWorking m
      → Inv (finish b on_lost r m).1
  unfolding finish
  finish-Inv on_lost (ok a) m w = set_ready-Inv m w
  finish-Inv on_lost (err error) m w = elim (Bool-cases (is_connection_lost error)) [
    | inl gone ↦ rw gone (disconnect-Inv_attached b DisconnectReason.serial_hangup m w.connection)
    | inr other ↦ rw other (set_ready-Inv m w)
  ]

  pub pass-Inv :
      {A : Type 0} (on_lost : DeviceError) (r : Result A) (m : Manager F D)
      → Inv m
      → Inv (pass b on_lost r m).1
  unfolding pass
  pass-Inv on_lost (ok a) m i = i
  pass-Inv on_lost (err error) m i = elim (Bool-cases (is_connection_lost error)) [
    | inl gone ↦ rw gone (disconnect-Inv b DisconnectReason.serial_hangup m i)
    | inr other ↦ rw other i
  ]

  pub settle-Inv : (gone : Bool) (m : Manager F D) → IsWorking m → Inv (settle b gone m).1
  unfolding settle
  settle-Inv true m w = disconnect-Inv_attached b DisconnectReason.serial_hangup m w.connection
  settle-Inv false m w = set_ready-Inv m w
