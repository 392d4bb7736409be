-- ===== src/Manager/Reports.antt =====
-- What the client of src/manager.rs is told of a configuration change that fails.
use wireview_pro_ii.Base.{◌≡◌, refl, subst, ap, String, Bool, true, Option, arith, if◌then◌else◌}
use wireview_pro_ii.Domain.Error.{
  DeviceError, connection_lost, operation_outcome_unknown, failed_and_rolled_back, rollback_failed,
  ok, err,
}
use wireview_pro_ii.Domain.Connection.{DisconnectReason, is_ready, is_busy, absent}
use wireview_pro_ii.Config.Types.{DeviceConfiguration}
use wireview_pro_ii.Manager.Backend.{Env}
use wireview_pro_ii.Manager.State.{Manager, set_busy, set_ready, bump_and_publish}
use wireview_pro_ii.Manager.Mutation.{Outcome, apply_configuration}
use wireview_pro_ii.Manager.Reply.{finish}
use wireview_pro_ii.Manager.Connection.{disconnect}
use wireview_pro_ii.Manager.Dispatch.{mutate, apply_configuration_command}
use wireview_pro_ii.Manager.Frame.{Frames-apply_configuration}
use wireview_pro_ii.Manager.Exclusive.{gone}
use wireview_pro_ii.Manager.Rollback.{
  IsUndone, IsStuck, Fails, IsStarted, apply_configuration-Fails,
}

module _ {F D : Type 0} (env : Env F D) where
  open env use {floats, backend}

  -- The name under which a change is busy.
  abbrev pub busy_name : Bool → String
  busy_name persist = if persist then "storing_configuration" else "applying_configuration"

  -- What an error that the client gets says of the manager and of the device.
  abbrev pub IsReported : DeviceConfiguration F → Bool → DeviceError → Manager F D → Type 0
  IsReported current persist operation_outcome_unknown m =
      m.state.connection ≡ absent DisconnectReason.serial_hangup
  IsReported current persist (failed_and_rolled_back failure) m =
      (is_ready m.state.connection ≡ true) × IsUndone env current persist m.device
  IsReported current persist (rollback_failed failure rollback) m =
      (is_ready m.state.connection ≡ true) × IsStuck env current persist rollback m.device
  IsReported _ _ _ _ = ⊥

  abbrev lost : DeviceError → Outcome env
  lost failure = err failure

  finished :
      (current : DeviceConfiguration F) (persist : Bool) (failure e : DeviceError) (m : Manager F D)
      → is_busy m.state.connection ≡ true
      → Fails env current persist failure m.device
      → (finish backend operation_outcome_unknown (lost failure) m).0 ≡ err e
      → IsReported current persist e (finish backend operation_outcome_unknown (lost failure) m).1
  unfolding finish set_ready bump_and_publish
  finished current persist connection_lost e m b f h =
      let same : operation_outcome_unknown ≡ e = ground arith in
      subst
        (λ x. IsReported current persist x (disconnect backend DisconnectReason.serial_hangup m).1)
        same (gone backend DisconnectReason.serial_hangup m (ground arith))
  finished current persist (failed_and_rolled_back failure) e m b f h =
      let same : failed_and_rolled_back failure ≡ e = ground arith in
      subst (λ x. IsReported current persist x (set_ready m).1) same (refl, f)
  finished current persist (rollback_failed failure rollback) e m b f h =
      let same : rollback_failed failure rollback ≡ e = ground arith in
      subst (λ x. IsReported current persist x (set_ready m).1) same (refl, f)
  finished current persist _ e m b f h = absurd f

  finished_change :
      (current : DeviceConfiguration F) (persist : Bool) (r : Outcome env) (e : DeviceError)
      (m : Manager F D)
      → is_busy m.state.connection ≡ true
      → ((failure : DeviceError) → r ≡ err failure → Fails env current persist failure m.device)
      → (finish backend operation_outcome_unknown r m).0 ≡ err e
      → IsReported current persist e (finish backend operation_outcome_unknown r m).1
  unfolding finish
  finished_change current persist (ok c) e m b f h = absurd (ground arith)
  finished_change current persist (err failure) e m b f h =
      finished current persist failure e m b (f failure refl) h

  -- A change of the configuration that a client asks for, that was started, and that fails, gives
  -- one of three errors, and each is true. An unknown outcome ends the session. A change that is
  -- reported as rolled back was undone at the device, which is ready. A change whose rollback is
  -- reported as failed ended with a rollback that failed at the device, with the error that is
  -- named and not by losing the connection, and the manager is ready.
  pub apply_configuration_command-IsReported :
      (c current : DeviceConfiguration F) (persist : Bool) (revision : Option String)
      (e : DeviceError) (m : Manager F D)
      → is_ready m.state.connection ≡ true
      → IsStarted env c revision current (set_busy (busy_name persist) m).1
      → (apply_configuration_command env c persist revision m).0 ≡ err e
      → IsReported current persist e (apply_configuration_command env c persist revision m).1
  unfolding apply_configuration_command mutate set_busy bump_and_publish
  apply_configuration_command-IsReported c current persist revision e m r start h =
      let busy = (set_busy (busy_name persist) m).1 in
      let change = apply_configuration env c persist revision busy in
      let same = Frames-apply_configuration env c persist revision busy in
      let still : is_busy change.1.state.connection ≡ true =
        ap (λ n. is_busy n.state.connection) same in
      let h' : (finish backend operation_outcome_unknown change.0 change.1).0 ≡ err e =
        ground arith in
      rw r (
        finished_change current persist change.0 e change.1 still
          (λ failure p.
            apply_configuration-Fails env c current persist revision failure busy start p)
          h')
