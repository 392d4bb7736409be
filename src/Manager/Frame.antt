-- ===== src/Manager/Frame.antt =====
-- The configuration methods of src/manager.rs touch nothing of the manager but the backend and the
-- time of the last write to the non-volatile memory.
use wireview_pro_ii.Base.{◌≡◌, refl, String, Bool, Option, arith}
use wireview_pro_ii.Domain.Error.{ok, err}
use wireview_pro_ii.Config.Types.{NvmOperation, reload, store, reset, DeviceConfiguration}
use wireview_pro_ii.Manager.Backend.{Env}
use wireview_pro_ii.Manager.State.{Manager, M}
use wireview_pro_ii.Manager.Mutation.{
  Outcome, stamp_nvm_mutation, wait_for_nvm_mutation_slot, store_and_check, write_and_check,
  rollback_configuration, operation, recover, attempt, accept, apply_configuration,
  set_configuration_item,
}
use wireview_pro_ii.Manager.Nvm.{load, restore, checked, load_checked, run_nvm_operation}

module _ {F D : Type 0} where
  abbrev pub Same : Manager F D → Manager F D → Type 0
  Same m n = n ≡ record m { device = n.device; last_nvm_mutation = n.last_nvm_mutation }

  pub Same-trans : (m n k : Manager F D) → Same m n → Same n k → Same m k
  Same-trans m n k p q = ground arith

  abbrev pub Frames : {A : Type 0} → M F D A → Type 0
  Frames {A} f = (m : Manager F D) → Same m (f m).1

module _ {F D : Type 0} (env : Env F D) where
  open env use {floats, backend}
  open backend use {read_configuration, write_configuration, nvm_configuration, sleep}

  Frames-wait : Frames (wait_for_nvm_mutation_slot env)
  unfolding wait_for_nvm_mutation_slot stamp_nvm_mutation
  Frames-wait m = ground arith

  Frames-write_and_check :
      (c : DeviceConfiguration F) (message : String) → Frames (write_and_check env c message)
  unfolding write_and_check
  Frames-write_and_check c message m = ground arith

  Frames-store_and_check :
      (c : DeviceConfiguration F) (message : String) → Frames (store_and_check env c message)
  unfolding store_and_check
  Frames-store_and_check c message m = ground arith

  Frames-rollback_configuration :
      (original : DeviceConfiguration F) (persist : Bool)
      → Frames (rollback_configuration env original persist)
  unfolding rollback_configuration stamp_nvm_mutation
  Frames-rollback_configuration original persist m =
      grind (arith, Frames-write_and_check, Frames-store_and_check)

  Frames-operation : (c : DeviceConfiguration F) (persist : Bool) → Frames (operation env c persist)
  unfolding operation
  Frames-operation c persist m =
      grind (arith, Frames-write_and_check, Frames-store_and_check, Frames-wait)

  Frames-recover :
      (current : DeviceConfiguration F) (persist : Bool) (r : Outcome env)
      → Frames (recover env current persist r)
  unfolding recover
  Frames-recover current persist (ok c) m = refl
  Frames-recover current persist (err e) m =
      ground (arith, Frames-rollback_configuration current persist m)

  Frames-attempt :
      (c current : DeviceConfiguration F) (persist : Bool) → Frames (attempt env c current persist)
  unfolding attempt
  Frames-attempt c current persist m =
      Same-trans m _ _ (Frames-operation c persist m)
        (Frames-recover current persist (operation env c persist m).0 (operation env c persist m).1)

  pub accept_same :
      (c : DeviceConfiguration F) (revision : Option String) (current : DeviceConfiguration F)
      (m : Manager F D)
      → (accept env c revision current m).1 ≡ m
  unfolding accept
  accept_same c revision current m = ground arith

  pub Frames-apply_configuration :
      (c : DeviceConfiguration F) (persist : Bool) (revision : Option String)
      → Frames (apply_configuration env c persist revision)
  unfolding apply_configuration
  Frames-apply_configuration c persist revision m = grind (arith, accept_same, Frames-attempt)

  pub Frames-set_configuration_item :
      (key value : String) (persist : Bool) → Frames (set_configuration_item env key value persist)
  unfolding set_configuration_item
  Frames-set_configuration_item key value persist m = grind (arith, Frames-apply_configuration)

  Frames-load : (rollback : Option (DeviceConfiguration F)) → Frames (load env rollback)
  unfolding load
  Frames-load rollback m = ground arith

  Frames-checked :
      (rollback : Option (DeviceConfiguration F)) (r : Outcome env)
      → Frames (checked env rollback r)
  unfolding checked restore
  Frames-checked rollback r m = ground arith

  Frames-load_checked :
      (rollback : Option (DeviceConfiguration F)) → Frames (load_checked env rollback)
  unfolding load_checked
  Frames-load_checked rollback m =
      Same-trans m _ _ (Frames-load rollback m)
        (Frames-checked rollback (load env rollback m).0 (load env rollback m).1)

  pub Frames-run_nvm_operation : (op : NvmOperation) → Frames (run_nvm_operation env op)
  unfolding run_nvm_operation
  Frames-run_nvm_operation reload m = grind (arith, Frames-wait, Frames-load_checked)
  Frames-run_nvm_operation store m = grind (arith, Frames-wait, Frames-load_checked)
  Frames-run_nvm_operation reset m = grind (arith, Frames-wait, Frames-load_checked)
