-- ===== src/Manager/Rollback.antt =====
-- What a rollback of src/manager.rs does to the device, and what a change that fails has done.
use wireview_pro_ii.Base.{
  ◌≡◌, refl, sym, subst, ap, ◌∙◌, String, Bool, true, false, Option, inl, inr, arith, Bool-cases,
}
use wireview_pro_ii.Domain.Error.{
  DeviceError, connection_lost, failed_and_rolled_back, rollback_failed, ok, err, to_string,
  Result-cases, is_connection_lost,
}
use wireview_pro_ii.Config.Types.{NvmOperation, DeviceConfiguration}
use wireview_pro_ii.Config.Validate.{validate}
use wireview_pro_ii.Config.Equality.{configuration_eq}
use wireview_pro_ii.Manager.Backend.{Env}
use wireview_pro_ii.Manager.State.{Manager}
use wireview_pro_ii.Manager.Mutation.{
  Outcome, differs, stamp_nvm_mutation, store_and_check, write_and_check, rollback_configuration,
  recover, attempt, accept, apply_configuration,
}
use wireview_pro_ii.Manager.Frame.{accept_same}

module _ {F D : Type 0} (env : Env F D) where
  open env use {floats, backend}
  open backend use {sleep, read_configuration, write_configuration, nvm_configuration}

  -- The configuration was written, and was the one that the device then answered.
  pub record IsWritten (c : DeviceConfiguration F) (before after : D) : Type 0 where
    pub written : D
    pub found : DeviceConfiguration F
    pub writes : write_configuration c before ≡ (ok tt, written)
    pub reads : read_configuration (sleep 50 written) ≡ (ok found, after)
    pub same : configuration_eq floats found c ≡ true

  -- The device stored what was active, and its settings were those that it then answered.
  pub record IsStored (c : DeviceConfiguration F) (before after : D) : Type 0 where
    pub stored : D
    pub found : DeviceConfiguration F
    pub stores : nvm_configuration NvmOperation.store before ≡ (ok tt, stored)
    pub reads : read_configuration (sleep 100 stored) ≡ (ok found, after)
    pub valid : validate floats found ≡ ok tt
    pub same : differs env found c ≡ false

  -- The device was written with this configuration, and where that was asked for stored it, as the
  -- last things that were done to it.
  abbrev pub IsUndone : DeviceConfiguration F → Bool → D → Type 0
  IsUndone original false d = (before : D) × IsWritten original before d
  IsUndone original true d =
      (before active : D) × IsWritten original before active × IsStored original active d

  written_lem :
      (c found : DeviceConfiguration F) (message : String) (m : Manager F D)
      → (write_and_check env c message m).0 ≡ ok found
      → IsWritten c m.device (write_and_check env c message m).1.device
  unfolding write_and_check
  written_lem c found message m h = record {
    written = (write_configuration c m.device).1;
    found = found;
    writes = ground arith;
    reads = ground arith;
    same = ground arith;
  }

  stored_lem :
      (c found : DeviceConfiguration F) (message : String) (m : Manager F D)
      → (store_and_check env c message m).0 ≡ ok found
      → IsStored c m.device (store_and_check env c message m).1.device
  unfolding store_and_check
  stored_lem c found message m h = record {
    stored = (nvm_configuration NvmOperation.store m.device).1;
    found = found;
    stores = ground arith;
    reads = ground arith;
    valid = ground arith;
    same = ground arith;
  }

  -- A rollback that succeeds.
  pub rollback_configuration-IsUndone :
      (original : DeviceConfiguration F) (persist : Bool) (m : Manager F D)
      → (rollback_configuration env original persist m).0 ≡ ok tt
      → IsUndone original persist (rollback_configuration env original persist m).1.device
  unfolding rollback_configuration stamp_nvm_mutation
  rollback_configuration-IsUndone original false m h =
      let written =
        write_and_check env original
          "active configuration rollback did not restore the original bytes" m in
      elim (Result-cases written.0) [
        | inr (e, p) ↦ ground arith
        | inl (found, p) ↦ (m.device, rw p (written_lem original found _ m p))
      ]
  rollback_configuration-IsUndone original true m h =
      let written =
        write_and_check env original
          "active configuration rollback did not restore the original bytes" m in
      let stamped = (stamp_nvm_mutation env written.1).1 in
      let stored =
        store_and_check env original
          "stored configuration rollback did not restore the original settings" stamped in
      elim (Result-cases written.0) [
        | inr (e, p) ↦ ground arith
        | inl (found, p) ↦ elim (Result-cases stored.0) [
          | inr (e, q) ↦ ground arith
          | inl (kept, q) ↦ (
            m.device,
            written.1.device,
            written_lem original found _ m p,
            rw (p, q) (stored_lem original kept _ stamped q),
          )
        ]
      ]

  -- A rollback of the configuration ended at this device with an error of this text.
  abbrev pub IsStuck : DeviceConfiguration F → Bool → String → D → Type 0
  IsStuck current persist text d =
      (n : Manager F D) × (e : DeviceError) × ((rollback_configuration env current persist n).0
        ≡ err e)
      × (is_connection_lost e ≡ false)
      × (text ≡ to_string e)
      × (d ≡ (rollback_configuration env current persist n).1.device)

  -- What the error of a change says of the device.
  abbrev pub Fails : DeviceConfiguration F → Bool → DeviceError → D → Type 0
  Fails current persist connection_lost d = Unit {0}
  Fails current persist (failed_and_rolled_back failure) d = IsUndone current persist d
  Fails current persist (rollback_failed failure rollback) d = IsStuck current persist rollback d
  Fails _ _ _ _ = ⊥

  recover-Fails :
      (current : DeviceConfiguration F) (persist : Bool) (r : Outcome env) (e : DeviceError)
      (m : Manager F D)
      → (recover env current persist r m).0 ≡ err e
      → Fails current persist e (recover env current persist r m).1.device
  unfolding recover
  recover-Fails current persist (ok c) e m h = absurd (ground arith)
  recover-Fails current persist (err failure) e m h =
      let d = (recover env current persist (err failure) m).1.device in
      let undo = rollback_configuration env current persist m in
      elim (Bool-cases (is_connection_lost failure)) [
        | inl gone ↦
            let same : connection_lost ≡ e = ground arith in
            subst (λ x. Fails current persist x d) same tt
        | inr other ↦ elim (Result-cases undo.0) [
          | inl (_, undone) ↦
              let same : failed_and_rolled_back (to_string failure) ≡ e = ground arith in
              let held = rollback_configuration-IsUndone current persist m undone in
              subst (λ x. Fails current persist x d) same (rw other held)
          | inr (stuck, p) ↦ elim (Bool-cases (is_connection_lost stuck)) [
            | inl gone ↦
                let same : connection_lost ≡ e = ground arith in
                subst (λ x. Fails current persist x d) same tt
            | inr here ↦
                let same : rollback_failed (to_string failure) (to_string stuck) ≡ e =
                  ground arith in
                let left : d ≡ undo.1.device = rw other refl in
                subst (λ x. Fails current persist x d) same (m, stuck, p, here, refl, left)
          ]
        ]
      ]

  attempt-Fails :
      (c current : DeviceConfiguration F) (persist : Bool) (e : DeviceError) (m : Manager F D)
      → (attempt env c current persist m).0 ≡ err e
      → Fails current persist e (attempt env c current persist m).1.device
  unfolding attempt
  attempt-Fails c current persist e m h = recover-Fails current persist _ e _ h

  -- A change is started on a manager: the device answers `current`, and the request is valid and
  -- fits it.
  pub record IsStarted (c : DeviceConfiguration F) (revision : Option String)
      (current : DeviceConfiguration F) (m : Manager F D) : Type 0 where
    pub answered : D
    pub reads : read_configuration m.device ≡ (ok current, answered)
    pub valid : validate floats c ≡ ok tt
    pub accepted : (accept env c revision current (record m { device = answered })).0 ≡ ok tt

  started :
      (c current : DeviceConfiguration F) (persist : Bool) (revision : Option String)
      (m : Manager F D) (start : IsStarted c revision current m)
      → apply_configuration env c persist revision m
        ≡ attempt env c current persist (record m { device = start.answered })
  unfolding apply_configuration
  started c current persist revision m start =
      let fits = start.accepted in
      let stays = accept_same env c revision current (record m { device = start.answered }) in
      let answer : (read_configuration m.device).0 ≡ ok current = ap (λ r. r.0) start.reads in
      let after : (read_configuration m.device).1 ≡ start.answered = ap (λ r. r.1) start.reads in
      rw (start.valid, answer, after, fits, stays) refl

  pub apply_configuration-Fails :
      (c current : DeviceConfiguration F) (persist : Bool) (revision : Option String)
      (e : DeviceError) (m : Manager F D)
      → IsStarted c revision current m
      → (apply_configuration env c persist revision m).0 ≡ err e
      → Fails current persist e (apply_configuration env c persist revision m).1.device
  apply_configuration-Fails c current persist revision e m start h =
      let same = started c current persist revision m start in
      rw same (
        attempt-Fails c current persist e (record m { device = start.answered })
          (sym (ap (λ r. r.0) same) ∙ h))

  -- When a change that was started is reported as failed and rolled back, the device was written
  -- with the configuration that it had answered before the change and answered it again; where the
  -- change was to be stored, the device was then told to store it, which it did, and answered valid
  -- settings that are the old ones. Nothing else was done to the device after that.
  pub apply_configuration-IsUndone :
      (c current : DeviceConfiguration F) (persist : Bool) (revision : Option String)
      (reason : String) (m : Manager F D)
      → IsStarted c revision current m
      → (apply_configuration env c persist revision m).0 ≡ err (failed_and_rolled_back reason)
      → IsUndone current persist (apply_configuration env c persist revision m).1.device
  apply_configuration-IsUndone c current persist revision reason m start h =
      apply_configuration-Fails c current persist revision (failed_and_rolled_back reason) m start h
