-- ===== src/Manager/Outcomes.antt =====
-- What the results of the configuration changes of src/manager.rs say of the device.
use wireview_pro_ii.Base.{
  ◌≡◌, refl, String, Bool, true, false, not, ◌||◌, ◌&&◌, Option, inl, inr, arith,
}
use wireview_pro_ii.Domain.Error.{Result, ok, err, Result-cases, is_ok}
use wireview_pro_ii.Config.Types.{NvmOperation, DeviceConfiguration}
use wireview_pro_ii.Config.Equality.{configuration_eq}
use wireview_pro_ii.Config.Validate.{validate}
use wireview_pro_ii.Manager.Backend.{Env}
use wireview_pro_ii.Manager.State.{Manager, M, call}
use wireview_pro_ii.Manager.Try.{lift, continue}
use wireview_pro_ii.Manager.Mutation.{
  Outcome, differs, wait_for_nvm_mutation_slot, store_and_check, write_and_check, operation,
  recover, attempt, accept, apply_configuration,
}

module _ {F D : Type 0} (env : Env F D) where
  open env use {floats, backend}
  open backend use {now, sleep, read_configuration}

  -- The device has just answered that it holds this configuration.
  pub record WasRead (found : DeviceConfiguration F) (m : Manager F D) : Type 0 where
    pub before : D
    pub answer : read_configuration before ≡ (ok found, m.device)

  write_and_check_ok :
      (c found : DeviceConfiguration F) (message : String) (m : Manager F D)
      → (write_and_check env c message m).0 ≡ ok found
      → (configuration_eq floats found c ≡ true) × WasRead found (write_and_check env c message m).1
  unfolding write_and_check
  write_and_check_ok c found message m h =
      let before = sleep 50 (backend.write_configuration c m.device).1 in
      (ground arith, record { before = before; answer = ground arith })

  -- What a `store` leaves: the settings asked for, as the device then reads them.
  store_and_check_ok :
      (expected found : DeviceConfiguration F) (message : String) (m : Manager F D)
      → (store_and_check env expected message m).0 ≡ ok found
      → (validate floats found ≡ ok tt)
        × (differs env found expected ≡ false)
        × WasRead found (store_and_check env expected message m).1
  unfolding store_and_check
  store_and_check_ok expected found message m h =
      let before = sleep 100 (backend.nvm_configuration NvmOperation.store m.device).1 in
      (ground arith, ground arith, record { before = before; answer = ground arith })

  -- The device holds what was asked for: the very configuration where it is only applied, its
  -- settings, checked again, where it is stored.
  pub record Holds (c : DeviceConfiguration F) (persist : Bool) (found : DeviceConfiguration F)
      (m : Manager F D) : Type 0 where
    pub was_read : WasRead found m
    pub applied : persist || configuration_eq floats found c ≡ true
    pub stored : not persist || (is_ok (validate floats found) && not (differs env found c)) ≡ true

  -- A success ran its last step.
  after_ok :
      {A B : Type 0} (P : Manager F D → Type 0) (b : B) (r : Result A) (f : A → M F D (Result B))
      (m : Manager F D)
      → (continue r f m).0 ≡ ok b
      → ((a : A) → r ≡ ok a → (f a m).0 ≡ ok b → P (f a m).1)
      → P (continue r f m).1
  after_ok P b (ok a) f m h step = step a refl h
  after_ok P b (err e) f m h step = ground arith

  stored_Holds :
      (c found : DeviceConfiguration F) (message : String) (m : Manager F D)
      → (store_and_check env c message m).0 ≡ ok found
      → Holds c true found (store_and_check env c message m).1
  stored_Holds c found message m h =
      let (valid, same, read) = store_and_check_ok c found message m h in
      record { was_read = read; applied = refl; stored = ground arith }

  written_Holds :
      (c found : DeviceConfiguration F) (message : String) (m : Manager F D)
      → (write_and_check env c message m).0 ≡ ok found
      → Holds c false found (write_and_check env c message m).1
  written_Holds c found message m h =
      let (same, read) = write_and_check_ok c found message m h in
      record { was_read = read; applied = same; stored = refl }

  -- A change that succeeded left the device with what was asked for.
  operation-Holds :
      (c found : DeviceConfiguration F) (persist : Bool) (m : Manager F D)
      → (operation env c persist m).0 ≡ ok found
      → Holds c persist found (operation env c persist m).1
  unfolding operation
  operation-Holds c found false m h =
      let written =
        write_and_check env c "configuration readback did not match the requested values" m in
      after_ok (Holds c false found) found written.0 (λ x. lift (ok x)) written.1 h
        λ a e g. written_Holds c found _ m (ground arith)
  operation-Holds c found true m h =
      let written =
        write_and_check env c "configuration readback did not match the requested values" m in
      let waited = (wait_for_nvm_mutation_slot env written.1).1 in
      after_ok (Holds c true found) found written.0 _ written.1 h
        λ a e g. stored_Holds c found _ waited g

  recover-Holds :
      (c current found : DeviceConfiguration F) (persist : Bool) (r : Outcome env) (m : Manager F D)
      → (recover env current persist r m).0 ≡ ok found
      → (r ≡ ok found → Holds c persist found m)
      → Holds c persist found (recover env current persist r m).1
  unfolding recover
  recover-Holds c current found persist (ok x) m h g = g h
  recover-Holds c current found persist (err e) m h g = ground arith

  attempt-Holds :
      (c current found : DeviceConfiguration F) (persist : Bool) (m : Manager F D)
      → (attempt env c current persist m).0 ≡ ok found
      → Holds c persist found (attempt env c current persist m).1
  unfolding attempt
  attempt-Holds c current found persist m h =
      recover-Holds c current found persist _ _ h (operation-Holds c found persist m)

  -- A successful change passed every check, and is an attempt.
  accepted :
      (c found : DeviceConfiguration F) (persist : Bool) (revision : Option String)
      (m : Manager F D)
      → (apply_configuration env c persist revision m).0 ≡ ok found
      → (validate floats c ≡ ok tt)
        × (current : DeviceConfiguration F) × (n : Manager F D) × (apply_configuration env c persist
              revision m
            ≡ attempt env c current persist n)
  unfolding apply_configuration
  accepted c found persist revision m h =
      let read = (read_configuration m.device).0 in
      let m' = (call read_configuration m).1 in
      elim (Result-cases (validate floats c)) [
        | inr (e, p) ↦ ground arith
        | inl (_, p) ↦ elim (Result-cases read) [
          | inr (e, q) ↦ ground arith
          | inl (current, q) ↦ elim (Result-cases (accept env c revision current m').0) [
            | inr (e, r) ↦ ground arith
            | inl (_, r) ↦
                (ground arith, current, (accept env c revision current m').1, ground arith)
          ]
        ]
      ]

  -- An accepted change of the configuration was valid, and the device, read again, holds it.
  pub apply_configuration-Holds :
      (c found : DeviceConfiguration F) (persist : Bool) (revision : Option String)
      (m : Manager F D)
      → (apply_configuration env c persist revision m).0 ≡ ok found
      → (validate floats c ≡ ok tt)
        × Holds c persist found (apply_configuration env c persist revision m).1
  apply_configuration-Holds c found persist revision m h =
      let (valid, current, n, e) = accepted c found persist revision m h in
      (valid, rw e (attempt-Holds c current found persist n (ground arith)))
