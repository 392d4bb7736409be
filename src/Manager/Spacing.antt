-- ===== src/Manager/Spacing.antt =====
-- When src/manager.rs writes the non-volatile memory of the device for a client.
use wireview_pro_ii.Base.{
  ℕ, String, ◌+◌, ◌-◌, ◌≤◌, ◌≡◌, refl, ◌∙◌, true, some, none, inl, inr, arith, Bool-cases, ◌==◌,
}
use wireview_pro_ii.Domain.Error.{ok}
use wireview_pro_ii.Config.Types.{NvmOperation, DeviceConfiguration}
use wireview_pro_ii.Manager.Backend.{Env}
use wireview_pro_ii.Manager.State.{Manager, M, call, effect}
use wireview_pro_ii.Manager.Try.{always, ◌>>◌}
use wireview_pro_ii.Manager.Mutation.{
  Outcome, min_nvm_mutation_interval, nvm_wait, stamp_nvm_mutation, wait_for_nvm_mutation_slot,
  write_and_check, store_and_check, operation,
}
use wireview_pro_ii.Manager.Nvm.{load_checked, run_nvm_operation}

module _ {F D : Type 0} (env : Env F D) where
  open env use {backend}
  open backend use {now, sleep, nvm_configuration}

  -- A sleep lasts as long as it was asked for.
  abbrev pub Sleeps : Type 0
  Sleeps = (n : ℕ) (d : D) → now d + n ≤ now (sleep n d)

  -- The device's turn has come: it is an interval after the last mutation, which is now this one.
  pub record IsSpaced (last : ℕ) (m : Manager F D) : Type 0 where
    pub late : last + min_nvm_mutation_interval ≤ now m.device
    pub stamped : m.last_nvm_mutation ≡ some (now m.device)

  wait_for_nvm_mutation_slot-IsSpaced :
      (last : ℕ) (m : Manager F D)
      → Sleeps
      → m.last_nvm_mutation ≡ some last
      → last ≤ now m.device
      → IsSpaced last (wait_for_nvm_mutation_slot env m).1
  unfolding wait_for_nvm_mutation_slot stamp_nvm_mutation
  wait_for_nvm_mutation_slot-IsSpaced last m asleep e past =
      let slept = asleep (min_nvm_mutation_interval - (now m.device - last)) m.device in
      elim (Bool-cases (nvm_wait env (some last) (now m.device) == 0)) [
        | inl late ↦ record { late = ground arith; stamped = ground arith }
        | inr early ↦ record { late = ground arith; stamped = ground arith }
      ]

  -- What a reset does when its turn has come.
  abbrev pub reset_now : M F D (Outcome env)
  reset_now = do
    call (nvm_configuration NvmOperation.reset)
    always (effect (sleep 100))
    load_checked env none

  -- The clock does not go back while the device is called.
  pub record IsClock : Type 0 where
    pub sleeps : Sleeps
    pub writes :
        (c : DeviceConfiguration F) (d : D) → now d ≤ now (backend.write_configuration c d).1
    pub reads : (d : D) → now d ≤ now (backend.read_configuration d).1

  written_later :
      (c : DeviceConfiguration F) (message : String) (m : Manager F D)
      → IsClock
      → now m.device ≤ now (write_and_check env c message m).1.device
  unfolding write_and_check
  written_later c message m clock =
      let write = backend.write_configuration c m.device in
      let wrote = clock.writes c m.device in
      let slept = clock.sleeps 50 write.1 in
      let read = clock.reads (sleep 50 write.1) in ground arith

  written_stamp :
      (c : DeviceConfiguration F) (message : String) (m : Manager F D)
      → (write_and_check env c message m).1.last_nvm_mutation ≡ m.last_nvm_mutation
  unfolding write_and_check
  written_stamp c message m = ground arith

  abbrev pub write_message : String
  write_message = "configuration readback did not match the requested values"

  abbrev pub store_message : String
  store_message = "stored configuration did not match the requested values"

  -- A store that a change of the configuration asks for, once the change is written and read back,
  -- and a reset, are due at the device at least a second after the last mutation of its
  -- non-volatile memory that was noted, and are then noted in its place; the clock does not go back,
  -- and a sleep lasts as long as it was asked for. Nothing is stated of the store of a rollback.
  pub nvm_spacing :
      (last : ℕ) (c found : DeviceConfiguration F) (m : Manager F D)
      → IsClock
      → m.last_nvm_mutation ≡ some last
      → last ≤ now m.device
      → (write_and_check env c write_message m).0 ≡ ok found
      → ((q : Manager F D) × (operation env c true m ≡ store_and_check env c store_message q)
          × IsSpaced last q)
        × ((q : Manager F D) × (run_nvm_operation env NvmOperation.reset m ≡ reset_now q)
            × IsSpaced last q)
  unfolding operation run_nvm_operation
  nvm_spacing last c found m clock e past success =
      let written = (write_and_check env c write_message m).1 in
      let kept : written.last_nvm_mutation ≡ some last = written_stamp c write_message m ∙ e in
      let then = written_later c write_message m clock in
      (
        (
          (wait_for_nvm_mutation_slot env written).1,
          rw success refl,
          wait_for_nvm_mutation_slot-IsSpaced last written clock.sleeps kept
              (omega (arith, past, then)),
        ),
        (
          (wait_for_nvm_mutation_slot env m).1,
          refl,
          wait_for_nvm_mutation_slot-IsSpaced last m clock.sleeps e past,
        ),
      )
