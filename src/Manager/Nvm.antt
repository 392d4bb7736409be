-- ===== src/Manager/Nvm.antt =====
-- `run_nvm_operation` of src/manager.rs: reload and reset of the stored configuration.
use wireview_pro_ii.Base.{Bool, false, not, Option, none, some, ◌==◌}
use wireview_pro_ii.Base.Text.{◌<>◌}
use wireview_pro_ii.Domain.Error.{
  DeviceError, invalid_argument, transport, to_string, Result, ok, err,
}
use wireview_pro_ii.Config.Types.{NvmOperation, reload, store, reset, DeviceConfiguration}
use wireview_pro_ii.Config.Validate.{validate}
use wireview_pro_ii.Config.Equality.{configuration_eq}
use wireview_pro_ii.Manager.Backend.{Env}
use wireview_pro_ii.Manager.State.{M, call, effect}
use wireview_pro_ii.Manager.Try.{lift, always, fail_if, ◌>>=◌, ◌>>◌}
use wireview_pro_ii.Manager.Mutation.{Outcome, wait_for_nvm_mutation_slot}

module _ {F D : Type 0} (env : Env F D) where
  open env use {floats, backend}
  open backend use {sleep, read_configuration, write_configuration, nvm_configuration}

  -- Only a reload can be undone, so only it keeps the active configuration.
  abbrev pub save_active : NvmOperation → M F D (Result (Option (DeviceConfiguration F)))
  save_active reload = do previous ← call read_configuration; lift (ok (some previous))
  save_active store = lift (ok none)
  save_active reset = lift (ok none)

  abbrev pub wait_for_reset : NvmOperation → M F D (Result (Unit {0}))
  wait_for_reset reset = always (wait_for_nvm_mutation_slot env)
  wait_for_reset store = lift (ok tt)
  wait_for_reset reload = lift (ok tt)

  abbrev pub other_version : Option (DeviceConfiguration F) → DeviceConfiguration F → Bool
  other_version none loaded = false
  other_version (some previous) loaded = not (previous.raw_version == loaded.raw_version)

  unfoldable pub load : Option (DeviceConfiguration F) → M F D (Outcome env)
  load rollback = do
    loaded ← call read_configuration
    lift (validate floats loaded)
    fail_if (other_version rollback loaded)
        (invalid_argument "stored configuration has a different format version")
    lift (ok loaded)

  unfoldable pub restore : DeviceError → DeviceConfiguration F → M F D (Outcome env)
  restore load_error previous = do
    call (write_configuration previous)
    always (effect (sleep 50))
    restored ← call read_configuration
    fail_if (not (configuration_eq floats restored previous))
        (transport "saved configuration was invalid and restoring the active settings failed")
    lift (
        err (
          invalid_argument (
            "saved configuration is invalid; the previous active settings were restored ("
            <> to_string load_error
            <> ")")))

  -- The `match loaded`.
  unfoldable pub checked : Option (DeviceConfiguration F) → Outcome env → M F D (Outcome env)
  checked rollback (ok c) = lift (ok c)
  checked none (err load_error) = lift (err load_error)
  checked (some previous) (err load_error) = restore load_error previous

  unfoldable pub load_checked : Option (DeviceConfiguration F) → M F D (Outcome env)
  load_checked rollback m = let (loaded, m') = load rollback m in checked rollback loaded m'

  unfoldable pub run_nvm_operation : NvmOperation → M F D (Outcome env)
  run_nvm_operation operation = do
    rollback ← save_active operation
    wait_for_reset operation
    call (nvm_configuration operation)
    always (effect (sleep 100))
    load_checked rollback
