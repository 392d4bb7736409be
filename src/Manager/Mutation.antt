-- ===== src/Manager/Mutation.antt =====
-- Configuration changes in src/manager.rs: apply, store, verify, and roll back.
use wireview_pro_ii.Base.{
  ℕ, ◌+◌, ◌-◌, String, Bool, not, ◌||◌, Option, none, some, ◌==◌, if◌then◌else◌,
}
use wireview_pro_ii.Base.Text.{◌<>◌, show}
use wireview_pro_ii.Base.Sort.{same_text}
use wireview_pro_ii.Domain.Error.{
  DeviceError, connection_lost, invalid_argument, failed_and_rolled_back, rollback_failed,
  revision_conflict, verification_failed, to_string, Result, ok, err, and_then, is_connection_lost,
}
use wireview_pro_ii.Config.Types.{store, DeviceConfiguration, from_configuration}
use wireview_pro_ii.Config.Validate.{validate}
use wireview_pro_ii.Config.Equality.{settings_eq, configuration_eq}
use wireview_pro_ii.Config.Items.{with_item}
use wireview_pro_ii.Config.Revision.{configuration_revision, with_protocol_metadata}
use wireview_pro_ii.Manager.Backend.{Env}
use wireview_pro_ii.Manager.State.{M, call, effect}
use wireview_pro_ii.Manager.Try.{lift, always, fail_if, ◌>>=◌, ◌>>◌}

abbrev pub min_nvm_mutation_interval : ℕ
min_nvm_mutation_interval = 1000

module _ {F D : Type 0} (env : Env F D) where
  open env use {floats, backend, serde}
  open backend use {now, sleep, read_configuration, write_configuration, nvm_configuration}

  abbrev pub Outcome : Type 0
  Outcome = Result (DeviceConfiguration F)

  -- How long is left of the interval since the last write of the non-volatile memory.
  abbrev pub nvm_wait : Option ℕ → ℕ → ℕ
  nvm_wait none time = 0
  nvm_wait (some last) time = min_nvm_mutation_interval - (time - last)

  unfoldable pub stamp_nvm_mutation : M F D (Unit {0})
  stamp_nvm_mutation m = (tt, record m { last_nvm_mutation = some (now m.device) })

  -- A wait of 0 does not sleep.
  unfoldable pub wait_for_nvm_mutation_slot : M F D (Unit {0})
  wait_for_nvm_mutation_slot m =
      let wait = nvm_wait m.last_nvm_mutation (now m.device) in
      stamp_nvm_mutation (if wait == 0 then m else record m { device = sleep wait m.device })

  -- `stored.raw_version != expected.raw_version || settings differ`
  abbrev pub differs : DeviceConfiguration F → DeviceConfiguration F → Bool
  differs stored expected =
      not (stored.raw_version == expected.raw_version)
      || not (settings_eq floats (from_configuration stored) (from_configuration expected))

  -- Store the active configuration, and read it back.
  unfoldable pub store_and_check : DeviceConfiguration F → String → M F D Outcome
  store_and_check expected message = do
    call (nvm_configuration store)
    always (effect (sleep 100))
    stored ← call read_configuration
    lift (validate floats stored)
    fail_if (differs stored expected) (verification_failed message)
    lift (ok stored)

  -- Write a configuration, and read it back.
  unfoldable pub write_and_check : DeviceConfiguration F → String → M F D Outcome
  write_and_check c message = do
    call (write_configuration c)
    always (effect (sleep 50))
    applied ← call read_configuration
    fail_if (not (configuration_eq floats applied c)) (verification_failed message)
    lift (ok applied)

  unfoldable pub rollback_configuration : DeviceConfiguration F → Bool → M F D (Result (Unit {0}))
  rollback_configuration original persist = do
    _ ← write_and_check original "active configuration rollback did not restore the original bytes"
    (if not persist then lift (ok tt) else do
      always stamp_nvm_mutation
      _ ←
          store_and_check original
            "stored configuration rollback did not restore the original settings"
      lift (ok tt))

  -- The `async` block of `apply_configuration`.
  unfoldable pub operation : DeviceConfiguration F → Bool → M F D Outcome
  operation c persist = do
    applied ← write_and_check c "configuration readback did not match the requested values"
    (if not persist then lift (ok applied) else do
      always wait_for_nvm_mutation_slot
      store_and_check c "stored configuration did not match the requested values")

  -- The last `match`, on the result of the rollback.
  abbrev pub rolled_back : DeviceError → Result (Unit {0}) → Outcome
  rolled_back error (ok _) = err (failed_and_rolled_back (to_string error))
  rolled_back error (err rollback) =
      if is_connection_lost rollback
      then err connection_lost
      else err (rollback_failed (to_string error) (to_string rollback))

  unfoldable pub recover : DeviceConfiguration F → Bool → Outcome → M F D Outcome
  recover current persist (ok c) m = (ok c, m)
  recover current persist (err error) m =
      if is_connection_lost error
      then (err connection_lost, m)
      else (let (undone, m') = rollback_configuration current persist m in
          (rolled_back error undone, m'))

  unfoldable pub attempt : DeviceConfiguration F → DeviceConfiguration F → Bool → M F D Outcome
  attempt c current persist m =
      let (result, m') = operation c persist m in recover current persist result m'

  abbrev pub check_revision : Option String → DeviceConfiguration F → M F D (Result (Unit {0}))
  check_revision none current m = (ok tt, m)
  check_revision (some expected) current m = (
    and_then (configuration_revision floats m.state.session_id current) (λ actual.
        if same_text expected actual
        then ok tt
        else err
            (revision_conflict "configuration changed; run `wireview config show --json` again")),
    m,
  )

  -- The checks of the request against the active configuration.
  unfoldable pub accept :
      DeviceConfiguration F → Option String → DeviceConfiguration F → M F D (Result (Unit {0}))
  accept c expected_revision current = do
    check_revision expected_revision current
    fail_if (not (current.raw_version == c.raw_version)) (
        invalid_argument (
          "configuration version changed from V"
          <> show (c.raw_version + 1)
          <> " to V"
          <> show (current.raw_version + 1)))
    fail_if (not (current.crc == c.crc))
        (invalid_argument "configuration is stale; run `wireview config show --json` again")

  unfoldable pub apply_configuration : DeviceConfiguration F → Bool → Option String → M F D Outcome
  apply_configuration c persist expected_revision = do
    lift (validate floats c)
    current ← call read_configuration
    accept c expected_revision current
    attempt c current persist

  unfoldable pub set_configuration_item : String → String → Bool → M F D Outcome
  set_configuration_item key value persist = do
    current ← call read_configuration
    settings ← lift (with_item floats serde (from_configuration current) key value)
    c ← lift (with_protocol_metadata floats settings current)
    apply_configuration c persist none
