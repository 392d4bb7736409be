-- ===== src/Domain/Error.antt =====
-- `DeviceError` of crates/wireview-core/src/domain.rs, and the results of fallible code.
use wireview_pro_ii.Base.{String, Bool, true, false, ◌≡◌, ◌⊎◌, inl, inr, refl}
use wireview_pro_ii.Base.Text.{◌<>◌}

pub data DeviceError : Type 0 where
  not_connected connection_lost connection_lost_before_mutation : DeviceError
  operation_outcome_unknown operation_cancelled ambiguous_device : DeviceError
  unsupported invalid_argument busy protocol_unverified transport : String → DeviceError
  failed_and_rolled_back : String → DeviceError
  rollback_failed : String → String → DeviceError
  revision_conflict verification_failed : String → DeviceError
  manager_stopped : DeviceError

-- The `#[error(…)]` attributes.
unfoldable pub to_string : DeviceError → String
unfolding ◌<>◌
to_string not_connected = "device is not connected"
to_string connection_lost = "device connection was lost"
to_string connection_lost_before_mutation = "device connection was lost before mutation started"
to_string operation_outcome_unknown = "operation outcome is unknown because the device disconnected"
to_string operation_cancelled = "operation was cancelled"
to_string ambiguous_device = "more than one matching device is present"
to_string (unsupported m) = "unsupported device or firmware: " <> m
to_string (invalid_argument m) = "invalid argument: " <> m
to_string (busy m) = "device is busy: " <> m
to_string (protocol_unverified m) = "protocol is not verified: " <> m
to_string (transport m) = "transport error: " <> m
to_string (failed_and_rolled_back m) =
    "device mutation failed and the previous state was restored: " <> m
to_string (rollback_failed operation rollback) =
    "device mutation failed (" <> operation <> "); rollback also failed (" <> rollback <> ")"
to_string (revision_conflict m) = "configuration revision conflict: " <> m
to_string (verification_failed m) = "verification failed: " <> m
to_string manager_stopped = "manager task stopped"

-- `error == DeviceError::ConnectionLost`
abbrev pub is_connection_lost : DeviceError → Bool
is_connection_lost connection_lost = true
is_connection_lost _ = false

pub data Result (A : Type 0) : Type 0 where
  ok : A → Result A
  err : DeviceError → Result A

-- `and_then`
abbrev pub and_then : {A B : Type 0} → Result A → (A → Result B) → Result B
and_then (ok a) f = f a
and_then (err e) f = err e

abbrev pub is_ok : {A : Type 0} → Result A → Bool
is_ok (ok a) = true
is_ok (err e) = false

-- `matches!(r, Err(DeviceError::ConnectionLost))`
abbrev pub lost : {A : Type 0} → Result A → Bool
lost (ok a) = false
lost (err e) = is_connection_lost e

pub Result-cases :
    {A : Type 0} (r : Result A) → ((a : A) × (r ≡ ok a)) ⊎ ((e : DeviceError) × (r ≡ err e))
Result-cases (ok a) = inl (a, refl)
Result-cases (err e) = inr (e, refl)

-- The `?` operator.
infixl 5 ◌>>=◌ ◌>>◌
abbrev pub ◌>>=◌ : {A B : Type 0} → Result A → (A → Result B) → Result B
r >>= f = and_then r f

abbrev pub ◌>>◌ : {B : Type 0} → Result (Unit {0}) → Result B → Result B
r >> k = and_then r (λ _. k)
