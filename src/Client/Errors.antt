-- ===== src/Client/Errors.antt =====
-- `ClientError` of crates/wireview-gui/src/client.rs and the results of its fallible code.
use wireview_pro_ii.Base.{String, Bool, true, false}
use wireview_pro_ii.Domain.Error.{DeviceError}
use wireview_pro_ii.Ipc.Errors.{WireViewError}
use wireview_pro_ii.Ipc.Compatibility.{Compatibility}

pub data ClientError : Type 0 where
  transport invalid_input protocol export : String → ClientError
  timeout disconnected cancelled : ClientError
  remote : WireViewError → ClientError
  compatibility : Compatibility → ClientError
  device : DeviceError → ClientError

pub data Reply (A : Type 0) : Type 0 where
  good : A → Reply A
  fail : ClientError → Reply A

-- `ClientError::disconnects_client`
unfoldable pub disconnects_client : ClientError → Bool
disconnects_client (transport m) = true
disconnects_client timeout = true
disconnects_client disconnected = true
disconnects_client _ = false

-- The `?` operator.
abbrev pub and_then : {A B : Type 0} → Reply A → (A → Reply B) → Reply B
and_then (good a) f = f a
and_then (fail e) f = fail e

infixl 5 ◌>>=◌ ◌>>◌
abbrev pub ◌>>=◌ : {A B : Type 0} → Reply A → (A → Reply B) → Reply B
r >>= f = and_then r f

abbrev pub ◌>>◌ : {B : Type 0} → Reply (Unit {0}) → Reply B → Reply B
r >> k = and_then r (λ _. k)

abbrev pub fail_if : Bool → ClientError → Reply (Unit {0})
fail_if true e = fail e
fail_if false e = good tt
