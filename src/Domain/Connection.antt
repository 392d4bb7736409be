-- ===== src/Domain/Connection.antt =====
-- The connection states, the published state and the events of
-- crates/wireview-core/src/domain.rs.
use wireview_pro_ii.Base.{ℕ, String, Bool, true, false, List, Option, none, some}
use wireview_pro_ii.Domain.Telemetry.{Screen, DeviceIdentity, Telemetry}

pub data DisconnectReason : Type 0 where
  startup removed_from_host serial_hangup presence_check_failed : DisconnectReason
  replaced device_reboot shutdown : DisconnectReason

pub data ConnectionState : Type 0 where
  absent : DisconnectReason → ConnectionState
  discovering : ConnectionState
  connecting : String → ConnectionState
  ready : ℕ → ConnectionState
  busy : ℕ → String → ConnectionState
  disconnecting : ℕ → DisconnectReason → ConnectionState
  recovering : ℕ → String → ConnectionState
  unsupported : String → ConnectionState
  ambiguous_device : List String → ConnectionState

-- `ConnectionState::name`
pub name : ConnectionState → String
name (absent r) = "absent"
name discovering = "discovering"
name (connecting p) = "connecting"
name (ready s) = "ready"
name (busy s o) = "busy"
name (disconnecting s c) = "disconnecting"
name (recovering a c) = "recovering"
name (unsupported r) = "unsupported"
name (ambiguous_device c) = "ambiguous_device"

-- `matches!(connection, ConnectionState::Ready { .. })`
abbrev pub is_ready : ConnectionState → Bool
is_ready (ready s) = true
is_ready _ = false

abbrev pub is_busy : ConnectionState → Bool
is_busy (busy s o) = true
is_busy _ = false

abbrev pub is_absent : ConnectionState → Bool
is_absent (absent r) = true
is_absent _ = false

pub record DaemonState (F : Type 0) : Type 0 where
  pub sequence : ℕ
  pub session_id : ℕ
  pub connection : ConnectionState
  pub connected_port : Option String
  pub last_disconnect_reason : Option DisconnectReason
  pub identity : Option DeviceIdentity
  pub telemetry : Option (Telemetry F)

-- `DaemonState::default`
unfoldable pub default_state : {F : Type 0} → DaemonState F
default_state = record {
  sequence = 0;
  session_id = 0;
  connection = absent startup;
  connected_port = none;
  last_disconnect_reason = some startup;
  identity = none;
  telemetry = none;
}

pub data DeviceEvent : Type 0 where
  connected : ℕ → ℕ → String → DeviceEvent
  disconnected : ℕ → ℕ → DisconnectReason → DeviceEvent
  telemetry_updated : ℕ → ℕ → DeviceEvent
  screen_changed : ℕ → ℕ → Screen → DeviceEvent
