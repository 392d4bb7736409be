-- ===== src/Ipc/Events.antt =====
-- The events of crates/wireview-ipc/src/lib.rs, as a client gets them.
use wireview_pro_ii.Base.{ℕ, String, Option, none, some, if◌then◌else◌}
use wireview_pro_ii.Base.Sort.{same_text}
use wireview_pro_ii.Domain.Telemetry.{Screen}
use wireview_pro_ii.Domain.Connection.{
  DisconnectReason, startup, removed_from_host, serial_hangup, presence_check_failed, replaced,
  device_reboot, shutdown, DeviceEvent, connected, disconnected, telemetry_updated, screen_changed,
}
use wireview_pro_ii.Ipc.Messages.{StatusDto}

pub record DeviceEventDto : Type 0 where
  pub event : String
  pub sequence : ℕ
  pub session_id : ℕ
  pub port : Option String
  pub reason : Option String
  pub screen : Option String

-- `format!("{screen:?}")`
unfoldable pub screen_text : Screen → String
screen_text Screen.main = "Main"
screen_text Screen.current = "Current"
screen_text Screen.temp = "Temp"
screen_text Screen.status = "Status"
screen_text Screen.simple = "Simple"
screen_text Screen.same = "Same"

-- `(!text.is_empty()).then(…)`
abbrev pub unless_empty : String → Option String
unless_empty text = if same_text text "" then none else some text

unfoldable pub snapshot : StatusDto → DeviceEventDto
snapshot status = record {
  event = "snapshot";
  sequence = status.sequence;
  session_id = status.session_id;
  port = unless_empty status.connected_port;
  reason = unless_empty status.last_disconnect_reason;
  screen = none;
}

-- `Display` of the reason: its name in serde's snake case.
unfoldable pub reason_text : DisconnectReason → String
reason_text startup = "startup"
reason_text removed_from_host = "removed_from_host"
reason_text serial_hangup = "serial_hangup"
reason_text presence_check_failed = "presence_check_failed"
reason_text replaced = "replaced"
reason_text device_reboot = "device_reboot"
reason_text shutdown = "shutdown"

-- `impl From<DeviceEvent>`
unfoldable pub event_dto : DeviceEvent → DeviceEventDto
unfolding reason_text screen_text
event_dto (connected sequence session_id port) = record {
  event = "connected";
  sequence = sequence;
  session_id = session_id;
  port = some port;
  reason = none;
  screen = none;
}
event_dto (disconnected sequence session_id reason) = record {
  event = "disconnected";
  sequence = sequence;
  session_id = session_id;
  port = none;
  reason = some (reason_text reason);
  screen = none;
}
event_dto (telemetry_updated sequence session_id) = record {
  event = "telemetry_updated";
  sequence = sequence;
  session_id = session_id;
  port = none;
  reason = none;
  screen = none;
}
event_dto (screen_changed sequence session_id screen) = record {
  event = "screen_changed";
  sequence = sequence;
  session_id = session_id;
  port = none;
  reason = none;
  screen = some (screen_text screen);
}
