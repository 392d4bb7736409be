-- ===== src/Serial/Session.antt =====
-- The fields of `SerialBackend` in src/backend.rs, its two ways to send a command, and `connect`
-- with the handshake. Opening a port and setting its lines are the operating system's: a parameter.
use wireview_pro_ii.Base.{
  ℕ, zero, suc, ◌+◌, ◌-◌, ◌*◌, Bool, true, false, not, ◌||◌, String, Option, none, some, List, [],
  ◌∷◌, ◌++◌, leb, ltb, ◌==◌, if◌then◌else◌, take, length,
}
use wireview_pro_ii.Base.Text.{◌<>◌, show, show_hex_upper}
use wireview_pro_ii.Domain.Error.{not_connected, invalid_argument, unsupported, Result, ok, err}
use wireview_pro_ii.Domain.Telemetry.{Screen, DeviceIdentity}
use wireview_pro_ii.Config.Bytes.{byte_at}
use wireview_pro_ii.Protocol.Commands.{
  ScreenCommand, read_vendor_data, read_uid, read_config, write_config, screen_change,
  resume_updates, code, screen_code,
}
use wireview_pro_ii.Manager.Backend.{Call}
use wireview_pro_ii.Serial.Port.{
  SerialIo, pure, lift, fail_if, always, wait, in_time, ◌>>=◌, ◌>>◌, transmit,
}
use wireview_pro_ii.Serial.Transaction.{same_bytes}

abbrev pub welcome_message : List ℕ
welcome_message =
    b'T' ∷ b'h' ∷ b'e' ∷ b'r' ∷ b'm' ∷ b'a' ∷ b'l' ∷ b' ' ∷ b'G' ∷ b'r' ∷ b'i' ∷ b'z' ∷ b'z' ∷ b'l'
    ∷ b'y' ∷ b' ' ∷ b'W' ∷ b'i' ∷ b'r' ∷ b'e' ∷ b'V' ∷ b'i' ∷ b'e' ∷ b'w' ∷ b' ' ∷ b'P' ∷ b'r'
    ∷ b'o' ∷ b' ' ∷ b'I' ∷ b'I' ∷ []

abbrev pub welcome_response_size : ℕ
welcome_response_size = length welcome_message + 1

abbrev pub vendor_response_size : ℕ
vendor_response_size = 3

abbrev pub uid_response_size : ℕ
uid_response_size = 12

abbrev pub config_version_response_size : ℕ
config_version_response_size = 4

abbrev pub config_write_payload : ℕ
config_write_payload = 62

abbrev pub flash_start_address : ℕ
flash_start_address = 0x0080_0000

abbrev pub flash_length : ℕ
flash_length = 0x0080_0000

abbrev pub max_chunk_size : ℕ
max_chunk_size = 64 * 1024

-- The driver: `open` has the calls from `tokio_serial::new` to `clear`, `request_to_send` sets the
-- line, and the rest is the open port.
pub record Driver (P : Type 0) : Type 0 where
  pub io : SerialIo P
  pub open_exclusive : String → Call P (Unit {0})
  pub request_to_send : Bool → Call P (Unit {0})
  -- `Instant::now`, and the cells that the manager makes and sets.
  pub now : P → ℕ
  pub new_cancellation : P → ℕ × P
  pub cancel : ℕ → P → P

-- The fields of `SerialBackend`, with what is behind the port.
pub record SerialBackend (P : Type 0) : Type 0 where
  pub is_open : Bool
  pub config_version : Option ℕ
  pub outside : P

-- `validate_history_range`
unfoldable pub validate_history_range : ℕ → ℕ → Result (Unit {0})
unfolding ◌<>◌
validate_history_range offset size =
    if ltb max_chunk_size size
    then err (invalid_argument ("history chunk is limited to " <> show max_chunk_size <> " bytes"))
    else if ltb flash_length offset || ltb (flash_length - offset) size
    then err (invalid_argument "history range is outside the device log region")
    else ok tt

-- `format!("{byte:02X}")` for each byte.
unfoldable pub hex_bytes : List ℕ → String
unfolding ◌<>◌
hex_bytes [] = ""
hex_bytes (b ∷ bytes) = show_hex_upper 2 b <> hex_bytes bytes

unfoldable pub capabilities : ℕ → List String
unfolding ◌<>◌
capabilities config_version =
    ("telemetry" ∷ "history" ∷ "screen" ∷ "device-info" ∷ "fault-clear" ∷ [])
    ++ ((if leb config_version 2 then ("config-v" <> show (config_version + 1)) ∷ [] else [])
        ++ (if config_version == 2 then "theme-assets-read" ∷ "theme-assets-write" ∷ [] else []))

-- The `match screen`.
unfoldable pub screen_command : Screen → ScreenCommand
screen_command Screen.main = ScreenCommand.main
screen_command Screen.current = ScreenCommand.current
screen_command Screen.temp = ScreenCommand.temp
screen_command Screen.status = ScreenCommand.status
screen_command Screen.simple = ScreenCommand.simple
screen_command Screen.same = ScreenCommand.same

-- `bytes.chunks(CONFIG_WRITE_PAYLOAD)` with so many chunks left: the frame of each, from `offset`
-- on, and an error at an offset that does not fit in a byte.
unfoldable pub frame : ℕ → List ℕ → List ℕ
unfolding code
frame byte_offset payload = code write_config ∷ byte_offset ∷ payload

abbrev pub is_two : Option ℕ → Bool
is_two none = false
is_two (some n) = n == 2

-- `self.config_version.ok_or(DeviceError::NotConnected)?`
abbrev pub of_option : Option ℕ → Result ℕ
of_option none = err not_connected
of_option (some n) = ok n

module _ {P : Type 0} (d : Driver P) where
  open d use {io}

  -- The calls of the port, which go on outside the two fields.
  abbrev pub through : {A : Type 0} → Call P A → Call (SerialBackend P) A
  through f s = let (r, p) = f s.outside in (r, record s { outside = p })

  -- `self.port.as_mut().ok_or(DeviceError::NotConnected)?`
  abbrev pub check_open : Call (SerialBackend P) (Unit {0})
  check_open s = fail_if (not s.is_open) not_connected s

  abbrev pub close : Call (SerialBackend P) (Unit {0})
  close s = (ok tt, record s { is_open = false })

  unfoldable pub response : List ℕ → ℕ → Call (SerialBackend P) (List ℕ)
  response command size = do
    check_open
    through (transmit io command)
    read ← through (always (io.read_exact 1000 size))
    through (in_time "serial response timed out" read)

  unfoldable pub send : List ℕ → Call (SerialBackend P) (Unit {0})
  send command = do check_open; through (transmit io command)

  -- The `match welcome_result`: whether the greeting timed out.
  unfoldable pub greeting : Option (Result (List ℕ)) → Result Bool
  greeting none = ok true
  greeting (some (err e)) = err e
  greeting (some (ok welcome)) =
      if not (same_bytes (take (length welcome_message) welcome) welcome_message)
        || not (byte_at welcome (length welcome_message) == 0)
      then err (unsupported "serial device returned an unexpected greeting")
      else ok false

  -- The `for` loop that asks for the version, with so many rounds left.
  unfoldable pub probe_version : ℕ → Call (SerialBackend P) (Option ℕ)
  probe_version zero = pure none
  probe_version (suc left) = do
    config ← response (code read_config ∷ []) config_version_response_size
    let next : Call (SerialBackend P) (Option ℕ) = do
      through (wait (io.sleep 50))
      probe_version left
    if leb (byte_at config 2) 2 then pure (some (byte_at config 2)) else next

  abbrev pub known : Option ℕ → Result ℕ
  known none = err (unsupported "device returned an unknown configuration version")
  known (some version) = ok version

  -- `vendor[0] != 0xef || vendor[1] != 0x05`
  unfoldable pub check_vendor : List ℕ → Call (SerialBackend P) (Unit {0})
  unfolding ◌<>◌
  check_vendor vendor s =
      if not (byte_at vendor 0 == 0xef) || not (byte_at vendor 1 == 0x05)
      then (
        err (
            unsupported (
              "unexpected device identity "
              <> show_hex_upper 2 (byte_at vendor 0)
              <> show_hex_upper 2 (byte_at vendor 1))),
        record s { is_open = false },
      )
      else (ok tt, s)

  unfoldable pub serial_connect : String → Call (SerialBackend P) DeviceIdentity
  unfolding hex_bytes capabilities ◌<>◌ screen_code code
  serial_connect port = do
    through (d.open_exclusive port)
    through (d.request_to_send true)
    welcome ← through (always (io.read_exact 1000 welcome_response_size))
    through (d.request_to_send false)
    greeting_timed_out ← lift (greeting welcome)
    (λ s. (ok tt, record s { is_open = true }))
    vendor ← response (code read_vendor_data ∷ []) vendor_response_size
    check_vendor vendor
    probed ← probe_version 3
    config_version ← lift (known probed)
    through (wait (io.sleep 50))
    check_open
    through io.clear_input
    uid ← response (code read_uid ∷ []) uid_response_size
    send (code screen_change ∷ screen_code resume_updates ∷ [])
    (λ s. (ok tt, record s { config_version = some config_version }))
    pure (record {
      unique_id = hex_bytes uid;
      vendor_id = byte_at vendor 0;
      product_id = byte_at vendor 1;
      firmware_version = show (byte_at vendor 2);
      hardware_revision =
          show_hex_upper 2 (byte_at vendor 0) <> show_hex_upper 2 (byte_at vendor 1);
      config_version = config_version;
      product_name = "";
      build_string = "";
      capabilities = capabilities config_version;
    })
