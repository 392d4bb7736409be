-- ===== src/Serial/Errors.antt =====
-- `serial_error` and `io_error` of src/backend.rs. The kinds of the two libraries that the code
-- does not name are one here.
use wireview_pro_ii.Base.{
  ℕ, String, Bool, true, false, Option, none, some, ◌||◌, ◌==◌, if◌then◌else◌,
}
use wireview_pro_ii.Domain.Error.{DeviceError, connection_lost, transport}

pub data ErrorKind : Type 0 where
  not_found broken_pipe not_connected unexpected_eof other unnamed : ErrorKind

-- `std::io::Error`: its `raw_os_error`, its kind and its text.
pub record IoError : Type 0 where
  pub raw_os_error : Option ℕ
  pub kind : ErrorKind
  pub text : String

-- `tokio_serial::ErrorKind`: an `Io` kind, or another.
pub data SerialErrorKind : Type 0 where
  io : ErrorKind → SerialErrorKind
  no_device : SerialErrorKind

abbrev is_gone : ErrorKind → Bool
is_gone ErrorKind.not_found = true
is_gone ErrorKind.broken_pipe = true
is_gone ErrorKind.unexpected_eof = true
is_gone ErrorKind.not_connected = true
is_gone ErrorKind.other = false
is_gone ErrorKind.unnamed = false

unfoldable pub serial_error : SerialErrorKind → String → DeviceError
serial_error (io ErrorKind.not_found) text = connection_lost
serial_error (io ErrorKind.broken_pipe) text = connection_lost
serial_error (io ErrorKind.not_connected) text = connection_lost
serial_error (io ErrorKind.unexpected_eof) text = connection_lost
serial_error (io ErrorKind.other) text = connection_lost
serial_error (io ErrorKind.unnamed) text = transport text
serial_error no_device text = transport text

-- `matches!(error.raw_os_error(), Some(5 | 6 | 19))`
abbrev is_unplug : Option ℕ → Bool
is_unplug none = false
is_unplug (some n) = n == 5 || (n == 6 || n == 19)

unfoldable pub io_error : IoError → DeviceError
io_error error =
    if is_unplug error.raw_os_error || is_gone error.kind
    then connection_lost
    else transport error.text
