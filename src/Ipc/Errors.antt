-- ===== src/Ipc/Errors.antt =====
-- `WireViewError` of crates/wireview-ipc/src/lib.rs and how an error of the device becomes one.
use wireview_pro_ii.Base.{String}
use wireview_pro_ii.Base.Text.{◌<>◌}
use wireview_pro_ii.Domain.Error.{DeviceError, to_string}

pub data WireViewError : Type 0 where
  unavailable invalid_argument revision_conflict busy : String → WireViewError
  operation_outcome_unknown verification_failed failed_and_rolled_back : String → WireViewError
  rollback_failed unsupported device_error : String → WireViewError

-- `impl From<DeviceError>`
unfoldable pub wire_view_error : DeviceError → WireViewError
unfolding to_string ◌<>◌
wire_view_error (DeviceError.invalid_argument m) = WireViewError.invalid_argument m
wire_view_error (DeviceError.revision_conflict m) = WireViewError.revision_conflict m
wire_view_error (DeviceError.busy m) = WireViewError.busy m
wire_view_error DeviceError.operation_outcome_unknown =
    WireViewError.operation_outcome_unknown (to_string DeviceError.operation_outcome_unknown)
wire_view_error (DeviceError.verification_failed m) = WireViewError.verification_failed m
wire_view_error (DeviceError.failed_and_rolled_back m) = WireViewError.failed_and_rolled_back m
wire_view_error (DeviceError.rollback_failed operation rollback) =
    WireViewError.rollback_failed
      ("operation failed (" <> operation <> "); rollback failed (" <> rollback <> ")")
wire_view_error (DeviceError.unsupported m) = WireViewError.unsupported m
wire_view_error (DeviceError.protocol_unverified m) = WireViewError.unsupported m
wire_view_error other = WireViewError.device_error (to_string other)

-- `Display`
unfoldable pub error_text : WireViewError → String
unfolding ◌<>◌
error_text (WireViewError.unavailable m) = "unavailable: " <> m
error_text (WireViewError.invalid_argument m) = "invalid argument: " <> m
error_text (WireViewError.revision_conflict m) = "revision conflict: " <> m
error_text (WireViewError.busy m) = "busy: " <> m
error_text (WireViewError.operation_outcome_unknown m) = "operation outcome unknown: " <> m
error_text (WireViewError.verification_failed m) = "verification failed: " <> m
error_text (WireViewError.failed_and_rolled_back m) = "failed and rolled back: " <> m
error_text (WireViewError.rollback_failed m) = "rollback failed: " <> m
error_text (WireViewError.unsupported m) = "unsupported: " <> m
error_text (WireViewError.device_error m) = "device error: " <> m
