-- ===== src/Serial/Device.antt =====
-- The methods of `SerialBackend` in src/backend.rs, as an implementation of `DeviceBackend`.
use wireview_pro_ii.Base.{
  ℕ, zero, suc, ◌+◌, ◌^◌, false, not, String, none, some, List, [], ◌∷◌, leb, ◌==◌, if◌then◌else◌,
  take, drop, length,
}
use wireview_pro_ii.Base.Text.{◌<>◌, show, text_of}
use wireview_pro_ii.Float.{FloatOps}
use wireview_pro_ii.Domain.Error.{invalid_argument, unsupported, transport, Result, ok, err}
use wireview_pro_ii.Domain.Telemetry.{Telemetry}
use wireview_pro_ii.Theme.{ThemeAssetSlot, address, byte_len}
use wireview_pro_ii.Config.Types.{NvmOperation, DeviceConfiguration}
use wireview_pro_ii.Config.Ordinals.{configuration_size, nvm_code}
use wireview_pro_ii.Config.Encode.{encode_configuration}
use wireview_pro_ii.Config.Decode.{decode_configuration}
use wireview_pro_ii.Protocol.Commands.{
  ScreenCommand, read_sensor_values, read_config, screen_change, read_build_info, reset, nvm_config,
  pause_updates, resume_updates, code, screen_code, clear_faults_command,
}
use wireview_pro_ii.Protocol.Responses.{
  sensor_response_size, build_response_size, decode_sensor_response, decode_faults,
  decode_build_response,
}
use wireview_pro_ii.Manager.Backend.{Call, Backend}
use wireview_pro_ii.Serial.Port.{Cancellation, pure, lift, fail_if, always, wait, ◌>>=◌, ◌>>◌}
use wireview_pro_ii.Serial.Spi.{read_spi_bytes}
use wireview_pro_ii.Serial.Transaction.{write_theme_asset_transaction}
use wireview_pro_ii.Serial.Session.{
  config_write_payload, flash_start_address, Driver, SerialBackend, validate_history_range,
  screen_command, frame, is_two, of_option, through, check_open, response, send, serial_connect,
}

module _ {P : Type 0} (d : Driver P) where
  open d use {io}

  unfoldable pub serial_disconnect : SerialBackend P → SerialBackend P
  serial_disconnect s = record s { is_open = false; config_version = none }

  unfoldable pub read_build_information : Call (SerialBackend P) (String × String)
  unfolding code text_of
  read_build_information = do
    bytes ← response d (code read_build_info ∷ []) build_response_size
    parts ← lift (decode_build_response bytes)
    let (product_name, build_info) = parts
    pure (text_of product_name, text_of build_info)

  unfoldable pub read_history_chunk : ℕ → ℕ → Cancellation → Call (SerialBackend P) (List ℕ)
  unfolding validate_history_range
  read_history_chunk offset size c = do
    lift (validate_history_range offset size)
    let read : Call (SerialBackend P) (List ℕ) = do
      fail_if (leb (2 ^ 32) offset) (invalid_argument "history offset is too large")
      fail_if (leb (2 ^ 32) (flash_start_address + offset))
          (invalid_argument "history address overflowed")
      check_open d
      through d (read_spi_bytes io (flash_start_address + offset) size c)
    if size == 0 then pure [] else read

  -- `self.config_version != Some(2)`
  abbrev pub check_v3 : Call (SerialBackend P) (Unit {0})
  check_v3 s =
      fail_if (not (is_two s.config_version)) (unsupported "theme assets require configuration V3")
        s

  unfoldable pub read_theme_asset : ThemeAssetSlot → Call (SerialBackend P) (List ℕ)
  read_theme_asset slot = do
    check_v3
    check_open d
    through d (read_spi_bytes io (address slot) (byte_len slot) none)

  unfoldable pub write_theme_asset : ThemeAssetSlot → List ℕ → Call (SerialBackend P) (Unit {0})
  write_theme_asset slot bytes = do
    check_v3
    check_open d
    through d (write_theme_asset_transaction io slot bytes)

  unfoldable pub nvm_configuration : NvmOperation → Call (SerialBackend P) (Unit {0})
  unfolding code nvm_code
  nvm_configuration operation =
      send d (code nvm_config ∷ 0x55 ∷ 0xaa ∷ 0x55 ∷ 0xaa ∷ nvm_code operation ∷ [])

  unfoldable pub reboot_device : Call (SerialBackend P) (Unit {0})
  unfolding code
  reboot_device = send d (code reset ∷ [])

  unfoldable pub clear_faults : ℕ → ℕ → Call (SerialBackend P) (Unit {0})
  unfolding code screen_code
  clear_faults active_mask logged_mask = do
    send d (clear_faults_command active_mask logged_mask)
    send d (code screen_change ∷ screen_code ScreenCommand.same ∷ [])

  unfoldable pub change_screen : ScreenCommand → Call (SerialBackend P) (Unit {0})
  unfolding code screen_code
  change_screen command = send d (code screen_change ∷ screen_code command ∷ [])

  -- The loop over the chunks of an encoded configuration, so many bytes of it at most.
  unfoldable pub write_frames : ℕ → ℕ → List ℕ → Call P (Unit {0})
  unfolding frame
  write_frames fuel byte_offset [] = pure tt
  write_frames zero byte_offset (b ∷ bytes) = pure tt
  write_frames (suc fuel) byte_offset (b ∷ bytes) = do
    fail_if (leb 256 byte_offset) (transport "configuration offset overflowed")
    io.write_all (frame byte_offset (take config_write_payload (b ∷ bytes)))
    io.flush
    write_frames fuel (byte_offset + config_write_payload) (drop config_write_payload (b ∷ bytes))

module _ {F P : Type 0} (f : FloatOps F) (d : Driver P) where
  open d use {io}

  unfoldable pub read_telemetry : Call (SerialBackend P) (Telemetry F)
  unfolding code
  read_telemetry = do
    bytes ← response d (code read_sensor_values ∷ []) sensor_response_size
    sensors ← lift (decode_sensor_response f bytes)
    observed_at_ms ← always (λ s. (io.unix_time_ms s.outside, s))
    pure (record {
      sequence = 0;
      session_id = 0;
      observed_at_ms = observed_at_ms;
      stale = false;
      metrics = sensors.metrics;
      active_fault_mask = sensors.fault_status;
      logged_fault_mask = sensors.fault_log;
      active_faults = decode_faults sensors.fault_status;
      logged_faults = decode_faults sensors.fault_log;
    })

  -- `match decode_configuration`: each round ends with a sleep.
  abbrev pub after_last :
      Result (DeviceConfiguration F) → Call (SerialBackend P) (DeviceConfiguration F)
  after_last (ok c) = pure c
  after_last (err e) = do through d (wait (io.sleep 50)); lift (err e)

  abbrev pub after_round :
      Call (SerialBackend P) (DeviceConfiguration F)
      → Result (DeviceConfiguration F)
      → Call (SerialBackend P) (DeviceConfiguration F)
  after_round next (ok c) = pure c
  after_round next (err e) = do through d (wait (io.sleep 50)); next

  -- The rounds of `read_configuration` that are left after this one; the error of the last is
  -- the result.
  unfoldable pub read_rounds : ℕ → ℕ → ℕ → Call (SerialBackend P) (DeviceConfiguration F)
  unfolding code
  read_rounds zero version size = do
    bytes ← response d (code read_config ∷ []) size
    after_last (decode_configuration f version bytes)
  read_rounds (suc rounds) version size = do
    bytes ← response d (code read_config ∷ []) size
    after_round (read_rounds rounds version size) (decode_configuration f version bytes)

  unfoldable pub read_configuration : Call (SerialBackend P) (DeviceConfiguration F)
  read_configuration = do
    version ← (λ s. (of_option s.config_version, s))
    size ← lift (configuration_size version)
    read_rounds 2 version size

  unfoldable pub write_configuration : DeviceConfiguration F → Call (SerialBackend P) (Unit {0})
  unfolding ◌<>◌
  write_configuration c = do
    version ← (λ s. (of_option s.config_version, s))
    fail_if (not (c.raw_version == version)) (
        invalid_argument (
          "configuration is V"
          <> show (c.raw_version + 1)
          <> ", but the connected device uses V"
          <> show (version + 1)))
    bytes ← lift (encode_configuration f c)
    check_open d
    through d io.clear_input
    through d (write_frames d (length bytes) 0 bytes)

  -- `impl DeviceBackend for SerialBackend`, as the interface that the manager takes.
  abbrev pub serial_backend : Backend F (SerialBackend P)
  serial_backend = record {
    now = λ s. d.now s.outside;
    sleep = λ ms s. record s { outside = io.sleep ms s.outside };
    new_cancellation =
        λ s. (let (cell, p) = d.new_cancellation s.outside in (cell, record s { outside = p }));
    cancel = λ cell s. record s { outside = d.cancel cell s.outside };
    connect = serial_connect d;
    disconnect = serial_disconnect d;
    read_build_information = read_build_information d;
    read_telemetry = read_telemetry;
    read_configuration = read_configuration;
    write_configuration = write_configuration;
    nvm_configuration = nvm_configuration d;
    reboot_device = reboot_device d;
    clear_faults = clear_faults d;
    pause_history_updates = change_screen d pause_updates;
    resume_history_updates = change_screen d resume_updates;
    read_history_chunk = λ offset size cell at. read_history_chunk d offset size (some (cell, at));
    read_theme_asset = read_theme_asset d;
    write_theme_asset = write_theme_asset d;
    set_screen = λ screen. change_screen d (screen_command screen);
  }
