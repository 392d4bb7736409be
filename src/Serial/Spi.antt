-- ===== src/Serial/Spi.antt =====
-- The flash behind the port, in src/backend.rs: reads in pages with retries, erased sectors and
-- written pages. Addresses are `u32`.
use wireview_pro_ii.Base.{
  ℕ, zero, suc, ◌+◌, ◌-◌, ◌*◌, ◌/◌, ◌%◌, ◌^◌, min, not, ◌||◌, Option, none, some, String, List, [],
  ◌∷◌, ◌++◌, ltb, leb, ◌==◌, if◌then◌else◌, take, drop, length,
}
use wireview_pro_ii.Base.Text.{◌<>◌, show, show_hex}
use wireview_pro_ii.Domain.Error.{Result, err, operation_cancelled, invalid_argument, transport}
use wireview_pro_ii.Config.Bytes.{byte_at, le_u32}
use wireview_pro_ii.Protocol.Commands.{
  UsbCommand, spi_flash_write_page, spi_flash_read_page, spi_flash_erase_sector, code,
}
use wireview_pro_ii.Manager.Backend.{Call}
use wireview_pro_ii.Serial.Port.{
  Cancellation, SerialIo, pure, lift, fail_if, always, in_time, ◌>>=◌, ◌>>◌, sleep_or_cancelled,
  check_cancelled, transmit,
}

abbrev pub spi_read_attempts : ℕ
spi_read_attempts = 3

abbrev pub spi_read_timeout : ℕ
spi_read_timeout = 2000

abbrev pub spi_read_retry_delay : ℕ
spi_read_retry_delay = 10

abbrev pub spi_flash_size : ℕ
spi_flash_size = 0x0100_0000

abbrev pub spi_sector_size : ℕ
spi_sector_size = 4096

abbrev pub spi_write_page_size : ℕ
spi_write_page_size = 256

abbrev pub flash_read_page_size : ℕ
flash_read_page_size = 256

-- `{address:#010x}`
unfoldable pub hex_address : ℕ → String
unfolding ◌<>◌
hex_address address = "0x" <> show_hex 8 address

-- The nine bytes of a flash command.
unfoldable pub spi_command : UsbCommand → ℕ → ℕ → List ℕ
unfolding code le_u32
spi_command command address length = code command ∷ le_u32 address ++ le_u32 length

module _ {P : Type 0} (io : SerialIo P) where
  -- One attempt: the cancellation is checked, the command sent, and the page read under the timer.
  unfoldable pub attempt_page : ℕ → ℕ → Cancellation → Call P (Option (Result (List ℕ)))
  attempt_page address size c = do
    check_cancelled io c operation_cancelled
    transmit io (spi_command spi_flash_read_page address size)
    always (io.read_exact spi_read_timeout size)

  -- The arms of `match read`: the last attempt, and one after which `next` is due.
  unfoldable pub last_read : ℕ → Cancellation → Option (Result (List ℕ)) → Call P (List ℕ)
  unfolding hex_address ◌<>◌
  last_read address c (some r) = lift r
  last_read address c none = do
    check_cancelled io c operation_cancelled
    lift (
        err (
          transport (
            "SPI flash read at "
            <> hex_address address
            <> " timed out after "
            <> show spi_read_attempts
            <> " attempts")))

  unfoldable pub retried_read :
      Cancellation → Call P (List ℕ) → Option (Result (List ℕ)) → Call P (List ℕ)
  retried_read c next (some r) = lift r
  retried_read c next none = do
    check_cancelled io c operation_cancelled
    set ← always (sleep_or_cancelled io c spi_read_retry_delay)
    fail_if set operation_cancelled
    next

  -- The `for` loop over the attempts, with so many retries left.
  unfoldable pub read_attempts : ℕ → ℕ → ℕ → Cancellation → Call P (List ℕ)
  read_attempts zero address size c = attempt_page address size c >>= last_read address c
  read_attempts (suc retries) address size c =
      attempt_page address size c >>= retried_read c (read_attempts retries address size c)

  unfoldable pub read_spi_page : ℕ → ℕ → Cancellation → Call P (List ℕ)
  read_spi_page address size c = read_attempts (spi_read_attempts - 1) address size c

  -- `address.checked_add(u32::try_from(offset)?)`
  abbrev pub checked_offset : ℕ → ℕ → String → String → Call P (Unit {0})
  checked_offset address offset too_large overflowed = do
    fail_if (leb (2 ^ 32) offset) (invalid_argument too_large)
    fail_if (leb (2 ^ 32) (address + offset)) (invalid_argument overflowed)

  -- The `while read < length` loop, on fuel: a round reads a byte at least.
  unfoldable pub read_pages : ℕ → ℕ → ℕ → ℕ → Cancellation → Call P (List ℕ)
  read_pages zero address length read c = pure []
  read_pages (suc fuel) address length read c =
      let page_length = min (length - read) flash_read_page_size in
      let round : Call P (List ℕ) = do
        checked_offset address read "SPI flash offset is too large" "SPI flash address overflowed"
        page ← read_spi_page (address + read) page_length c
        rest ← read_pages fuel address length (read + page_length) c
        pure (page ++ rest)
      in if ltb read length then round else pure []

  unfoldable pub read_spi_bytes : ℕ → ℕ → Cancellation → Call P (List ℕ)
  read_spi_bytes address length c = do
    check_cancelled io c operation_cancelled
    read_pages length address length 0 c

  unfoldable pub read_spi_status : ℕ → String → Call P (Unit {0})
  unfolding ◌<>◌
  read_spi_status timeout operation = do
    read ← always (io.read_exact timeout 1)
    status ← in_time (operation <> " acknowledgement timed out") read
    fail_if (not (byte_at status 0 == 1))
        (transport (operation <> " returned status " <> show (byte_at status 0)))

  unfoldable pub erase_spi_sectors : ℕ → ℕ → Call P (Unit {0})
  unfolding hex_address ◌<>◌
  erase_spi_sectors address length = do
    fail_if
        (length == 0
          || (not (address % spi_sector_size == 0) || not (length % spi_sector_size == 0)))
        (invalid_argument "SPI erase range must contain complete aligned sectors")
    fail_if (leb (2 ^ 32) (address + length)) (invalid_argument "SPI erase range overflowed")
    fail_if (ltb spi_flash_size (address + length))
        (invalid_argument "SPI erase range exceeds flash size")
    transmit io (spi_command spi_flash_erase_sector address length)
    read_spi_status (length / spi_sector_size * 100 + 1000) ("SPI erase at " <> hex_address address)

  unfoldable pub write_spi_page : ℕ → List ℕ → Call P (Unit {0})
  unfolding hex_address ◌<>◌
  write_spi_page address bytes = do
    fail_if (length bytes == 0 || ltb spi_write_page_size (length bytes)) (
        invalid_argument
          ("SPI page write must contain 1..=" <> show spi_write_page_size <> " bytes"))
    fail_if (ltb spi_write_page_size (address % 256 + length bytes))
        (invalid_argument "SPI page write crosses a page boundary")
    fail_if (leb (2 ^ 32) (address + length bytes) || ltb spi_flash_size (address + length bytes))
        (invalid_argument "SPI page write exceeds flash size")
    io.clear_input
    io.write_all (spi_command spi_flash_write_page address (length bytes))
    io.write_all bytes
    io.flush
    read_spi_status spi_read_timeout ("SPI page write at " <> hex_address address)

  -- The `for` loop over the whole pages of `bytes`, so many of them left, from `index` on.
  unfoldable pub write_pages_from : ℕ → ℕ → ℕ → List ℕ → Call P (Unit {0})
  write_pages_from zero index address bytes = pure tt
  write_pages_from (suc left) index address bytes = do
    checked_offset address (index * spi_write_page_size) "SPI write offset is too large"
        "SPI write address overflowed"
    write_spi_page (address + index * spi_write_page_size) (take spi_write_page_size bytes)
    write_pages_from left (suc index) address (drop spi_write_page_size bytes)

  unfoldable pub write_spi_pages : ℕ → List ℕ → Call P (Unit {0})
  write_spi_pages address bytes =
      write_pages_from (length bytes / spi_write_page_size) 0 address bytes
