-- ===== src/Protocol/Commands.antt =====
-- The commands of src/protocol.rs and their codes.
use wireview_pro_ii.Base.{
  ℕ, ◌-◌, ◌≡◌, Option, none, some, List, [], ◌∷◌, ◌++◌, Bool, true, ◌==◌, if◌then◌else◌, arith,
}
use wireview_pro_ii.Config.Bytes.{le_u16}

pub data UsbCommand : Type 0 where
  welcome read_vendor_data read_uid read_device_data read_sensor_values : UsbCommand
  read_config write_config read_calibration write_calibration : UsbCommand
  spi_flash_write_page spi_flash_read_page spi_flash_erase_sector : UsbCommand
  screen_change read_build_info clear_faults : UsbCommand
  reset bootloader nvm_config nop : UsbCommand

-- `command as u8`
unfoldable pub code : UsbCommand → ℕ
code welcome = 0
code read_vendor_data = 1
code read_uid = 2
code read_device_data = 3
code read_sensor_values = 4
code read_config = 5
code write_config = 6
code read_calibration = 7
code write_calibration = 8
code spi_flash_write_page = 9
code spi_flash_read_page = 10
code spi_flash_erase_sector = 11
code screen_change = 12
code read_build_info = 13
code clear_faults = 14
code reset = 240
code bootloader = 241
code nvm_config = 242
code nop = 255

-- The `match` on the literals.
abbrev find_code : ℕ → List (ℕ × UsbCommand) → Option UsbCommand
find_code value [] = none
find_code value ((n, c) ∷ rest) = if value == n then some c else find_code value rest

-- `UsbCommand::try_from`; `none` is `UnknownCommand`.
unfoldable pub try_from : ℕ → Option UsbCommand
try_from value = find_code value (
    (0, welcome)
    ∷ (1, read_vendor_data)
    ∷ (2, read_uid)
    ∷ (3, read_device_data)
    ∷ (4, read_sensor_values)
    ∷ (5, read_config)
    ∷ (6, write_config)
    ∷ (7, read_calibration)
    ∷ (8, write_calibration)
    ∷ (9, spi_flash_write_page)
    ∷ (10, spi_flash_read_page)
    ∷ (11, spi_flash_erase_sector)
    ∷ (12, screen_change)
    ∷ (13, read_build_info)
    ∷ (14, clear_faults)
    ∷ (240, reset)
    ∷ (241, bootloader)
    ∷ (242, nvm_config)
    ∷ (255, nop)
    ∷ [])

pub data ScreenCommand : Type 0 where
  main simple current temp status same pause_updates resume_updates : ScreenCommand

-- `command as u8`
unfoldable pub screen_code : ScreenCommand → ℕ
screen_code ScreenCommand.main = 224
screen_code ScreenCommand.simple = 225
screen_code ScreenCommand.current = 226
screen_code ScreenCommand.temp = 227
screen_code ScreenCommand.status = 228
screen_code ScreenCommand.same = 239
screen_code ScreenCommand.pause_updates = 240
screen_code ScreenCommand.resume_updates = 241

-- `!mask`, on a `u16`, for both masks.
unfoldable pub clear_faults_command : ℕ → ℕ → List ℕ
clear_faults_command active_clear_mask logged_clear_mask =
    code clear_faults ∷ le_u16 (0xffff - active_clear_mask) ++ le_u16 (0xffff - logged_clear_mask)

-- The value has the code.
abbrev pub has_code : ℕ → Option UsbCommand → Bool
has_code value none = true
has_code value (some c) = code c == value

-- A command comes back from its code, and a byte that is read as a command is its code.
pub try_from-code :
    (c : UsbCommand) (value : ℕ)
    → (try_from (code c) ≡ some c) × (has_code value (try_from value) ≡ true)
unfolding try_from code
try_from-code c value = ground arith
