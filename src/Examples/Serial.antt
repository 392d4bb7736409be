-- ===== src/Examples/Serial.antt =====
-- The serial backend at small inputs, with the devices of the examples.
use wireview_pro_ii.Base.{
  ℕ, String, ◌+◌, ◌≡◌, ◌≢◌, refl, none, some, List, [], replicate, length, true, length-replicate,
  arith,
}
use wireview_pro_ii.Domain.Error.{ok}
use wireview_pro_ii.Theme.{ThemeAssetSlot, fan_dark_1, byte_len, address}
use wireview_pro_ii.Serial.Spi.{read_spi_bytes, read_pages}
use wireview_pro_ii.Serial.Transaction.{write_theme_asset_transaction}
use wireview_pro_ii.Serial.Session.{SerialBackend}
use wireview_pro_ii.Serial.Device.{
  read_configuration, write_configuration, read_history_chunk, read_theme_asset, write_theme_asset,
}
use wireview_pro_ii.Serial.Firmware.{range, written}
use wireview_pro_ii.Serial.Outcomes.{Replaced, write_theme_asset_transaction-Replaced}
use wireview_pro_ii.Serial.Port.{Cancellation}
use wireview_pro_ii.Serial.Exchanges.{Ends}
use wireview_pro_ii.Serial.Installs.{write_theme_asset_transaction_lem}
use wireview_pro_ii.Serial.Assets.{IsIdle, memory, read-write_theme_asset, read_history_chunk_lem}
use wireview_pro_ii.Config.Types.{DeviceConfiguration}
use wireview_pro_ii.Config.Decode.{decode_configuration}
use wireview_pro_ii.Examples.Fixtures.{hundredths, mock_configuration}
use wireview_pro_ii.Examples.Codecs.{mock_bytes, mock_encoded}
use wireview_pro_ii.Serial.Ranges.{read_spi_bytes_lem}
use wireview_pro_ii.Serial.Frames.{read-write_configuration}
use wireview_pro_ii.Serial.Fuel.{read_pages-enough, length-read_spi_bytes}
use wireview_pro_ii.Examples.Devices.{
  Keeper, keeper, keeper_driver, Chip, chip_io, chip, chip_driver, chip_session, idle_chip,
}

abbrev asset : List ℕ
asset = replicate 10658 0x5a

asset_size : length asset ≡ byte_len fan_dark_1
unfolding byte_len
asset_size = length-replicate {A = ℕ} 10658 0x5a

session-IsIdle : IsIdle chip_driver chip chip_session
unfolding chip
session-IsIdle = record { opened = refl; third = refl; idle = refl }

write_theme_asset_transaction-Replaced_example :
    Replaced chip_io fan_dark_1 asset idle_chip
      (write_theme_asset_transaction chip_io fan_dark_1 asset idle_chip)
write_theme_asset_transaction-Replaced_example =
    write_theme_asset_transaction-Replaced chip_io fan_dark_1 asset idle_chip

chip_idle : chip.pending idle_chip ≡ []
unfolding chip
chip_idle = refl

write_theme_asset_transaction_lem_example :
    Ends chip_io chip
      (write_theme_asset_transaction chip_io fan_dark_1 asset)
      idle_chip
      (ok tt)
      (written (chip.flash idle_chip) (address fan_dark_1) asset)
write_theme_asset_transaction_lem_example =
    write_theme_asset_transaction_lem chip_io chip fan_dark_1 asset idle_chip chip_idle asset_size

read-write_theme_asset_example :
    (s' : SerialBackend Chip) × (write_theme_asset chip_driver fan_dark_1 asset chip_session
      ≡ (ok tt, s'))
    × ((read_theme_asset chip_driver fan_dark_1 s').0 ≡ ok asset)
    × ((other : ThemeAssetSlot)
        → fan_dark_1 ≢ other
        → (read_theme_asset chip_driver other s').0
          ≡ (read_theme_asset chip_driver other chip_session).0)
read-write_theme_asset_example =
    read-write_theme_asset chip_driver chip fan_dark_1 asset chip_session session-IsIdle asset_size

-- The cell 7 with no lease timer, which nobody sets.
abbrev untouched : Cancellation
untouched = some (7, none)

read_history_chunk_lem_example :
    (s' : SerialBackend Chip) × (m : String) × (read_history_chunk chip_driver 100 300 untouched
        chip_session
      ≡ (ok (range (memory chip_driver chip chip_session) (0x0080_0000 + 100) 300), s'))
    × (memory chip_driver chip s' ≡ memory chip_driver chip chip_session)
    × IsIdle chip_driver chip s'
unfolding chip_io
read_history_chunk_lem_example =
    read_history_chunk_lem chip_driver chip untouched 100 300 chip_session (λ p. refl)
      session-IsIdle

fills :
    (timeout n : ℕ) (p q : Chip) (bytes : List ℕ)
    → chip_io.read_exact timeout n p ≡ (some (ok bytes), q)
    → length bytes ≡ n
unfolding chip_io
fills timeout n p q bytes h = ground arith

abbrev first_bytes :
    Ends chip_io chip
      (read_spi_bytes chip_io 7 300 none)
      idle_chip
      (ok (range (chip.flash idle_chip) 7 300))
      (chip.flash idle_chip)
first_bytes =
    read_spi_bytes_lem chip_io chip none 7 300 idle_chip (λ p. refl) chip_idle (omega arith)

length-read_spi_bytes_example : length (range (chip.flash idle_chip) 7 300) ≡ 300
length-read_spi_bytes_example =
    length-read_spi_bytes chip_io fills 7 300 none idle_chip first_bytes.0
      (range (chip.flash idle_chip) 7 300) first_bytes.1

read_pages-enough_example :
    read_pages chip_io (300 + 1000) 7 300 0 none ≡ read_pages chip_io 300 7 300 0 none
read_pages-enough_example = read_pages-enough chip_io 300 1000 7 300 0 none (omega arith)

abbrev mock_keeper : Keeper
mock_keeper = record { active = replicate 96 0; last = [] }

abbrev mock_session : SerialBackend Keeper
mock_session = record { is_open = true; config_version = some 2; outside = mock_keeper }

same_size : length (keeper.active mock_keeper) ≡ length mock_bytes
unfolding keeper
same_size = refl

read-write_configuration_example :
    (s' : SerialBackend Keeper) × (write_configuration hundredths keeper_driver mock_configuration
        mock_session
      ≡ (ok tt, s'))
    × (keeper.active s'.outside ≡ mock_bytes)
    × ((c' : DeviceConfiguration ℕ)
        → decode_configuration hundredths 2 mock_bytes ≡ ok c'
        → (read_configuration hundredths keeper_driver s').0 ≡ ok c')
read-write_configuration_example =
    read-write_configuration hundredths keeper_driver keeper mock_configuration mock_session
      mock_bytes refl refl mock_encoded same_size
