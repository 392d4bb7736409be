-- ===== src/Serial/Transaction.antt =====
-- `restore_spi_range` and `write_theme_asset_transaction` of src/backend.rs: the sectors that hold
-- the asset are read, erased, written and read again, and on a failure the backup goes back.
use wireview_pro_ii.Base.{
  ℕ, ◌+◌, ◌-◌, ◌*◌, ◌/◌, ◌^◌, Bool, true, false, not, ◌&&◌, none, String, List, [], ◌∷◌, leb, ◌==◌,
  if◌then◌else◌, length,
}
use wireview_pro_ii.Base.Text.{◌<>◌, show}
use wireview_pro_ii.Domain.Error.{
  DeviceError, connection_lost, connection_lost_before_mutation, invalid_argument,
  failed_and_rolled_back, rollback_failed, verification_failed, to_string, is_connection_lost,
  Result, ok, err,
}
use wireview_pro_ii.Theme.{ThemeAssetSlot, name, address, byte_len}
use wireview_pro_ii.Config.Bytes.{copy_at}
use wireview_pro_ii.Manager.Backend.{Call}
use wireview_pro_ii.Serial.Port.{SerialIo, lift, fail_if, ◌>>=◌, ◌>>◌}
use wireview_pro_ii.Serial.Spi.{spi_sector_size, read_spi_bytes, erase_spi_sectors, write_spi_pages}

-- `==` on byte slices.
abbrev pub same_bytes : List ℕ → List ℕ → Bool
same_bytes [] [] = true
same_bytes [] (b ∷ bs) = false
same_bytes (a ∷ as_) [] = false
same_bytes (a ∷ as_) (b ∷ bs) = a == b && same_bytes as_ bs

-- The sectors that hold an asset: where they start, and how many bytes they have.
unfoldable pub sector_start : ThemeAssetSlot → ℕ
sector_start slot = address slot / spi_sector_size * spi_sector_size

unfoldable pub sector_end : ThemeAssetSlot → ℕ → ℕ
sector_end slot size =
    (address slot + size + (spi_sector_size - 1)) / spi_sector_size * spi_sector_size

unfoldable pub sector_length : ThemeAssetSlot → ℕ → ℕ
sector_length slot size = sector_end slot size - sector_start slot

-- The sectors with the asset replaced.
unfoldable pub requested : ThemeAssetSlot → List ℕ → List ℕ → List ℕ
requested slot bytes backup = copy_at backup (address slot - sector_start slot) bytes

module _ {P : Type 0} (io : SerialIo P) where
  -- The last read of a mutation, which has to find what was written.
  unfoldable pub read_back : ℕ → ℕ → List ℕ → String → Call P (Unit {0})
  read_back start size expected message = do
    found ← read_spi_bytes io start size none
    fail_if (not (same_bytes found expected)) (verification_failed message)

  unfoldable pub restore_spi_range : ℕ → List ℕ → Call P (Unit {0})
  restore_spi_range start backup = do
    fail_if (leb (2 ^ 32) (length backup)) (invalid_argument "SPI backup is too large")
    erase_spi_sectors io start (length backup)
    write_spi_pages io start backup
    restored ← read_spi_bytes io start (length backup) none
    fail_if (not (same_bytes restored backup))
        (verification_failed "theme rollback readback did not match the sector backup")

  -- The `async` block `operation`.
  unfoldable pub overwrite : ℕ → ℕ → List ℕ → Call P (Unit {0})
  overwrite start size bytes = do
    erase_spi_sectors io start size
    write_spi_pages io start bytes
    verified ← read_spi_bytes io start size none
    fail_if (not (same_bytes verified bytes))
        (verification_failed "theme asset sector readback did not match the requested bytes")

  -- The `match` on the result of the read of the backup.
  unfoldable pub before_mutation : Result (List ℕ) → Call P (List ℕ)
  before_mutation (ok backup) = lift (ok backup)
  before_mutation (err connection_lost) = lift (err connection_lost_before_mutation)
  before_mutation (err e) = lift (err e)

  -- The `match` on the result of the restore, after an operation that failed with `error`.
  unfoldable pub restored : DeviceError → Result (Unit {0}) → Result (Unit {0})
  restored error (ok _) = err (failed_and_rolled_back (to_string error))
  restored error (err connection_lost) = err connection_lost
  restored error (err rollback_error) =
      err (rollback_failed (to_string error) (to_string rollback_error))

  unfoldable pub recover : ℕ → List ℕ → Result (Unit {0}) → Call P (Unit {0})
  recover start backup (ok _) p = (ok tt, p)
  recover start backup (err error) p =
      let (r, p') = restore_spi_range start backup p in
      if is_connection_lost error then (err error, p) else (restored error r, p')

  -- What follows the read of the backup.
  unfoldable pub replace : ThemeAssetSlot → List ℕ → List ℕ → Call P (Unit {0})
  replace slot bytes backup p =
      let (r, p') =
        overwrite (sector_start slot) (sector_length slot (length bytes))
          (requested slot bytes backup) p in
      recover (sector_start slot) backup r p'

  unfoldable pub read_backup : ThemeAssetSlot → ℕ → Call P (List ℕ)
  read_backup slot size p =
      let (r, p') = read_spi_bytes io (sector_start slot) (sector_length slot size) none p in
      before_mutation r p'

  unfoldable pub write_theme_asset_transaction : ThemeAssetSlot → List ℕ → Call P (Unit {0})
  unfolding ◌<>◌
  write_theme_asset_transaction slot bytes = do
    fail_if (not (length bytes == byte_len slot)) (
        invalid_argument
          ("theme asset " <> name slot <> " must be exactly " <> show (byte_len slot) <> " bytes"))
    fail_if (leb (2 ^ 32) (address slot + length bytes))
        (invalid_argument "theme asset range overflowed")
    fail_if (leb (2 ^ 32) (address slot + length bytes + (spi_sector_size - 1)))
        (invalid_argument "theme sector range overflowed")
    backup ← read_backup slot (length bytes)
    replace slot bytes backup
