-- ===== src/Serial/Installs.antt =====
-- The replacement of a theme asset in src/backend.rs, at a device that follows the protocol, is one
-- write to the memory of the device.
use wireview_pro_ii.Base.{
  ℕ, ◌+◌, ◌*◌, ◌/◌, ◌%◌, ◌^◌, ◌==◌, true, ◌≤◌, ◌<◌, ◌≡◌, refl, ap, subst, sym, ◌∙◌, List, [], ◌∷◌,
  length, none, arith,
}
use wireview_pro_ii.Domain.Error.{ok}
use wireview_pro_ii.Theme.{ThemeAssetSlot, address, byte_len}
use wireview_pro_ii.Serial.Port.{SerialIo}
use wireview_pro_ii.Serial.Spi.{write_spi_pages}
use wireview_pro_ii.Serial.Transaction.{
  same_bytes, sector_start, sector_end, sector_length, requested, read_back, overwrite,
  before_mutation, recover, replace, read_backup, write_theme_asset_transaction,
}
use wireview_pro_ii.Serial.Firmware.{range, written, erased, Firmware}
use wireview_pro_ii.Serial.Memory.{
  length-range, written-erased, erased_blank, range-written, range-written_part, written-range,
}
use wireview_pro_ii.Serial.Exchanges.{Ends, erase_spi_sectors_lem}
use wireview_pro_ii.Serial.Ranges.{read_spi_bytes_lem, write_pages_from_lem}
use wireview_pro_ii.Serial.Outcomes.{fits_u32}

same_bytes_refl : (bytes : List ℕ) → same_bytes bytes bytes ≡ true
same_bytes_refl [] = refl
same_bytes_refl (b ∷ bytes) = ground (arith, same_bytes_refl bytes)

eq→test : (a b : ℕ) → a ≡ b → (a == b) ≡ true
eq→test a b h = ground arith

in_flash :
    (slot : ThemeAssetSlot)
    → (0 < byte_len slot) × (address slot + byte_len slot + 4096 ≤ 0x0100_0000)
unfolding address byte_len
in_flash slot = ground arith

-- A slot ends below 2 ^ 32.
pub slot_ends : (slot : ThemeAssetSlot) → address slot + byte_len slot ≤ 2 ^ 32
slot_ends slot = omega (arith, (in_flash slot).1)

-- The sectors of a slot are whole, hold the asset, and lie in the flash.
pub sector_geometry :
    (slot : ThemeAssetSlot) (n : ℕ)
    → n ≡ byte_len slot
    → (sector_start slot ≤ address slot)
      × (address slot + n ≤ sector_start slot + sector_length slot n)
      × (sector_start slot % 4096 ≡ 0)
      × (sector_length slot n % 4096 ≡ 0)
      × (0 < sector_length slot n)
      × (sector_start slot + sector_length slot n ≤ 0x0100_0000)
unfolding sector_start sector_length sector_end
sector_geometry slot n h =
    let (some_bytes, inside) = in_flash slot in omega (arith, h, some_bytes, inside)

module _ {P : Type 0} (io : SerialIo P) (device : Firmware io) where
  open device use {flash, pending}

  overwrite_lem :
      (start n : ℕ) (bytes : List ℕ) (p : P)
      → pending p ≡ []
      → length bytes ≡ n
      → start % 4096 ≡ 0
      → n % 4096 ≡ 0
      → 0 < n
      → start + n ≤ 0x0100_0000
      → Ends io device (overwrite io start n bytes) p (ok tt) (written (flash p) start bytes)
  unfolding overwrite read_back write_spi_pages
  overwrite_lem start n bytes p idle size ha hn some_bytes inside =
      let (q, eq, fq, wq) =
        erase_spi_sectors_lem io device start n p idle some_bytes ha hn inside in
      let from : start + 0 * 256 ≡ start = omega arith in
      let (s, es, fs, ws) =
        write_pages_from_lem io device (length bytes / 256) 0 start bytes q wq
          (omega (arith, size, hn)) (omega (arith, ha)) (omega (arith, size, inside))
          (λ i lt. rw (fq, from) (erased_blank (flash p) start n i (omega (arith, lt, size)))) in
      let memory : flash s ≡ written (flash p) start bytes =
        rw (fs, from, fq)
          (subst
            (λ m. written (erased (flash p) start m) start bytes ≡ written (flash p) start bytes)
            size (written-erased (flash p) start bytes)) in
      let (t, et, ft, wt) =
        read_spi_bytes_lem io device none start n s (λ p. refl) ws (omega (arith, inside)) in
      let found : range (flash s) start n ≡ bytes = rw memory (
        subst (λ m. range (written (flash p) start bytes) start m ≡ bytes) size
          (range-written (flash p) start bytes)) in
      (t, rw (eq, es, et, found, same_bytes_refl bytes) refl, ft ∙ memory, wt)

  -- At a device that follows the protocol and at which nothing is under way, the replacement of a
  -- slot by an asset of its size succeeds, and the memory of the device is then the old one with
  -- the asset at the address of the slot: the rest of the erased sectors is as it was.
  pub write_theme_asset_transaction_lem :
      (slot : ThemeAssetSlot) (bytes : List ℕ) (p : P)
      → pending p ≡ []
      → length bytes ≡ byte_len slot
      → Ends io device
          (write_theme_asset_transaction io slot bytes)
          p
          (ok tt)
          (written (flash p) (address slot) bytes)
  unfolding write_theme_asset_transaction read_backup before_mutation replace recover requested
  write_theme_asset_transaction_lem slot bytes p idle size =
      let start = sector_start slot in
      let n = sector_length slot (length bytes) in
      let new = written (flash p) (address slot) bytes in
      let (lo, hi, whole_start, whole, some_bytes, inside) =
        sector_geometry slot (length bytes) size in
      let (end_fits, sector_fits) =
        fits_u32 slot (length bytes) (eq→test (length bytes) (byte_len slot) size) in
      let (q, eq, fq, wq) =
        read_spi_bytes_lem io device none start n p (λ p. refl) idle (omega (arith, inside)) in
      let backup = range (flash p) start n in
      let request : requested slot bytes backup ≡ range new start n =
        sym (range-written_part (flash p) (address slot) bytes start n lo hi) in
      let request_size : length (requested slot bytes backup) ≡ n =
        ap length request ∙ length-range new start n in
      let (s, es, fs, ws) =
        overwrite_lem start n (requested slot bytes backup) q wq request_size whole_start whole
          some_bytes inside in
      let memory : flash s ≡ new =
        rw (fs, fq, request) (written-range (flash p) (address slot) bytes start n lo hi) in
      let right_size = eq→test (length bytes) (byte_len slot) size in
      (s, rw (right_size, end_fits, sector_fits, eq, es) refl, memory, ws)
