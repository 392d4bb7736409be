-- ===== src/Serial/Assets.antt =====
-- The theme and history methods of `SerialBackend` in src/backend.rs, at a device that follows the
-- protocol.
use wireview_pro_ii.Base.{
  ℕ, ◌+◌, ◌-◌, ◌^◌, ◌==◌, leb, ltb, Bool, ◌&&◌, if◌then◌else◌, ◌||◌, true, false, ◌≤◌, zero, suc,
  ◌<◌, ◌≡◌, ◌≢◌, ◌⊎◌, inl, inr, refl, ap, subst, sym, ◌∙◌, some, none, List, [], length, arith,
  Bool-cases, String, get_or,
}
use wireview_pro_ii.Base.Text.{◌<>◌, show}
use wireview_pro_ii.Domain.Error.{ok, err, invalid_argument}
use wireview_pro_ii.Theme.{ThemeAssetSlot, address, byte_len, slots_disjoint}
use wireview_pro_ii.Serial.Session.{Driver, SerialBackend, validate_history_range}
use wireview_pro_ii.Serial.Device.{read_history_chunk, read_theme_asset, write_theme_asset}
use wireview_pro_ii.Serial.Firmware.{range, written, Firmware}
use wireview_pro_ii.Serial.Memory.{range-written, eq_of_elements, get_or-range, length-range}
use wireview_pro_ii.Serial.Port.{Cancellation}
use wireview_pro_ii.Serial.Exchanges.{IsNeverSet}
use wireview_pro_ii.Serial.Ranges.{read_spi_bytes_lem}
use wireview_pro_ii.Serial.Installs.{write_theme_asset_transaction_lem, slot_ends}

element_apart :
    (flash : ℕ → ℕ) (start : ℕ) (bytes : List ℕ) (a n i : ℕ)
    → (start + length bytes ≤ a) ⊎ (a + n ≤ start)
    → i < n
    → get_or (range (written flash start bytes) a n) i 0 ≡ get_or (range flash a n) i 0
unfolding written
element_apart flash start bytes a n i apart lt =
    ground (arith, get_or-range (written flash start bytes) a n i, get_or-range flash a n i)

-- A range beside the one that was written is the old one.
range-written_apart :
    (flash : ℕ → ℕ) (start : ℕ) (bytes : List ℕ) (a n : ℕ)
    → (start + length bytes ≤ a) ⊎ (a + n ≤ start)
    → range (written flash start bytes) a n ≡ range flash a n
range-written_apart flash start bytes a n apart =
    let new = range (written flash start bytes) a n in
    let size = length-range (written flash start bytes) a n in
    eq_of_elements new (range flash a n) (size ∙ sym (length-range flash a n))
      (λ i lt. element_apart flash start bytes a n i apart (subst (λ m. i < m) size lt))

validate_history_range_inside :
    (offset size : ℕ)
    → (size ≤ 65536) × (offset + size ≤ 0x0080_0000)
    → validate_history_range offset size ≡ ok tt
unfolding validate_history_range
validate_history_range_inside offset size h = ground arith

validate_history_range_outside :
    (offset size : ℕ)
    → (65536 < size) ⊎ (0x0080_0000 < offset + size)
    → (m : String) × (validate_history_range offset size ≡ err (invalid_argument m))
unfolding validate_history_range
validate_history_range_outside offset size h = elim (Bool-cases (ltb 65536 size)) [
  | inl long ↦ ("history chunk is limited to " <> show 65536 <> " bytes", rw long refl)
  | inr short ↦
      let beyond : (ltb 0x0080_0000 offset || ltb (0x0080_0000 - offset) size) ≡ true =
        ground arith in
      ("history range is outside the device log region", rw (short, beyond) refl)
]

suc_test : (n : ℕ) → (suc n == 0) ≡ false
suc_test n = ground arith

offset_fits :
    (offset : ℕ)
    → offset ≤ 0x0080_0000
    → (leb (2 ^ 32) offset ≡ false) × (leb (2 ^ 32) (0x0080_0000 + offset) ≡ false)
offset_fits offset h = ground arith

module _ {P : Type 0} (d : Driver P) (device : Firmware d.io) where
  open device use {flash, pending}

  -- An open session with a device of the third configuration version, at which nothing is under way.
  pub record IsIdle (s : SerialBackend P) : Type 0 where
    pub opened : s.is_open ≡ true
    pub third : s.config_version ≡ some 2
    pub idle : pending s.outside ≡ []

  -- The memory of the device of a session.
  abbrev pub memory : SerialBackend P → ℕ → ℕ
  memory s = flash s.outside

  pub read_theme_asset_lem :
      (slot : ThemeAssetSlot) (s : SerialBackend P)
      → IsIdle s
      → (s' : SerialBackend P) × (read_theme_asset d slot s
          ≡ (ok (range (memory s) (address slot) (byte_len slot)), s'))
        × (memory s' ≡ memory s)
        × IsIdle s'
  unfolding read_theme_asset
  read_theme_asset_lem slot s h =
      let (q, e, f, w) =
        read_spi_bytes_lem d.io device none (address slot) (byte_len slot) s.outside (λ p. refl)
          h.idle (slot_ends slot) in
      (
        record s { outside = q },
        rw (h.third, h.opened, e) refl,
        f,
        record { opened = h.opened; third = h.third; idle = w },
      )

  pub write_theme_asset_lem :
      (slot : ThemeAssetSlot) (bytes : List ℕ) (s : SerialBackend P)
      → IsIdle s
      → length bytes ≡ byte_len slot
      → (s' : SerialBackend P) × (write_theme_asset d slot bytes s ≡ (ok tt, s'))
        × (memory s' ≡ written (memory s) (address slot) bytes)
        × IsIdle s'
  unfolding write_theme_asset
  write_theme_asset_lem slot bytes s h size =
      let (q, e, f, w) =
        write_theme_asset_transaction_lem d.io device slot bytes s.outside h.idle size in
      (
        record s { outside = q },
        rw (h.third, h.opened, e) refl,
        f,
        record { opened = h.opened; third = h.third; idle = w },
      )

  same_slot :
      (slot : ThemeAssetSlot) (bytes : List ℕ) (m : ℕ → ℕ)
      → length bytes ≡ byte_len slot
      → range (written m (address slot) bytes) (address slot) (byte_len slot) ≡ bytes
  same_slot slot bytes m size =
      subst (λ n. range (written m (address slot) bytes) (address slot) n ≡ bytes) size
        (range-written m (address slot) bytes)

  other_slot :
      (slot other : ThemeAssetSlot) (bytes : List ℕ) (m : ℕ → ℕ)
      → length bytes ≡ byte_len slot
      → slot ≢ other
      → range (written m (address slot) bytes) (address other) (byte_len other)
        ≡ range m (address other) (byte_len other)
  other_slot slot other bytes m size differ =
      range-written_apart m (address slot) bytes (address other) (byte_len other)
        (rw size (slots_disjoint slot other differ).0)

  -- At a device that follows the protocol, an asset of the right size that is written into a slot
  -- is accepted and read back from that slot, and every other slot is read as it was before.
  pub read-write_theme_asset :
      (slot : ThemeAssetSlot) (bytes : List ℕ) (s : SerialBackend P)
      → IsIdle s
      → length bytes ≡ byte_len slot
      → (s' : SerialBackend P) × (write_theme_asset d slot bytes s ≡ (ok tt, s'))
        × ((read_theme_asset d slot s').0 ≡ ok bytes)
        × ((other : ThemeAssetSlot)
            → slot ≢ other
            → (read_theme_asset d other s').0 ≡ (read_theme_asset d other s).0)
  read-write_theme_asset slot bytes s h size =
      let (s', accepted, m, h') = write_theme_asset_lem slot bytes s h size in
      let own : (read_theme_asset d slot s').0 ≡ ok bytes =
        ap (λ r. r.0) (read_theme_asset_lem slot s' h').1
        ∙ ap ok (rw m (same_slot slot bytes (memory s) size)) in
      (
        s',
        accepted,
        own,
        λ other differ.
            ap (λ r. r.0) (read_theme_asset_lem other s' h').1
            ∙ ap ok (rw m (other_slot slot other bytes (memory s) size differ))
            ∙ sym (ap (λ r. r.0) (read_theme_asset_lem other s h).1),
      )

  chunk_read :
      (c : Cancellation) (offset size : ℕ) (s : SerialBackend P)
      → IsNeverSet d.io device c
      → IsIdle s
      → (size ≤ 65536) × (offset + size ≤ 0x0080_0000)
      → (s' : SerialBackend P) × (read_history_chunk d offset size c s
          ≡ (ok (range (memory s) (0x0080_0000 + offset) size), s'))
        × (memory s' ≡ memory s)
        × IsIdle s'
  unfolding read_history_chunk range
  chunk_read c offset zero s never h inside =
      (s, rw (validate_history_range_inside offset 0 inside) refl, refl, h)
  chunk_read c offset (suc n) s never h (small, inside) =
      let (q, e, f, w) =
        read_spi_bytes_lem d.io device c (0x0080_0000 + offset) (suc n) s.outside never h.idle
          (omega (arith, inside)) in
      let (t1, t2) = offset_fits offset (omega (arith, inside)) in
      let t0 : (suc n == 0) ≡ false = suc_test n in
      (
        record s { outside = q },
        rw (validate_history_range_inside offset (suc n) (small, inside), t0, t1, t2, h.opened, e)
            refl,
        f,
        record { opened = h.opened; third = h.third; idle = w },
      )

  -- A range of the log that may be asked for.
  abbrev pub is_inside : ℕ → ℕ → Bool
  is_inside offset size = leb size 65536 && leb (offset + size) 0x0080_0000

  -- At a device that follows the protocol, a read that nobody cancels of a chunk of the history of
  -- at most 64 KiB that lies in the log gives the bytes of the upper half of the flash from its
  -- offset on, and changes no memory; any other chunk is refused and nothing is sent.
  pub read_history_chunk_lem :
      (c : Cancellation) (offset size : ℕ) (s : SerialBackend P)
      → IsNeverSet d.io device c
      → IsIdle s
      → (s' : SerialBackend P) × (m : String) × (read_history_chunk d offset size c s ≡ (
          if is_inside offset size
          then (ok (range (memory s) (0x0080_0000 + offset) size), s')
          else (err (invalid_argument m), s)))
        × (memory s' ≡ memory s)
        × IsIdle s'
  unfolding read_history_chunk
  read_history_chunk_lem c offset size s never h = elim (Bool-cases (is_inside offset size)) [
    | inl inside ↦
        let (s', e, same, idle) = chunk_read c offset size s never h (ground arith) in
        (s', "", rw inside e, same, idle)
    | inr outside ↦
        let (m, e) = validate_history_range_outside offset size (ground arith) in
        (s, m, rw (outside, e) refl, refl, h)
  ]
