-- ===== src/Config/Layout.antt =====
-- The buffers of crates/wireview-core/src/config.rs: a field is read back from where it was
-- written, and the encoder keeps the size of its buffer.
use wireview_pro_ii.Base.{
  ℕ, zero, suc, ◌+◌, ◌/◌, ◌%◌, ◌<◌, ◌≡◌, refl, ◌∙◌, ap, false, List, [], ◌∷◌, inl, inr, arith, ltb,
  ◌==◌, if◌then◌else◌, length, get_or, set, length-replicate, Bool-cases,
}
use wireview_pro_ii.Base.Int.{ℤ, pattern_of}
use wireview_pro_ii.Domain.Error.{ok}
use wireview_pro_ii.Float.{FloatOps}
use wireview_pro_ii.Config.Types.{DeviceConfiguration}
use wireview_pro_ii.Config.Ordinals.{configuration_size}
use wireview_pro_ii.Config.Bytes.{
  copy_at, le_u16, le_u32, read_u16, write_u16, write_i16, write_u32,
}
use wireview_pro_ii.Config.Decode.{ui_offset}
use wireview_pro_ii.Config.Encode.{
  Scaled, write_common, write_legacy_display, write_display, write_payload, encode_configuration,
}

pub get-set_same : (bytes : List ℕ) (i v : ℕ) → i < length bytes → get_or (set bytes i v) i 0 ≡ v
get-set_same [] i v h = ground arith
get-set_same (b ∷ bytes) zero v h = refl
get-set_same (b ∷ bytes) (suc i) v h = get-set_same bytes i v (ground arith)

pub get-set_other :
    (bytes : List ℕ) (i j v : ℕ) → (i == j) ≡ false → get_or (set bytes i v) j 0 ≡ get_or bytes j 0
get-set_other [] i j v h = refl
get-set_other (b ∷ bytes) zero zero v h = ground arith
get-set_other (b ∷ bytes) zero (suc j) v h = refl
get-set_other (b ∷ bytes) (suc i) zero v h = refl
get-set_other (b ∷ bytes) (suc i) (suc j) v h = get-set_other bytes i j v (ground arith)

pub length-set : (bytes : List ℕ) (i v : ℕ) → length (set bytes i v) ≡ length bytes
length-set [] i v = refl
length-set (b ∷ bytes) zero v = refl
length-set (b ∷ bytes) (suc i) v = ap suc (length-set bytes i v)

pub length-copy_at :
    (bytes : List ℕ) (i : ℕ) (source : List ℕ) → length (copy_at bytes i source) ≡ length bytes
length-copy_at bytes i [] = refl
length-copy_at bytes i (b ∷ source) =
    length-copy_at (set bytes i b) (i + 1) source ∙ length-set bytes i b

pub length-write_u16 : (bytes : List ℕ) (i v : ℕ) → length (write_u16 bytes i v) ≡ length bytes
unfolding write_u16
length-write_u16 bytes i v = length-copy_at bytes i (le_u16 v)

pub length-write_i16 :
    (bytes : List ℕ) (i : ℕ) (v : ℤ) → length (write_i16 bytes i v) ≡ length bytes
unfolding write_i16
length-write_i16 bytes i v = length-copy_at bytes i (le_u16 (pattern_of 0x1_0000 v))

pub length-write_u32 : (bytes : List ℕ) (i v : ℕ) → length (write_u32 bytes i v) ≡ length bytes
unfolding write_u32
length-write_u32 bytes i v = length-copy_at bytes i (le_u32 v)

ruleset lengths = (length-set, length-copy_at, length-write_u16, length-write_i16, length-write_u32)

-- A word that fits in 16 bits is read back from where it was written.
pub read-write_u16 :
    (bytes : List ℕ) (offset v : ℕ)
    → offset + 1 < length bytes
    → v < 0x1_0000
    → read_u16 (write_u16 bytes offset v) offset ≡ v
unfolding read_u16 write_u16 le_u16
read-write_u16 bytes offset v h small =
    let first = set bytes offset (v % 256) in
    let wide : offset + 1 < length first = omega (arith, length-set bytes offset (v % 256), h) in
    let high = get-set_same first (offset + 1) (v / 256 % 256) wide in
    let low = get-set_other first (offset + 1) offset (v / 256 % 256) (ground arith) in
    let low' = get-set_same bytes offset (v % 256) (omega (arith, h)) in
    rw (high, low, low') (omega (arith, small))

module _ {F : Type 0} (f : FloatOps F) where
  length-write_common :
      (c : DeviceConfiguration F) (n : Scaled) (bytes : List ℕ)
      → length (write_common f c n bytes) ≡ length bytes
  unfolding write_common
  length-write_common c n bytes = simp lengths

  length-write_legacy_display :
      (c : DeviceConfiguration F) (n : Scaled) (ui : ℕ) (bytes : List ℕ)
      → length (write_legacy_display f c n ui bytes) ≡ length bytes
  unfolding write_legacy_display
  length-write_legacy_display c n ui bytes = simp lengths

  length-write_display :
      (c : DeviceConfiguration F) (n : Scaled) (ui : ℕ) (bytes : List ℕ)
      → length (write_display f c n ui bytes) ≡ length bytes
  unfolding write_display
  length-write_display c n ui bytes = simp lengths

  averaged :
      (c : DeviceConfiguration F) (n : Scaled) (bytes : List ℕ)
      → length (
          if c.raw_version == 0
          then write_common f c n bytes
          else set (write_common f c n bytes) 64 n.averaging)
        ≡ length bytes
  averaged c n bytes = elim (Bool-cases (c.raw_version == 0)) [
    | inl old ↦ rw old (length-write_common c n bytes)
    | inr new ↦
        rw new
          (length-set (write_common f c n bytes) 64 n.averaging ∙ length-write_common c n bytes)
  ]

  length-write_payload :
      (c : DeviceConfiguration F) (n : Scaled) (bytes : List ℕ)
      → length (write_payload f c n bytes) ≡ length bytes
  unfolding write_payload
  length-write_payload c n bytes =
      let common = write_common f c n bytes in
      let b = if c.raw_version == 0 then common else set common 64 n.averaging in
      let whole : length b ≡ length bytes = averaged c n bytes in
      elim (Bool-cases (ltb c.raw_version 2)) [
        | inl old ↦ rw old (length-write_legacy_display c n (ui_offset c.raw_version) b ∙ whole)
        | inr new ↦ rw new (length-write_display c n (ui_offset c.raw_version) b ∙ whole)
      ]

  -- An encoded configuration has the size of its version.
  pub length-encode_configuration :
      (c : DeviceConfiguration F) (bytes : List ℕ)
      → encode_configuration f c ≡ ok bytes
      → configuration_size c.raw_version ≡ ok (length bytes)
  unfolding encode_configuration
  length-encode_configuration c bytes h = grind (arith, length-write_payload, length-replicate)
