-- ===== src/Config/Checked.antt =====
-- Neither codec of crates/wireview-core/src/config.rs lets an invalid configuration pass.
use wireview_pro_ii.Base.{ℕ, ◌≡◌, subst, List, inl, inr, arith, ◌==◌, length, Bool-cases}
use wireview_pro_ii.Domain.Error.{ok, Result-cases}
use wireview_pro_ii.Float.{FloatOps}
use wireview_pro_ii.Config.Types.{DeviceConfiguration}
use wireview_pro_ii.Config.Ordinals.{configuration_size}
use wireview_pro_ii.Config.Bytes.{byte_at, read_u16}
use wireview_pro_ii.Config.Validate.{validate}
use wireview_pro_ii.Config.Decode.{decode_payload, decode_valid, decode_configuration}

module _ {F : Type 0} (f : FloatOps F) where
  payload_header :
      (raw_version : ℕ) (bytes : List ℕ) (c : DeviceConfiguration F)
      → decode_payload f raw_version bytes ≡ ok c
      → (c.raw_version ≡ raw_version) × (c.crc ≡ read_u16 bytes 0)
  unfolding decode_payload
  payload_header raw_version bytes c h = ground arith

  valid_header :
      (raw_version : ℕ) (bytes : List ℕ) (c : DeviceConfiguration F)
      → decode_valid f raw_version bytes ≡ ok c
      → (validate f c ≡ ok tt) × (c.raw_version ≡ raw_version) × (c.crc ≡ read_u16 bytes 0)
  unfolding decode_valid
  valid_header raw_version bytes c h = elim (Result-cases (decode_payload f raw_version bytes)) [
    | inr (e, p) ↦ ground arith
    | inl (found, p) ↦
        let (version, crc) = payload_header raw_version bytes found p in
        let same : found ≡ c = ground arith in
        subst
          (λ x. (validate f x ≡ ok tt) × (x.raw_version ≡ raw_version) × (x.crc ≡ read_u16 bytes 0))
          same (ground arith, version, crc)
  ]

  -- A configuration that was decoded is valid, has the version that was asked for, which is also
  -- the version that its bytes name, and came from a payload of that version's size.
  pub decode_IsChecked :
      (raw_version : ℕ) (bytes : List ℕ) (c : DeviceConfiguration F)
      → decode_configuration f raw_version bytes ≡ ok c
      → (validate f c ≡ ok tt)
        × (c.raw_version ≡ raw_version)
        × (byte_at bytes 2 ≡ raw_version)
        × (configuration_size raw_version ≡ ok (length bytes))
        × (c.crc ≡ read_u16 bytes 0)
  unfolding decode_configuration
  decode_IsChecked raw_version bytes c h = elim (Result-cases (configuration_size raw_version)) [
    | inr (e, p) ↦ ground arith
    | inl (size, p) ↦ elim (Bool-cases (length bytes == size)) [
      | inr other ↦ ground arith
      | inl same ↦ elim (Bool-cases (byte_at bytes 2 == raw_version)) [
        | inr other ↦ ground arith
        | inl matching ↦
            let (valid, version, crc) = valid_header raw_version bytes c (ground arith) in
            (valid, version, ground arith, ground arith, crc)
      ]
    ]
  ]
