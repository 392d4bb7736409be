-- ===== src/Config/Revision.antt =====
-- `with_protocol_metadata` of crates/wireview-core/src/config.rs and `configuration_revision` of
-- src/manager.rs.
use wireview_pro_ii.Base.{ℕ, ◌*◌, ◌/◌, ◌%◌, ◌^◌, bit_xor, String, List, [], ◌∷◌, ◌++◌, zero, suc}
use wireview_pro_ii.Base.Text.{◌<>◌, show, show_hex}
use wireview_pro_ii.Domain.Error.{Result, ok, ◌>>=◌, ◌>>◌}
use wireview_pro_ii.Float.{FloatOps}
use wireview_pro_ii.Config.Types.{DeviceSettings, DeviceConfiguration}
use wireview_pro_ii.Config.Validate.{validate_settings}
use wireview_pro_ii.Config.Encode.{encode_configuration}

-- `to_le_bytes` of a word of that many bytes.
le_bytes : ℕ → ℕ → List ℕ
le_bytes zero n = []
le_bytes (suc width) n = n % 256 ∷ le_bytes width (n / 256)

-- The 64-bit FNV-1a hash: `hash ^= byte`, then a wrapping product.
fnv_from : ℕ → List ℕ → ℕ
fnv_from hash [] = hash
fnv_from hash (byte ∷ bytes) = fnv_from (bit_xor hash byte * 0x0000_0100_0000_01b3 % 2 ^ 64) bytes

module _ {F : Type 0} (f : FloatOps F) where
  unfoldable pub configuration_revision : ℕ → DeviceConfiguration F → Result String
  unfolding le_bytes fnv_from
  configuration_revision session_id c = do
    bytes ← encode_configuration f c
    ok (
        show session_id
        <> ":"
        <> show_hex 16 (fnv_from 0xcbf2_9ce4_8422_2325 (le_bytes 8 session_id ++ bytes)))

  unfoldable pub with_protocol_metadata :
      DeviceSettings F → DeviceConfiguration F → Result (DeviceConfiguration F)
  with_protocol_metadata settings current = do
    validate_settings f settings
    ok (record current { settings = settings })
