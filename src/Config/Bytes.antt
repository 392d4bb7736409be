-- ===== src/Config/Bytes.antt =====
-- Little-endian fields of a byte buffer, and UTF-8 text in one. An index out of bounds panics in
-- the source: the decoders check the length first, and the encoder writes into a buffer of the
-- right size.
use wireview_pro_ii.Base.{
  ℕ, zero, suc, ◌+◌, ◌*◌, ◌/◌, ◌%◌, Bool, true, false, ◌&&◌, List, [], ◌∷◌, leb, ltb, ◌==◌,
  if◌then◌else◌, get_or, set,
}
use wireview_pro_ii.Base.Int.{ℤ, signed, pattern_of}
use wireview_pro_ii.Domain.Error.{Result, ok, err, transport}

abbrev pub byte_at : List ℕ → ℕ → ℕ
byte_at bytes i = get_or bytes i 0

unfoldable pub read_u16 : List ℕ → ℕ → ℕ
read_u16 bytes offset = byte_at bytes offset + 256 * byte_at bytes (offset + 1)

unfoldable pub read_i16 : List ℕ → ℕ → ℤ
unfolding read_u16
read_i16 bytes offset = signed 0x8000 0x1_0000 (read_u16 bytes offset)

unfoldable pub read_u32 : List ℕ → ℕ → ℕ
read_u32 bytes offset =
    byte_at bytes offset
    + 256 * byte_at bytes (offset + 1)
    + 65536 * byte_at bytes (offset + 2)
    + 16777216 * byte_at bytes (offset + 3)

-- `to_le_bytes`
unfoldable pub le_u16 : ℕ → List ℕ
le_u16 n = n % 256 ∷ n / 256 % 256 ∷ []

unfoldable pub le_u32 : ℕ → List ℕ
le_u32 n = n % 256 ∷ n / 256 % 256 ∷ n / 65536 % 256 ∷ n / 16777216 % 256 ∷ []

-- `bytes[offset..offset + source.len()].copy_from_slice(source)`
abbrev pub copy_at : List ℕ → ℕ → List ℕ → List ℕ
copy_at bytes offset [] = bytes
copy_at bytes offset (b ∷ source) = copy_at (set bytes offset b) (offset + 1) source

unfoldable pub write_u16 : List ℕ → ℕ → ℕ → List ℕ
unfolding le_u16
write_u16 bytes offset value = copy_at bytes offset (le_u16 value)

unfoldable pub write_i16 : List ℕ → ℕ → ℤ → List ℕ
unfolding le_u16
write_i16 bytes offset value = copy_at bytes offset (le_u16 (pattern_of 0x1_0000 value))

unfoldable pub write_u32 : List ℕ → ℕ → ℕ → List ℕ
unfolding le_u32
write_u32 bytes offset value = copy_at bytes offset (le_u32 value)

-- `String::from_utf8` accepts well-formed UTF-8: `need` more continuation bytes are due, the
-- next of them from `lo` to `hi`.
unfoldable pub is_utf8_from : ℕ → ℕ → ℕ → List ℕ → Bool
is_utf8_from zero lo hi [] = true
is_utf8_from (suc need) lo hi [] = false
is_utf8_from (suc need) lo hi (b ∷ bytes) =
    leb lo b && leb b hi && is_utf8_from need 0x80 0xbf bytes
is_utf8_from zero lo hi (b ∷ bytes) =
    if ltb b 0x80
    then is_utf8_from 0 0 0 bytes
    else if leb 0xc2 b && leb b 0xdf
    then is_utf8_from 1 0x80 0xbf bytes
    else if b == 0xe0
    then is_utf8_from 2 0xa0 0xbf bytes
    else if b == 0xed
    then is_utf8_from 2 0x80 0x9f bytes
    else if leb 0xe1 b && leb b 0xef
    then is_utf8_from 2 0x80 0xbf bytes
    else if b == 0xf0
    then is_utf8_from 3 0x90 0xbf bytes
    else if b == 0xf4
    then is_utf8_from 3 0x80 0x8f bytes
    else if leb 0xf1 b && leb b 0xf3
    then is_utf8_from 3 0x80 0xbf bytes
    else false

-- The bytes before the first 0, or all of them.
abbrev pub until_nul : List ℕ → List ℕ
until_nul [] = []
until_nul (b ∷ bytes) = if b == 0 then [] else b ∷ until_nul bytes

unfoldable pub decode_name : List ℕ → Result (List ℕ)
unfolding is_utf8_from
decode_name bytes =
    let text = until_nul bytes in
    if is_utf8_from 0 0 0 text
    then ok text
    else err (transport "configuration name is not valid UTF-8")
