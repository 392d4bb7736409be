-- ===== src/Config/Names.antt =====
-- A name that crates/wireview-core/src/config.rs accepts is read back from its 32 bytes.
use wireview_pro_ii.Base.{
  ℕ, zero, suc, ◌≤◌, ◌≡◌, refl, true, List, [], ◌∷◌, ◌++◌, arith, all, length, replicate,
}
use wireview_pro_ii.Domain.Error.{ok}
use wireview_pro_ii.Config.Bytes.{is_utf8_from, until_nul, decode_name}
use wireview_pro_ii.Config.Validate.{is_printable, chars_count, validate_name}

printable_chars : (name : List ℕ) → all is_printable name ≡ true → chars_count name ≡ length name
unfolding chars_count
printable_chars [] h = refl
printable_chars (b ∷ name) h = ground (arith, printable_chars name (ground arith))

printable_utf8 : (name : List ℕ) → all is_printable name ≡ true → is_utf8_from 0 0 0 name ≡ true
unfolding is_utf8_from
printable_utf8 [] h = refl
printable_utf8 (b ∷ name) h = ground (arith, printable_utf8 name (ground arith))

padding : (n : ℕ) → until_nul (replicate n 0) ≡ []
padding zero = refl
padding (suc n) = refl

until_padding :
    (name : List ℕ) (n : ℕ)
    → all is_printable name ≡ true
    → until_nul (name ++ replicate n 0) ≡ name
until_padding [] n h = padding n
until_padding (b ∷ name) n h = ground (arith, until_padding name n (ground arith))

-- A name that passes the check has at most 32 bytes, and is read back from a field that holds it
-- and zeros behind it.
pub decode_name_lem :
    (name : List ℕ) (n : ℕ)
    → validate_name name ≡ ok tt
    → (length name ≤ 32) × (decode_name (name ++ replicate n 0) ≡ ok name)
unfolding validate_name decode_name
decode_name_lem name n h =
    let printable : all is_printable name ≡ true = ground arith in
    let chars = printable_chars name printable in
    (ground arith, rw (until_padding name n printable, printable_utf8 name printable) refl)
