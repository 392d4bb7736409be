-- ===== src/Base/Text.antt =====
-- The text that `format!` writes: decimal and hexadecimal numbers; and ASCII text.
use Prim.Native.Nat.{ℕ, zero, suc, ◌<◌, ◌+◌, ◌/◌, ◌%◌}
use Prim.Native.Char.{Char, IsScalar, char, nul, code}
use Prim.Native.String.{String, ◌++◌}
use mathlib.Core.Logic.{dite}
use native.Mathlib.Decide.{dec_lt}
use native.Mathlib.Omega.{arith}
use mathlib.Core.Bool.{Bool, true, false, ◌&&◌, ◌||◌}
use mathlib.Core.List.{List, [], ◌∷◌}
use wireview_pro_ii.Base.Tests.{ltb, leb, ◌==◌, if◌then◌else◌}
use wireview_pro_ii.Base.Lists.{get_or}

infixl 60 ◌<>◌
unfoldable pub ◌<>◌ : String → String → String
s <> t = s ++ t

digits_upper : List String
digits_upper =
    "0" ∷ "1" ∷ "2" ∷ "3" ∷ "4" ∷ "5" ∷ "6" ∷ "7" ∷ "8" ∷ "9" ∷ "A" ∷ "B" ∷ "C" ∷ "D" ∷ "E" ∷ "F"
    ∷ []

digits_lower : List String
digits_lower =
    "0" ∷ "1" ∷ "2" ∷ "3" ∷ "4" ∷ "5" ∷ "6" ∷ "7" ∷ "8" ∷ "9" ∷ "a" ∷ "b" ∷ "c" ∷ "d" ∷ "e" ∷ "f"
    ∷ []

-- The last `width` digits, with leading zeros.
padded : List String → ℕ → ℕ → ℕ → String
padded digits base zero n = ""
padded digits base (suc width) n =
    padded digits base width (n / base) <> get_or digits (n % base) ""

-- `{n:0width$X}` and `{n:0width$x}`, for numbers of at most that many digits.
unfoldable pub show_hex_upper : ℕ → ℕ → String
unfolding padded digits_upper ◌<>◌
show_hex_upper width n = padded digits_upper 16 width n

unfoldable pub show_hex : ℕ → ℕ → String
unfolding padded digits_lower ◌<>◌
show_hex width n = padded digits_lower 16 width n

-- How many decimal digits a number has; 20 are enough for a `u64`.
decimal_width : ℕ → ℕ → ℕ
decimal_width zero n = 1
decimal_width (suc fuel) n =
    let more = suc (decimal_width fuel (n / 10)) in if ltb n 10 then 1 else more

-- `{n}`
unfoldable pub show : ℕ → String
unfolding padded digits_upper decimal_width ◌<>◌
show n = padded digits_upper 10 (decimal_width 20 n) n

pub ascii-IsScalar : (b : ℕ) → b < 128 → IsScalar b
ascii-IsScalar b h = ground arith

ascii : ℕ → Char
unfolding dec_lt
ascii b = dite (dec_lt b 128) (λ h. char b (ascii-IsScalar b h)) (λ _. nul)

-- The text of bytes that are ASCII.
unfoldable pub text_of : List ℕ → String
unfolding ascii
text_of [] = ""
text_of (b ∷ bytes) = String.◌∷◌ (ascii b) (text_of bytes)

prepend : Char → List String → List String
prepend c [] = String.◌∷◌ c "" ∷ []
prepend c (w ∷ ws) = String.◌∷◌ c w ∷ ws

-- `split(separator)`
unfoldable pub split : ℕ → String → List String
unfolding prepend
split separator String.[] = "" ∷ []
split separator (String.◌∷◌ c s) =
    let rest = split separator s in if code c == separator then "" ∷ rest else prepend c rest

-- `char::is_whitespace`
is_whitespace : ℕ → Bool
is_whitespace c =
    (leb 9 c && leb c 13)
    || (c == 32
        || (c == 0x85
            || (c == 0xa0
                || (c == 0x1680
                    || ((leb 0x2000 c && leb c 0x200a)
                        || (c == 0x2028
                            || (c == 0x2029 || (c == 0x202f || (c == 0x205f || c == 0x3000)))))))))

trim_start : String → String
unfolding is_whitespace
trim_start String.[] = ""
trim_start (String.◌∷◌ c s) =
    let rest = trim_start s in if is_whitespace (code c) then rest else String.◌∷◌ c s

is_empty : String → Bool
is_empty String.[] = true
is_empty (String.◌∷◌ c s) = false

-- A space stays if a character that is no space follows it.
trim_end : String → String
unfolding is_whitespace is_empty
trim_end String.[] = ""
trim_end (String.◌∷◌ c s) =
    let rest = trim_end s in
    if is_whitespace (code c) && is_empty rest then "" else String.◌∷◌ c rest

unfoldable pub trim : String → String
unfolding trim_start trim_end
trim s = trim_end (trim_start s)

lower : Char → Char
unfolding ascii
lower c = if leb 65 (code c) && leb (code c) 90 then ascii (code c + 32) else c

unfoldable pub to_ascii_lowercase : String → String
unfolding lower
to_ascii_lowercase String.[] = ""
to_ascii_lowercase (String.◌∷◌ c s) = String.◌∷◌ (lower c) (to_ascii_lowercase s)

-- `join`
unfoldable pub join : String → List String → String
unfolding ◌<>◌
join separator [] = ""
join separator (text ∷ []) = text
join separator (text ∷ next ∷ texts) = text <> separator <> join separator (next ∷ texts)
