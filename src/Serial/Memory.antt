-- ===== src/Serial/Memory.antt =====
-- Ranges of a memory: how they are read, written and erased in parts.
use mathlib.Core.Path.{fun_ext}
use wireview_pro_ii.Base.{
  ℕ, zero, suc, ◌+◌, ◌-◌, ◌≤◌, ◌<◌, ◌≡◌, refl, sym, ap, subst, ◌∙◌, ◌&&◌, List, [], ◌∷◌, ◌++◌, leb,
  ltb, if◌then◌else◌, get_or, set, take, drop, length, arith, length-take, length-drop,
}
use wireview_pro_ii.Config.Bytes.{copy_at}
use wireview_pro_ii.Config.Layout.{get-set_same, get-set_other, length-set, length-copy_at}
use wireview_pro_ii.Serial.Firmware.{range, written, erased}

pub length-range : (flash : ℕ → ℕ) (a n : ℕ) → length (range flash a n) ≡ n
unfolding range
length-range flash a zero = refl
length-range flash a (suc n) = ap suc (length-range flash (a + 1) n)

pub range_add :
    (flash : ℕ → ℕ) (a m n : ℕ) → range flash a (m + n) ≡ range flash a m ++ range flash (a + m) n
unfolding range
range_add flash a zero n = ground arith
range_add flash a (suc m) n =
    let whole : suc m + n ≡ suc (m + n) = omega arith in
    let next : a + suc m ≡ a + 1 + m = omega arith in
    rw (whole, next) (ap (λ rest. flash a ∷ rest) (range_add flash (a + 1) m n))

pub get_or-range :
    (flash : ℕ → ℕ) (a n i : ℕ) → i < n → get_or (range flash a n) i 0 ≡ flash (a + i)
unfolding range
get_or-range flash a zero i h = absurd (omega arith)
get_or-range flash a (suc n) zero h = ground arith
get_or-range flash a (suc n) (suc i) h = ground (arith, get_or-range flash (a + 1) n i)

get_or-take : (n i : ℕ) (xs : List ℕ) → i < n → get_or (take n xs) i 0 ≡ get_or xs i 0
get_or-take zero i xs h = absurd (omega arith)
get_or-take (suc n) i [] h = refl
get_or-take (suc n) zero (x ∷ xs) h = refl
get_or-take (suc n) (suc i) (x ∷ xs) h = get_or-take n i xs (omega arith)

get_or-drop : (n i : ℕ) (xs : List ℕ) → get_or (drop n xs) i 0 ≡ get_or xs (n + i) 0
get_or-drop zero i xs = ground arith
get_or-drop (suc n) i [] = refl
get_or-drop (suc n) i (x ∷ xs) = ground (arith, get_or-drop n i xs)

-- A page and what follows it, written one after the other.
pub written_parts :
    (flash : ℕ → ℕ) (start n : ℕ) (bytes : List ℕ)
    → n ≤ length bytes
    → written (written flash start (take n bytes)) (start + n) (drop n bytes)
      ≡ written flash start bytes
unfolding written
written_parts flash start n bytes h = fun_ext λ a. ground (
  arith,
  length-take n bytes,
  length-drop n bytes,
  get_or-take n (a - start) bytes,
  get_or-drop n (a - (start + n)) bytes,
)

pub written_nothing : (flash : ℕ → ℕ) (start : ℕ) → written flash start [] ≡ flash
unfolding written
written_nothing flash start = fun_ext λ a. ground arith

pub written_beyond_page :
    (flash : ℕ → ℕ) (start i : ℕ) (page : List ℕ)
    → length page ≡ 256
    → written flash start page (start + 256 + i) ≡ flash (start + 256 + i)
unfolding written
written_beyond_page flash start i page size = ground arith

-- What is erased and then written in full is written.
pub written-erased :
    (flash : ℕ → ℕ) (start : ℕ) (bytes : List ℕ)
    → written (erased flash start (length bytes)) start bytes ≡ written flash start bytes
unfolding written erased
written-erased flash start bytes = fun_ext λ a. ground arith

pub erased_blank : (flash : ℕ → ℕ) (start n i : ℕ) → i < n → erased flash start n (start + i) ≡ 0xff
unfolding erased
erased_blank flash start n i h = ground arith

-- Lists of the same length with the same elements are equal.
pub eq_of_elements :
    (xs ys : List ℕ)
    → length xs ≡ length ys
    → ((i : ℕ) → i < length xs → get_or xs i 0 ≡ get_or ys i 0)
    → xs ≡ ys
eq_of_elements [] [] h same = refl
eq_of_elements [] (y ∷ ys) h same = absurd (omega arith)
eq_of_elements (x ∷ xs) [] h same = absurd (omega arith)
eq_of_elements (x ∷ xs) (y ∷ ys) h same = ground (
  arith,
  same 0 (omega arith),
  eq_of_elements xs ys (omega arith) (λ i lt. same (suc i) (omega arith)),
)

pub get_or-copy_at :
    (bytes source : List ℕ) (offset i : ℕ)
    → offset + length source ≤ length bytes
    → get_or (copy_at bytes offset source) i 0 ≡ (
        if leb offset i && ltb i (offset + length source)
        then get_or source (i - offset) 0
        else get_or bytes i 0)
get_or-copy_at bytes [] offset i h = ground arith
get_or-copy_at bytes (b ∷ source) offset i h = ground (
  arith,
  length-set bytes offset b,
  get_or-copy_at (set bytes offset b) source (offset + 1) i,
  get-set_same bytes offset b,
  get-set_other bytes offset i b,
)

module _ (flash : ℕ → ℕ) (start : ℕ) (bytes : List ℕ) where
  element :
      (first size i : ℕ)
      → first ≤ start
      → start + length bytes ≤ first + size
      → i < size
      → get_or (range (written flash start bytes) first size) i 0
        ≡ get_or (copy_at (range flash first size) (start - first) bytes) i 0
  unfolding written
  element first size i lo hi lt = ground (
    arith,
    get_or-range (written flash start bytes) first size i,
    get_or-range flash first size i,
    length-range flash first size,
    get_or-copy_at (range flash first size) bytes (start - first) i,
  )

  -- A range that was written in a part is the old range with the part replaced.
  pub range-written_part :
      (first size : ℕ)
      → first ≤ start
      → start + length bytes ≤ first + size
      → range (written flash start bytes) first size
        ≡ copy_at (range flash first size) (start - first) bytes
  range-written_part first size lo hi =
      let old = range flash first size in
      let new = range (written flash start bytes) first size in
      let size_new = length-range (written flash start bytes) first size in
      let size_old = length-copy_at old (start - first) bytes ∙ length-range flash first size in
      eq_of_elements new (copy_at old (start - first) bytes) (size_new ∙ sym size_old)
        (λ i lt. element first size i lo hi (subst (λ n. i < n) size_new lt))

  -- What was written is read.
  range-written_at :
      (i : ℕ)
      → i < length bytes
      → get_or (range (written flash start bytes) start (length bytes)) i 0 ≡ get_or bytes i 0
  unfolding written
  range-written_at i lt =
      ground (arith, get_or-range (written flash start bytes) start (length bytes) i)

  pub range-written : range (written flash start bytes) start (length bytes) ≡ bytes
  range-written =
      let size = length-range (written flash start bytes) start (length bytes) in
      eq_of_elements (range (written flash start bytes) start (length bytes)) bytes size
        (λ i lt. range-written_at i (subst (λ n. i < n) size lt))

  -- To write the range with the part replaced is to write the part.
  pub written-range :
      (first size : ℕ)
      → first ≤ start
      → start + length bytes ≤ first + size
      → written flash first (range (written flash start bytes) first size)
        ≡ written flash start bytes
  unfolding written
  written-range first size lo hi = fun_ext λ a. ground (
    arith,
    length-range (written flash start bytes) first size,
    get_or-range (written flash start bytes) first size (a - first),
  )
