-- ===== src/Config/Sets.antt =====
-- The masks of crates/wireview-core/src/config.rs hold the sets of faults and of screens.
use wireview_pro_ii.Base.{
  ℕ, zero, suc, ◌<◌, ◌^◌, ◌-◌, ◌≡◌, refl, bit_and, bit_or, Bool, true, false, ◌&&◌, ◌||◌, not, List,
  [], ◌∷◌, inl, inr, arith, ◌==◌, ltb, any, if◌then◌else◌, Bool-cases,
}
use wireview_pro_ii.Domain.Error.{ok}
use wireview_pro_ii.Config.Types.{FaultKind, ConfigScreen}
use wireview_pro_ii.Config.Ordinals.{screen_code}
use wireview_pro_ii.Config.Masks.{
  has_bit, fault_code, all_faults, decode_faults, encode_faults_from, encode_faults, fault_mask,
}

-- A test that holds below a bound.
unfoldable pub all_below : ℕ → (ℕ → Bool) → Bool
all_below zero p = true
all_below (suc n) p = p n && all_below n p

pub below : (n : ℕ) (p : ℕ → Bool) → all_below n p ≡ true → (m : ℕ) → m < n → p m ≡ true
unfolding all_below
below zero p h m l = ground arith
below (suc n) p h m l = elim (Bool-cases (m == n)) [
  | inl same ↦ ground arith
  | inr other ↦ below n p (ground arith) m (ground arith)
]

abbrev pub same_bool : Bool → Bool → Bool
same_bool true b = b
same_bool false b = not b

-- In a mask below 64, setting a bit adds that bit, and no other.
sets_bit : ℕ → ℕ → ℕ → Bool
sets_bit j k mask =
    ltb (bit_or mask (2 ^ j)) 64
    && same_bool (has_bit (bit_or mask (2 ^ j)) k) (has_bit mask k || (j == k))

all_bits : all_below 6 (λ j. all_below 6 (λ k. all_below 64 (sets_bit j k))) ≡ true
unfolding all_below sets_bit
all_bits = refl

bit_set :
    (j k mask : ℕ)
    → j < 6
    → k < 6
    → mask < 64
    → (bit_or mask (2 ^ j) < 64) × (has_bit (bit_or mask (2 ^ j)) k ≡ (has_bit mask k || (j == k)))
unfolding sets_bit
bit_set j k mask p q r =
    let one : sets_bit j k mask ≡ true =
      below 64 (sets_bit j k)
        (below 6 (λ k. all_below 64 (sets_bit j k))
          (below 6 (λ j. all_below 6 (λ k. all_below 64 (sets_bit j k))) all_bits j p) k q)
        mask r in
    (ground arith, ground arith)

no_strange_bits : all_below 64 (λ mask. bit_and mask (0xffff - fault_mask) == 0) ≡ true
unfolding all_below
no_strange_bits = refl

-- The fault is in the list.
abbrev pub has_fault : List FaultKind → FaultKind → Bool
has_fault faults f = any (λ g. fault_code g == fault_code f) faults

abbrev pub has_screen : List ConfigScreen → ConfigScreen → Bool
has_screen screens s = any (λ t. screen_code t == screen_code s) screens

fault_code-bound : (f : FaultKind) → fault_code f < 6
unfolding fault_code
fault_code-bound f = ground arith

faults_from :
    (faults : List FaultKind) (f : FaultKind) (mask : ℕ)
    → mask < 64
    → (encode_faults_from mask faults < 64)
      × (has_bit (encode_faults_from mask faults) (fault_code f)
          ≡ (has_bit mask (fault_code f) || has_fault faults f))
unfolding encode_faults_from
faults_from [] f mask r = (r, ground arith)
faults_from (g ∷ faults) f mask r =
    let (small, bits) =
      bit_set (fault_code g) (fault_code f) mask (fault_code-bound g) (fault_code-bound f) r in
    let (small', bits') = faults_from faults f (bit_or mask (2 ^ fault_code g)) small in
    (small', ground arith)

-- The elements that pass the test, in their order.
abbrev pub keep : {A : Type 0} → (A → Bool) → List A → List A
keep p [] = []
keep p (x ∷ xs) = let rest = keep p xs in if p x then x ∷ rest else rest

no_bit : (f : FaultKind) → has_bit 0 (fault_code f) ≡ false
unfolding fault_code
no_bit f = ground arith

faults_bits :
    (faults : List FaultKind) (f : FaultKind)
    → has_bit (encode_faults faults) (fault_code f) ≡ has_fault faults f
unfolding encode_faults
faults_bits faults f = ground (arith, faults_from faults f 0 (ground arith), no_bit f)

faults_bit :
    (faults : List FaultKind) (k : ℕ) (f : FaultKind)
    → fault_code f ≡ k
    → has_bit (encode_faults faults) k ≡ has_fault faults f
faults_bit faults k f e = ground (arith, faults_bits faults f)

-- A list of faults comes back from its mask as a set: the kinds that are in it, each once, in the
-- order of their bits, whatever order the list had.
pub decode_faults-encode_faults :
    (faults : List FaultKind)
    → decode_faults (encode_faults faults) ≡ ok (keep (has_fault faults) all_faults)
unfolding decode_faults encode_faults fault_code
decode_faults-encode_faults faults =
    let small = (faults_from faults FaultKind.over_power 0 (ground arith)).0 in
    let known =
      below 64 (λ mask. bit_and mask (0xffff - fault_mask) == 0) no_strange_bits
        (encode_faults faults) small in
    let b0 = faults_bit faults 0 FaultKind.chip_over_temperature refl in
    let b1 = faults_bit faults 1 FaultKind.sensor_over_temperature refl in
    let b2 = faults_bit faults 2 FaultKind.over_current refl in
    let b3 = faults_bit faults 3 FaultKind.wire_over_current refl in
    let b4 = faults_bit faults 4 FaultKind.over_power refl in
    let b5 = faults_bit faults 5 FaultKind.current_imbalance refl in
    rw (known, b0, b1, b2, b3, b4, b5) refl
