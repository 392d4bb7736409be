-- ===== src/Config/Masks.antt =====
-- The bit masks of crates/wireview-core/src/config.rs: sets of faults and of screens.
use wireview_pro_ii.Base.{
  ℕ, zero, suc, ◌+◌, ◌-◌, ◌/◌, ◌%◌, ◌^◌, bit_and, bit_or, Bool, List, [], ◌∷◌, not, ◌==◌,
  if◌then◌else◌,
}
use wireview_pro_ii.Base.Text.{◌<>◌, show_hex}
use wireview_pro_ii.Domain.Error.{Result, ok, err, transport}
use wireview_pro_ii.Config.Types.{FaultKind, ConfigScreen}
use wireview_pro_ii.Config.Ordinals.{screen_code}

abbrev pub fault_mask : ℕ
fault_mask = 0x003f

-- `mask & (1 << bit) != 0`
abbrev pub has_bit : ℕ → ℕ → Bool
has_bit mask bit = not (bit_and mask (2 ^ bit) == 0)

unfoldable pub fault_code : FaultKind → ℕ
fault_code FaultKind.chip_over_temperature = 0
fault_code FaultKind.sensor_over_temperature = 1
fault_code FaultKind.over_current = 2
fault_code FaultKind.wire_over_current = 3
fault_code FaultKind.over_power = 4
fault_code FaultKind.current_imbalance = 5

-- The kinds in the order of their bits.
abbrev pub all_faults : List FaultKind
all_faults =
    FaultKind.chip_over_temperature ∷ FaultKind.sensor_over_temperature ∷ FaultKind.over_current
    ∷ FaultKind.wire_over_current ∷ FaultKind.over_power ∷ FaultKind.current_imbalance ∷ []

abbrev pub all_screens : List ConfigScreen
all_screens =
    ConfigScreen.main ∷ ConfigScreen.simple ∷ ConfigScreen.current ∷ ConfigScreen.temperature
    ∷ ConfigScreen.status ∷ []

-- `(0..n).filter(|bit| mask & (1 << bit) != 0).map(…)`: the elements whose bit is set, for the
-- elements of the list in the order of their bits, from `bit` on.
abbrev pub select : {A : Type 0} → ℕ → ℕ → List A → List A
select mask bit [] = []
select mask bit (x ∷ xs) =
    let rest = select mask (suc bit) xs in if has_bit mask bit then x ∷ rest else rest

unfoldable pub decode_faults : ℕ → Result (List FaultKind)
decode_faults mask =
    let strange = bit_and mask (0xffff - fault_mask) in
    if not (strange == 0)
    then err (transport ("fault action mask has unknown bits 0x" <> show_hex 4 strange))
    else ok (select mask 0 all_faults)

unfoldable pub decode_screens : ℕ → Result (List ConfigScreen)
decode_screens mask =
    let strange = bit_and mask (0xff - 0x1f) in
    if not (strange == 0)
    then err (transport ("cycle screen mask has unknown bits 0x" <> show_hex 2 strange))
    else ok (select mask 0 all_screens)

-- `fold(mask, |mask, fault| mask | 1 << *fault as u8)`
unfoldable pub encode_faults_from : ℕ → List FaultKind → ℕ
encode_faults_from mask [] = mask
encode_faults_from mask (f ∷ fs) = encode_faults_from (bit_or mask (2 ^ fault_code f)) fs

unfoldable pub encode_faults : List FaultKind → ℕ
encode_faults fs = encode_faults_from 0 fs

unfoldable pub encode_screens_from : ℕ → List ConfigScreen → ℕ
encode_screens_from mask [] = mask
encode_screens_from mask (s ∷ ss) = encode_screens_from (bit_or mask (2 ^ screen_code s)) ss

unfoldable pub encode_screens : List ConfigScreen → ℕ
encode_screens ss = encode_screens_from 0 ss

-- `count_ones`, on a word of `width` bits.
unfoldable pub count_ones : ℕ → ℕ → ℕ
count_ones zero n = 0
count_ones (suc width) n = n % 2 + count_ones width (n / 2)
