-- ===== src/Protocol/Faults.antt =====
-- What the clear-faults command of src/protocol.rs makes of the fault registers.
use wireview_pro_ii.Base.{ℕ, ◌-◌, ◌<◌, ◌≡◌, refl, bit_and, Bool, true, not, ◌&&◌, arith}
use wireview_pro_ii.Config.Bytes.{read_u16, le_u16}
use wireview_pro_ii.Config.Masks.{has_bit}
use wireview_pro_ii.Config.Sets.{all_below, below, same_bool}
use wireview_pro_ii.Protocol.Commands.{clear_faults_command}

-- The firmware keeps the bits of a register that are set in the word it was sent.
cleared_bit : ℕ → ℕ → ℕ → Bool
cleared_bit k mask register =
    same_bool (has_bit (bit_and register (0xffff - mask)) k)
      (has_bit register k && not (has_bit mask k))

all_cleared : all_below 6 (λ k. all_below 64 (λ mask. all_below 64 (cleared_bit k mask))) ≡ true
unfolding all_below cleared_bit
all_cleared = refl

keeps_others :
    (k mask register : ℕ)
    → k < 6
    → mask < 64
    → register < 64
    → has_bit (bit_and register (0xffff - mask)) k ≡ (has_bit register k && not (has_bit mask k))
unfolding cleared_bit
keeps_others k mask register p q r =
    let one : cleared_bit k mask register ≡ true =
      below 64 (cleared_bit k mask)
        (below 64 (λ mask. all_below 64 (cleared_bit k mask))
          (below 6 (λ k. all_below 64 (λ mask. all_below 64 (cleared_bit k mask))) all_cleared k p)
          mask q)
        register r in
    ground arith

sent_words :
    (active logged : ℕ)
    → active < 64
    → logged < 64
    → (read_u16 (clear_faults_command active logged) 1 ≡ 0xffff - active)
      × (read_u16 (clear_faults_command active logged) 3 ≡ 0xffff - logged)
unfolding clear_faults_command read_u16 le_u16
sent_words active logged p q = (omega (arith, p), omega (arith, q))

-- A firmware that keeps the bits of a register which are set in the word it was sent clears the
-- selected faults of each register, and no others.
pub clear_faults_command_lem :
    (active logged register k : ℕ)
    → active < 64
    → logged < 64
    → register < 64
    → k < 6
    → (has_bit (bit_and register (read_u16 (clear_faults_command active logged) 1)) k
        ≡ (has_bit register k && not (has_bit active k)))
      × (has_bit (bit_and register (read_u16 (clear_faults_command active logged) 3)) k
          ≡ (has_bit register k && not (has_bit logged k)))
clear_faults_command_lem active logged register k p q r s =
    let (first, second) = sent_words active logged p q in
    (
      rw first (keeps_others k active register s p r),
      rw second (keeps_others k logged register s q r),
    )
