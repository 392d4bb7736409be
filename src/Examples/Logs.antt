-- ===== src/Examples/Logs.antt =====
-- The log and the protocol at concrete inputs.
use wireview_pro_ii.Base.{ℕ, ◌≡◌, bit_and, false, not, ◌&&◌, List, [], ◌∷◌, replicate, arith}
use wireview_pro_ii.Config.Bytes.{read_u16}
use wireview_pro_ii.Config.Masks.{has_bit}
use wireview_pro_ii.History.Walk.{visit, push, walk_history, parse_history}
use wireview_pro_ii.History.Fuel.{is_out_of_fuel, walk_history-ends}
use wireview_pro_ii.History.Parsed.{IsParsed, parse_history-IsParsed}
use wireview_pro_ii.Protocol.Commands.{clear_faults_command}
use wireview_pro_ii.Protocol.Faults.{clear_faults_command_lem}
use wireview_pro_ii.Examples.Fixtures.{hundredths}

-- One measurement, and an erased rest of its sector.
abbrev log : List ℕ
log =
    168
    ∷ 0
    ∷ 0
    ∷ 0
    ∷ 39
    ∷ 34
    ∷ 156
    ∷ 25
    ∷ 121
    ∷ 120
    ∷ 119
    ∷ 118
    ∷ 117
    ∷ 116
    ∷ 3
    ∷ 4
    ∷ 5
    ∷ 6
    ∷ 7
    ∷ 8
    ∷ 0
    ∷ replicate 4075 255

walk_history-ends_example :
    is_out_of_fuel (walk_history (visit hundredths push) log (0, [])) ≡ false
walk_history-ends_example = walk_history-ends (visit hundredths push) log (0, [])

parse_history-IsParsed_example : IsParsed hundredths (parse_history hundredths log)
parse_history-IsParsed_example = parse_history-IsParsed hundredths log

clear_faults_command_lem_example :
    (has_bit (bit_and 0x3f (read_u16 (clear_faults_command 4 9) 1)) 2
      ≡ (has_bit 0x3f 2 && not (has_bit 4 2)))
    × (has_bit (bit_and 0x3f (read_u16 (clear_faults_command 4 9) 3)) 2
        ≡ (has_bit 0x3f 2 && not (has_bit 9 2)))
clear_faults_command_lem_example =
    clear_faults_command_lem 4 9 0x3f 2 (ground arith) (ground arith) (ground arith) (ground arith)
