-- ===== src/Protocol/Responses.antt =====
-- The responses of src/protocol.rs.
use wireview_pro_ii.Base.{
  ℕ, zero, suc, ◌+◌, ◌*◌, Bool, String, List, [], ◌∷◌, Option, none, some, map, not, ◌||◌, ◌==◌,
  if◌then◌else◌, take, drop, length, ltb, any,
}
use wireview_pro_ii.Base.Int.{ℤ, pos, negsuc}
use wireview_pro_ii.Base.Text.{◌<>◌, show}
use wireview_pro_ii.Float.{FloatOps, gt, sum}
use wireview_pro_ii.Domain.Error.{Result, ok, err, transport, ◌>>=◌}
use wireview_pro_ii.Domain.Telemetry.{PinMetrics, Metrics}
use wireview_pro_ii.Config.Bytes.{byte_at, read_u16, read_i16, read_u32, until_nul}
use wireview_pro_ii.Config.Masks.{has_bit}

abbrev pub sensor_response_size : ℕ
sensor_response_size = 100

abbrev pub build_response_size : ℕ
build_response_size = 68

pub record DecodedSensors (F : Type 0) : Type 0 where
  pub metrics : Metrics F
  pub fault_status : ℕ
  pub fault_log : ℕ

unfoldable pub cable_capability : ℕ → Result ℕ
cable_capability zero = ok 600
cable_capability (suc zero) = ok 450
cable_capability (suc (suc zero)) = ok 300
cable_capability (suc (suc (suc zero))) = ok 150
cable_capability value = err (transport ("unknown cable capability " <> show value))

module _ {F : Type 0} (f : FloatOps F) where
  abbrev thousandths : ℤ → F
  thousandths value = f.div (f.of_int value) (f.literal (pos 1000) 0)

  -- The closure `temp`.
  abbrev temp : List ℕ → ℕ → F
  temp bytes offset = f.div (f.of_int (read_i16 bytes offset)) (f.literal (pos 10) 0)

  -- The closure `external`: `value > -99.9`.
  abbrev external : List ℕ → ℕ → Option F
  external bytes offset =
      if gt f (temp bytes offset) (f.literal (negsuc 998) 1) then some (temp bytes offset) else none

  abbrev pin_at : List ℕ → ℕ → PinMetrics F
  pin_at bytes offset =
      let voltage = thousandths (read_i16 bytes offset) in
      let current = thousandths (pos (read_u32 bytes (offset + 4))) in
      record { voltage_v = voltage; current_a = current; power_w = f.mul voltage current }

  unfoldable pub sensor_pins : List ℕ → List (PinMetrics F)
  sensor_pins bytes = map (λ index. pin_at bytes (12 + index * 12)) (0 ∷ 1 ∷ 2 ∷ 3 ∷ 4 ∷ 5 ∷ [])

  unfoldable pub decode_sensor_response : List ℕ → Result (DecodedSensors F)
  decode_sensor_response bytes =
      if not (length bytes == sensor_response_size)
      then err (
          transport (
            "sensor response has "
            <> show (length bytes)
            <> " bytes, expected "
            <> show sensor_response_size))
      else do
        capability ← cable_capability (byte_at bytes 94)
        ok (record {
          metrics = record {
            vdd_v = thousandths (pos (read_u16 bytes 8));
            avg_voltage_v = thousandths (pos (read_u16 bytes 92));
            total_current_a = sum f (map (λ p. p.current_a) (sensor_pins bytes));
            total_power_w = sum f (map (λ p. p.power_w) (sensor_pins bytes));
            fan_duty_percent = f.of_int (pos (byte_at bytes 10));
            cable_capability_w = capability;
            pins = sensor_pins bytes;
            temperatures = record {
              input_c = temp bytes 0;
              output_c = temp bytes 2;
              external_1_c = external bytes 4;
              external_2_c = external bytes 6;
            };
          };
          fault_status = read_u16 bytes 96;
          fault_log = read_u16 bytes 98;
        })

-- The names of the bits that are set, from `bit` on.
abbrev fault_names : ℕ → ℕ → List String → List String
fault_names mask bit [] = []
fault_names mask bit (name ∷ names) =
    let rest = fault_names mask (suc bit) names in if has_bit mask bit then name ∷ rest else rest

unfoldable pub decode_faults : ℕ → List String
decode_faults mask = fault_names mask 0 (
    "chip_over_temperature" ∷ "sensor_over_temperature" ∷ "over_current" ∷ "wire_over_current"
    ∷ "over_power" ∷ "current_imbalance" ∷ [])

-- `!is_ascii() || is_ascii_control()`
abbrev is_unprintable : ℕ → Bool
is_unprintable b = ltb 127 b || (ltb b 32 || b == 127)

unfoldable pub decode_fixed_ansi : List ℕ → Result (List ℕ)
decode_fixed_ansi bytes =
    if any is_unprintable (until_nul bytes)
    then err (transport "device build information is not printable ASCII")
    else ok (until_nul bytes)

-- `bytes[a..b]` are the `b - a` bytes from `a` on.
unfoldable pub decode_build_response : List ℕ → Result (List ℕ × List ℕ)
decode_build_response bytes =
    if not (length bytes == build_response_size)
    then err (
        transport (
          "build response has "
          <> show (length bytes)
          <> " bytes, expected "
          <> show build_response_size))
    else do
      product_name ← decode_fixed_ansi (take 32 (drop 3 bytes))
      build_info ← decode_fixed_ansi (take 32 (drop 35 bytes))
      ok (product_name, build_info)
