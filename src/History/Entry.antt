-- ===== src/History/Entry.antt =====
-- The entries of crates/wireview-core/src/history.rs.
use wireview_pro_ii.Base.{
  ℕ, zero, suc, ◌/◌, ◌%◌, ◌^◌, List, [], ◌∷◌, Option, none, some, map, not, ◌&&◌, ◌==◌,
  if◌then◌else◌, take, drop, length,
}
use wireview_pro_ii.Base.Int.{ℤ, pos, negsuc, signed, ltb_ℤ}
use wireview_pro_ii.Float.{FloatOps, sum}
use wireview_pro_ii.Config.Bytes.{byte_at}
use wireview_pro_ii.Domain.Telemetry.{PinMetrics, Temperatures}

pub data HistoryEntryKind : Type 0 where
  measurement power_on : HistoryEntryKind

pub record HistoryMetrics (F : Type 0) : Type 0 where
  pub avg_voltage_v : F
  pub total_current_a : F
  pub total_power_w : F
  pub cable_capability_w : ℕ
  pub pins : List (PinMetrics F)
  pub temperatures : Temperatures F

pub record HistoryEntry (F : Type 0) : Type 0 where
  pub kind : HistoryEntryKind
  pub device_time_ms : ℕ
  pub metrics : HistoryMetrics F

-- `match record[20]`; the last case panics in the source, here it gives 0.
unfoldable pub cable_capability : ℕ → ℕ
cable_capability zero = 600
cable_capability (suc zero) = 450
cable_capability (suc (suc zero)) = 300
cable_capability (suc (suc (suc zero))) = 150
cable_capability other = 0

module _ {F : Type 0} (f : FloatOps F) where
  -- `value as i8`
  abbrev as_i8 : ℕ → ℤ
  as_i8 value = signed 128 256 value

  unfoldable pub decode_temperature : ℕ → Option F
  decode_temperature value =
      let degrees = as_i8 value in
      if not (value == 0) && ltb_ℤ (negsuc 99) degrees then some (f.of_int degrees) else none

  abbrev tenth : ℕ → F
  tenth value = f.div (f.of_int (pos value)) (f.literal (pos 10) 0)

  -- `zip` and `map`
  abbrev pin_metrics : List ℕ → List ℕ → List (PinMetrics F)
  pin_metrics (voltage ∷ voltages) (current ∷ currents) =
      record {
        voltage_v = tenth voltage;
        current_a = tenth current;
        power_w = f.mul (tenth voltage) (tenth current);
      }
      ∷ pin_metrics voltages currents
  pin_metrics _ _ = []

  abbrev average : List (PinMetrics F) → F
  average [] = f.literal (pos 0) 0
  average (p ∷ ps) =
      f.div (sum f (map (λ q. q.voltage_v) (p ∷ ps))) (f.of_int (pos (length (p ∷ ps))))

  -- `(encoded >> 2) & 0x3fff_ffff`
  unfoldable pub decode_entry : List ℕ → ℕ → HistoryEntryKind → HistoryEntry F
  decode_entry bytes encoded kind =
      let pins = pin_metrics (take 6 (drop 8 bytes)) (take 6 (drop 14 bytes)) in
      record {
        kind = kind;
        device_time_ms = encoded / 4 % 2 ^ 30;
        metrics = record {
          avg_voltage_v = average pins;
          total_current_a = sum f (map (λ p. p.current_a) pins);
          total_power_w = sum f (map (λ p. p.power_w) pins);
          cable_capability_w = cable_capability (byte_at bytes 20);
          pins = pins;
          temperatures = record {
            input_c = f.of_int (as_i8 (byte_at bytes 4));
            output_c = f.of_int (as_i8 (byte_at bytes 5));
            external_1_c = decode_temperature (byte_at bytes 6);
            external_2_c = decode_temperature (byte_at bytes 7);
          };
        };
      }
