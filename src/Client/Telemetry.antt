-- ===== src/Client/Telemetry.antt =====
-- The telemetry that crates/wireview-gui/src/client.rs makes of the daemon's is that of the device.
use wireview_pro_ii.Base.{
  ℕ, suc, ◌==◌, Bool, true, false, ◌&&◌, ◌≡◌, refl, ap, Option, none, some, List, [], ◌∷◌, map, all,
  any, is_some, length, arith,
}
use wireview_pro_ii.Float.{FloatOps}
use wireview_pro_ii.Domain.Telemetry.{PinMetrics, Telemetry}
use wireview_pro_ii.Ipc.Messages.{telemetry_dto, unknown_faults, or_zero}
use wireview_pro_ii.Client.Errors.{good}
use wireview_pro_ii.Client.Snapshot.{
  PinSample, TelemetrySnapshot, when, pin_samples, pin_is_infinite, is_infinite, has_infinite,
  check_six, try_from,
}

abbrev pub sample : {F : Type 0} → PinMetrics F → PinSample F
sample pin = record { current = pin.current_a; voltage = pin.voltage_v; power = pin.power_w }

-- The snapshot that shows a telemetry as it is.
unfoldable pub view : {F : Type 0} → Telemetry F → TelemetrySnapshot F
view t =
    let temperatures = t.metrics.temperatures in
    record {
      sequence = t.sequence;
      session_id = t.session_id;
      observed_at_ms = t.observed_at_ms;
      stale = t.stale;
      controller_vdd = t.metrics.vdd_v;
      average_voltage = t.metrics.avg_voltage_v;
      total_current = t.metrics.total_current_a;
      total_power = t.metrics.total_power_w;
      fan_duty = t.metrics.fan_duty_percent;
      cable_capability = t.metrics.cable_capability_w;
      pins = map sample t.metrics.pins;
      input_temperature = temperatures.input_c;
      output_temperature = temperatures.output_c;
      external_1_temperature = temperatures.external_1_c;
      external_2_temperature = temperatures.external_2_c;
      active_fault_mask = t.active_fault_mask;
      logged_fault_mask = t.logged_fault_mask;
      unknown_active_fault_mask = unknown_faults t.active_fault_mask;
      unknown_logged_fault_mask = unknown_faults t.logged_fault_mask;
    }

module _ {F : Type 0} (f : FloatOps F) where
  abbrev pub finite_option : Option F → Bool
  finite_option none = true
  finite_option (some x) = f.is_finite x

  abbrev pub finite_pin : PinMetrics F → Bool
  finite_pin pin =
      f.is_finite pin.current_a && (f.is_finite pin.voltage_v && f.is_finite pin.power_w)

  -- Every number of the telemetry is one.
  unfoldable pub IsFinite : Telemetry F → Type 0
  IsFinite t =
      let m = t.metrics in
      (all f.is_finite (
          m.vdd_v ∷ m.avg_voltage_v ∷ m.total_current_a ∷ m.total_power_w ∷ m.fan_duty_percent
          ∷ m.temperatures.input_c ∷ m.temperatures.output_c ∷ [])
        ≡ true)
      × (finite_option m.temperatures.external_1_c ≡ true)
      × (finite_option m.temperatures.external_2_c ≡ true)
      × (all finite_pin m.pins ≡ true)

  pin_samples-map :
      (pins : List (PinMetrics F))
      → pin_samples f
          (map (λ pin. pin.current_a) pins)
          (map (λ pin. pin.voltage_v) pins)
          (map (λ pin. pin.power_w) pins)
        ≡ map sample pins
  pin_samples-map [] = refl
  pin_samples-map (pin ∷ pins) = ap (sample pin ∷◌) (pin_samples-map pins)

  any-infinite :
      (pins : List (PinMetrics F))
      → all finite_pin pins ≡ true
      → any (pin_is_infinite f) (map sample pins) ≡ false
  any-infinite [] h = refl
  any-infinite (pin ∷ pins) h = let rest = any-infinite pins in ground arith

  map-length :
      {A : Type 0} (g : PinMetrics F → A) (pins : List (PinMetrics F))
      → length (map g pins) ≡ length pins
  map-length g [] = refl
  map-length g (pin ∷ pins) = ap suc (map-length g pins)

  -- `None` goes through the message as a flag that is not set.
  when-or_zero : (x : Option F) → when f (is_some x) (or_zero f x) ≡ x
  when-or_zero none = refl
  when-or_zero (some x) = refl

  present-finite :
      (x : Option F) → finite_option x ≡ true → is_some x && is_infinite f (or_zero f x) ≡ false
  present-finite none h = refl
  present-finite (some x) h = ground arith

  six :
      {A : Type 0} (g : PinMetrics F → A) (pins : List (PinMetrics F))
      → length pins ≡ 6
      → (length (map g pins) == 6) ≡ true
  six g pins h = rw (map-length g pins, h) refl

  same_mask : (n : ℕ) → (n == n) ≡ true
  same_mask n = ground arith

  telemetry_dto-finite :
      (t : Telemetry F)
      → IsFinite t
      → has_infinite f (telemetry_dto f t) (map sample t.metrics.pins) ≡ false
  unfolding telemetry_dto IsFinite has_infinite
  telemetry_dto-finite t (values, one, two, pins) =
      let ts = t.metrics.temperatures in
      let e1 = present-finite ts.external_1_c one in
      let e2 = present-finite ts.external_2_c two in
      let p = any-infinite t.metrics.pins pins in rw (e1, e2, p) (ground arith)

  -- The telemetry of a device with six pins whose numbers are all finite reaches the GUI as it is:
  -- the message that the daemon makes of it is accepted, each pin has its own current, voltage and
  -- power, and an external sensor has a temperature exactly if the device reported one.
  pub try_from-telemetry_dto :
      (t : Telemetry F)
      → length t.metrics.pins ≡ 6
      → IsFinite t
      → try_from f (telemetry_dto f t) ≡ good (view t)
  unfolding try_from telemetry_dto view check_six
  try_from-telemetry_dto t n finite =
      let pins = t.metrics.pins in
      let v = six (λ pin. pin.voltage_v) pins n in
      let c = six (λ pin. pin.current_a) pins n in
      let p = six (λ pin. pin.power_w) pins n in
      let samples = pin_samples-map pins in
      let whole = telemetry_dto-finite t finite in
      let a = same_mask (unknown_faults t.active_fault_mask) in
      let l = same_mask (unknown_faults t.logged_fault_mask) in
      let e1 = when-or_zero t.metrics.temperatures.external_1_c in
      let e2 = when-or_zero t.metrics.temperatures.external_2_c in
      rw (v, c, p, samples, whole, a, l, e1, e2) refl
