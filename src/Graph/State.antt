-- ===== src/Graph/State.antt =====
-- `GraphState` of crates/wireview-gui/src/graph.rs. A number of the daemon becomes an `f32` by
-- `narrow`, which is a parameter; `G` is the type of these.
use wireview_pro_ii.Base.{
  ℕ, ◌+◌, ◌^◌, ◌-◌, min, max, bit_and, bit_or, bit_xor, Bool, true, false, not, ◌&&◌, Option, none,
  some, String, List, [], ◌∷◌, ◌++◌, map, is_some, leb, ltb, ◌==◌, length, drop, get_or, set,
  if◌then◌else◌,
}
use wireview_pro_ii.Float.{FloatOps}
use wireview_pro_ii.Ipc.Messages.{or_zero}
use wireview_pro_ii.Client.Snapshot.{TelemetrySnapshot}
use wireview_pro_ii.Graph.Kinds.{
  GraphKind, current, index, id, title, labels, series_count, GraphWindow, minute, from_seconds,
  seconds, axis_label,
}

abbrev pub sample_limit : ℕ
sample_limit = 1200

abbrev pub u64_max : ℕ
u64_max = 2 ^ 64 - 1

pub record GraphSample (G : Type 0) : Type 0 where
  pub observed_at_ms : ℕ
  pub total_power : G
  pub total_current : G
  pub average_voltage : G
  pub currents : List G
  pub voltages : List G
  pub temperatures : List G
  pub temperature_mask : ℕ

pub record RecordOutcome : Type 0 where
  pub appended : Bool
  pub session_reset : Bool

pub record GraphMetadata : Type 0 where
  pub kind : String
  pub title : String
  pub labels : List String
  pub visible : List Bool
  pub series_count : ℕ
  pub window_seconds : ℕ
  pub window_axis_label : String
  pub paused : Bool

pub record GraphState (G : Type 0) : Type 0 where
  pub samples : List (GraphSample G)
  pub session_id : Option ℕ
  pub last_sequence : Option ℕ
  pub last_observed_at_ms : Option ℕ
  pub kind : GraphKind
  pub window : GraphWindow
  pub paused : Bool
  pub visible_masks : List ℕ

-- `GraphState::default`
unfoldable pub empty : {G : Type 0} → GraphState G
empty = record {
  samples = [];
  session_id = none;
  last_sequence = none;
  last_observed_at_ms = none;
  kind = current;
  window = minute;
  paused = false;
  visible_masks = 1 ∷ 63 ∷ 63 ∷ 3 ∷ [];
}

-- `is_some_and`
abbrev pub some_and : (ℕ → Bool) → Option ℕ → Bool
some_and p none = false
some_and p (some n) = p n

-- A bit of the mask if the sensor is there.
abbrev pub bit_if : Bool → ℕ → ℕ
bit_if true bit = bit
bit_if false bit = 0

-- `saturating_add(1)`, then the later of the two times.
unfoldable pub observed : Option ℕ → ℕ → ℕ
observed none time = time
observed (some last) time = max time (min (last + 1) u64_max)

-- `pop_front` of a full buffer.
unfoldable pub room : {G : Type 0} → List (GraphSample G) → List (GraphSample G)
room samples = if length samples == sample_limit then drop 1 samples else samples

unfoldable pub reset_session : {G : Type 0} → GraphState G → GraphState G
reset_session g = record g {
  samples = [];
  session_id = none;
  last_sequence = none;
  last_observed_at_ms = none;
}

unfoldable pub is_other_session : {F G : Type 0} → GraphState G → TelemetrySnapshot F → Bool
is_other_session g telemetry = some_and (λ id. not (id == telemetry.session_id)) g.session_id

unfoldable pub is_duplicate : {F G : Type 0} → GraphState G → TelemetrySnapshot F → Bool
is_duplicate g telemetry =
    some_and (λ id. id == telemetry.session_id) g.session_id
    && some_and (λ sequence. leb telemetry.sequence sequence) g.last_sequence

module _ {F G : Type 0} (f : FloatOps F) (narrow : F → G) where
  -- `GraphSample::from`
  unfoldable pub sample_of : TelemetrySnapshot F → GraphSample G
  sample_of telemetry =
      let one = telemetry.external_1_temperature in
      let two = telemetry.external_2_temperature in
      record {
        observed_at_ms = telemetry.observed_at_ms;
        total_power = narrow telemetry.total_power;
        total_current = narrow telemetry.total_current;
        average_voltage = narrow telemetry.average_voltage;
        currents = map (λ pin. narrow pin.current) telemetry.pins;
        voltages = map (λ pin. narrow pin.voltage) telemetry.pins;
        temperatures =
            narrow telemetry.input_temperature
            ∷ narrow telemetry.output_temperature
            ∷ narrow (or_zero f one)
            ∷ narrow (or_zero f two)
            ∷ [];
        temperature_mask = bit_or (bit_or 3 (bit_if (is_some one) 4)) (bit_if (is_some two) 8);
      }

  unfoldable pub append : TelemetrySnapshot F → GraphState G → GraphState G
  unfolding sample_of observed room
  append telemetry g =
      let time = observed g.last_observed_at_ms telemetry.observed_at_ms in
      record g {
        session_id = some telemetry.session_id;
        last_sequence = some telemetry.sequence;
        last_observed_at_ms = some time;
        samples = room g.samples ++ (record (sample_of telemetry) { observed_at_ms = time } ∷ []);
      }

  unfoldable pub record_sample : TelemetrySnapshot F → GraphState G → RecordOutcome × GraphState G
  unfolding is_other_session is_duplicate reset_session
  record_sample telemetry g =
      let session_reset = is_other_session g telemetry in
      let g1 = if session_reset then reset_session g else g in
      if is_duplicate g1 telemetry
      then (record { appended = false; session_reset = false }, g1)
      else (record { appended = true; session_reset = session_reset }, append telemetry g1)

unfoldable pub clear_history : {G : Type 0} → GraphState G → GraphState G
clear_history g = record g { samples = [] }

unfoldable pub select_kind : {G : Type 0} → GraphKind → GraphState G → GraphState G
select_kind kind g = record g { kind = kind }

abbrev pub or_same : {G : Type 0} → GraphState G → Option GraphWindow → GraphState G
or_same g none = g
or_same g (some window) = record g { window = window }

unfoldable pub set_window_seconds : {G : Type 0} → ℕ → GraphState G → GraphState G
set_window_seconds seconds g = or_same g (from_seconds seconds)

unfoldable pub toggle_paused : {G : Type 0} → GraphState G → GraphState G
toggle_paused g = record g { paused = not g.paused }

unfoldable pub toggle_series : {G : Type 0} → ℕ → GraphState G → GraphState G
unfolding index series_count
toggle_series series g =
    let kind = index g.kind in
    let mask = get_or g.visible_masks kind 0 in
    if ltb series (series_count g.kind)
    then record g { visible_masks = set g.visible_masks kind (bit_xor mask (2 ^ series)) }
    else g

unfoldable pub metadata : {G : Type 0} → GraphState G → GraphMetadata
unfolding index id title labels series_count seconds axis_label
metadata g =
    let mask = get_or g.visible_masks (index g.kind) 0 in
    record {
      kind = id g.kind;
      title = title g.kind;
      labels = labels g.kind;
      visible = map (λ series. not (bit_and mask (2 ^ series) == 0)) (0 ∷ 1 ∷ 2 ∷ 3 ∷ 4 ∷ 5 ∷ []);
      series_count = series_count g.kind;
      window_seconds = seconds g.window;
      window_axis_label = axis_label g.window;
      paused = g.paused;
    }
