-- ===== src/Graph/Changes.antt =====
-- The buffer of crates/wireview-gui/src/graph.rs under any sequence of its operations.
use wireview_pro_ii.Base.{
  ℕ, ◌≤◌, refl, Option, none, some, inl, inr, List, [], ◌∷◌, ltb, Bool-cases, arith,
}
use wireview_pro_ii.Float.{FloatOps}
use wireview_pro_ii.Client.Snapshot.{TelemetrySnapshot}
use wireview_pro_ii.Graph.Kinds.{GraphKind, series_count, from_seconds}
use wireview_pro_ii.Graph.State.{
  u64_max, GraphSample, GraphState, empty, reset_session, record_sample, clear_history, select_kind,
  or_same, set_window_seconds, toggle_paused, toggle_series,
}
use wireview_pro_ii.Graph.Times.{IsTimed, EndsAt, Inv, reset_session-Inv, record_sample-Inv}

-- What the GUI does with the graph.
pub data Change (F : Type 0) : Type 0 where
  recorded : TelemetrySnapshot F → Change F
  reset cleared paused : Change F
  selected : GraphKind → Change F
  windowed toggled : ℕ → Change F

-- The times of the daemon are 64-bit numbers.
abbrev pub IsWord : {F : Type 0} → Change F → Type 0
IsWord (recorded telemetry) = telemetry.observed_at_ms ≤ u64_max
IsWord _ = Unit {0}

abbrev pub AreWords : {F : Type 0} → List (Change F) → Type 0
AreWords [] = Unit {0}
AreWords (change ∷ changes) = IsWord change × AreWords changes

module _ {F G : Type 0} (f : FloatOps F) (narrow : F → G) where
  unfoldable pub apply : Change F → GraphState G → GraphState G
  unfolding record_sample reset_session clear_history toggle_paused select_kind set_window_seconds
      toggle_series
  apply (recorded telemetry) g = (record_sample f narrow telemetry g).1
  apply reset g = reset_session g
  apply cleared g = clear_history g
  apply paused g = toggle_paused g
  apply (selected kind) g = select_kind kind g
  apply (windowed n) g = set_window_seconds n g
  apply (toggled n) g = toggle_series n g

  unfoldable pub run : List (Change F) → GraphState G → GraphState G
  unfolding apply
  run [] g = g
  run (change ∷ changes) g = run changes (apply change g)

  emptied :
      (samples : List (GraphSample G)) (last : Option ℕ)
      → IsTimed samples last
      → IsTimed {G = G} [] last
  unfolding EndsAt
  emptied samples none timed = refl
  emptied samples (some last) timed = (timed.0, tt)

  clear_history-Inv : (g : GraphState G) → Inv g → Inv (clear_history g)
  unfolding clear_history Inv EndsAt
  clear_history-Inv g (short, timed) = (omega arith, emptied g.samples g.last_observed_at_ms timed)

  or_same-Inv : (g : GraphState G) (window : Option _) → Inv g → Inv (or_same g window)
  unfolding Inv
  or_same-Inv g none inv = inv
  or_same-Inv g (some window) inv = inv

  toggle_series-Inv : (n : ℕ) (g : GraphState G) → Inv g → Inv (toggle_series n g)
  unfolding toggle_series Inv
  toggle_series-Inv n g inv = elim (Bool-cases (ltb n (series_count g.kind))) [
    | inl there ↦ rw there inv
    | inr beyond ↦ rw beyond inv
  ]

  apply-Inv : (change : Change F) (g : GraphState G) → IsWord change → Inv g → Inv (apply change g)
  unfolding apply toggle_paused select_kind set_window_seconds Inv
  apply-Inv (recorded telemetry) g word inv = record_sample-Inv f narrow telemetry g word inv
  apply-Inv reset g word inv = reset_session-Inv f narrow g
  apply-Inv cleared g word inv = clear_history-Inv g inv
  apply-Inv paused g word inv = inv
  apply-Inv (selected kind) g word inv = inv
  apply-Inv (windowed n) g word inv = or_same-Inv g (from_seconds n) inv
  apply-Inv (toggled n) g word inv = toggle_series-Inv n g inv

  run-Inv :
      (changes : List (Change F)) (g : GraphState G)
      → AreWords changes
      → Inv g
      → Inv (run changes g)
  unfolding run
  run-Inv [] g words inv = inv
  run-Inv (change ∷ changes) g (word, words) inv =
      run-Inv changes (apply change g) words (apply-Inv change g word inv)

  -- Whatever the GUI does with a new graph, its buffer has at most 1200 samples, and each is at a
  -- later time than the one before, also if the clock of the daemon goes back or stands still,
  -- unless it is at the last time there is; the times of the daemon are 64-bit numbers.
  pub graph-Inv : (changes : List (Change F)) → AreWords changes → Inv (run changes empty)
  unfolding empty reset_session
  graph-Inv changes words = run-Inv changes empty words (reset_session-Inv f narrow empty)
