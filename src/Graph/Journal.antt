-- ===== src/Graph/Journal.antt =====
-- The journal that the buffer of crates/wireview-gui/src/graph.rs is a window on.
use wireview_pro_ii.Base.{
  ℕ, zero, suc, ◌+◌, ◌-◌, ◌≤◌, ◌≡◌, refl, sym, ◌∙◌, Bool, true, false, Option, none, some, inl, inr,
  List, [], ◌∷◌, ◌++◌, length, length-append, drop, length-drop, ltb, ◌==◌, if◌then◌else◌,
  Bool-cases, arith,
}
use wireview_pro_ii.Float.{FloatOps}
use wireview_pro_ii.Client.Snapshot.{TelemetrySnapshot}
use wireview_pro_ii.Graph.Kinds.{series_count, from_seconds}
use wireview_pro_ii.Graph.State.{
  sample_limit, GraphSample, GraphState, empty, observed, room, reset_session, sample_of, append,
  is_other_session, is_duplicate, record_sample, clear_history, select_kind, or_same,
  set_window_seconds, toggle_paused, toggle_series,
}
use wireview_pro_ii.Graph.Changes.{
  Change, recorded, reset, cleared, paused, selected, windowed, toggled, apply, run,
}

module _ {F G : Type 0} (f : FloatOps F) (narrow : F → G) where
  -- Everything that was recorded since the last start, in the order in which it came.
  unfoldable pub note : Change F → GraphState G → List (GraphSample G) → List (GraphSample G)
  unfolding is_other_session is_duplicate reset_session sample_of observed
  note (recorded telemetry) g log =
      let start = is_other_session g telemetry in
      let g1 = if start then reset_session g else g in
      let log1 = if start then [] else log in
      let time = observed g1.last_observed_at_ms telemetry.observed_at_ms in
      if is_duplicate g1 telemetry
      then log1
      else log1 ++ (record (sample_of f narrow telemetry) { observed_at_ms = time } ∷ [])
  note reset g log = []
  note cleared g log = []
  note _ g log = log

  unfoldable pub journal :
      List (Change F) → GraphState G → List (GraphSample G) → List (GraphSample G)
  unfolding note apply
  journal [] g log = log
  journal (change ∷ changes) g log = journal changes (apply f narrow change g) (note change g log)

  unfoldable pub newest : List (GraphSample G) → List (GraphSample G)
  newest log = drop (length log - sample_limit) log

  drop_next : (n : ℕ) (xs : List (GraphSample G)) → drop 1 (drop n xs) ≡ drop (n + 1) xs
  drop_next zero xs = refl
  drop_next (suc n) [] = let e : suc n + 1 ≡ suc (n + 1) = omega arith in rw e refl
  drop_next (suc n) (x ∷ xs) =
      let e : suc n + 1 ≡ suc (n + 1) = omega arith in rw e (drop_next n xs)

  drop-append :
      (n : ℕ) (xs ys : List (GraphSample G)) → n ≤ length xs → drop n xs ++ ys ≡ drop n (xs ++ ys)
  drop-append zero xs ys h = refl
  drop-append (suc n) [] ys h = absurd (omega (arith, h))
  drop-append (suc n) (x ∷ xs) ys h = drop-append n xs ys (omega (arith, h))

  -- A full buffer makes room by forgetting the oldest.
  newest-append :
      (log : List (GraphSample G)) (s : GraphSample G)
      → room (newest log) ++ (s ∷ []) ≡ newest (log ++ (s ∷ []))
  unfolding newest room
  newest-append log s =
      let n = length-append log (s ∷ []) in
      let d = length-drop (length log - sample_limit) log in
      elim (Bool-cases (ltb (length log) sample_limit)) [
        | inl short ↦
            let none : length log - sample_limit ≡ 0 = ground arith in
            let none' : length (log ++ (s ∷ [])) - sample_limit ≡ 0 = ground (arith, n) in
            let free : (length log == sample_limit) ≡ false = ground arith in
            rw (none, none', free) refl
        | inr long ↦
            let full : (length (drop (length log - sample_limit) log) == sample_limit) ≡ true =
              ground (arith, d) in
            let next : length (log ++ (s ∷ [])) - sample_limit ≡ length log - sample_limit + 1 =
              ground (arith, n) in
            rw (full, next, drop_next (length log - sample_limit) log)
              (drop-append (length log - sample_limit + 1) log (s ∷ []) (ground arith))
      ]

  newest_nothing : newest [] ≡ []
  unfolding newest
  newest_nothing = refl

  started :
      (other : Bool) (g : GraphState G) (log : List (GraphSample G))
      → g.samples ≡ newest log
      → (if other then reset_session g else g).samples ≡ newest (if other then [] else log)
  unfolding reset_session
  started true g log h = sym newest_nothing
  started false g log h = h

  same_samples : (g : GraphState G) (window : Option _) → (or_same g window).samples ≡ g.samples
  same_samples g none = refl
  same_samples g (some window) = refl

  toggled_samples : (n : ℕ) (g : GraphState G) → (toggle_series n g).samples ≡ g.samples
  unfolding toggle_series
  toggled_samples n g = elim (Bool-cases (ltb n (series_count g.kind))) [
    | inl there ↦ rw there refl
    | inr beyond ↦ rw beyond refl
  ]

  recorded-newest :
      (telemetry : TelemetrySnapshot F) (g : GraphState G) (log : List (GraphSample G))
      → g.samples ≡ newest log
      → (record_sample f narrow telemetry g).1.samples ≡ newest (note (recorded telemetry) g log)
  unfolding record_sample note append
  recorded-newest telemetry g log h =
      let g1 = if is_other_session g telemetry then reset_session g else g in
      let log1 = if is_other_session g telemetry then [] else log in
      let time = observed g1.last_observed_at_ms telemetry.observed_at_ms in
      let s = record (sample_of f narrow telemetry) { observed_at_ms = time } in
      let h1 : g1.samples ≡ newest log1 = started (is_other_session g telemetry) g log h in
      elim (Bool-cases (is_duplicate g1 telemetry)) [
        | inl old ↦ rw old h1
        | inr new ↦ rw (new, h1) (newest-append log1 s)
      ]

  apply-newest :
      (change : Change F) (g : GraphState G) (log : List (GraphSample G))
      → g.samples ≡ newest log
      → (apply f narrow change g).samples ≡ newest (note change g log)
  unfolding apply note toggle_paused select_kind set_window_seconds clear_history reset_session
  apply-newest (recorded telemetry) g log h = recorded-newest telemetry g log h
  apply-newest reset g log h = sym newest_nothing
  apply-newest cleared g log h = sym newest_nothing
  apply-newest paused g log h = h
  apply-newest (selected kind) g log h = h
  apply-newest (windowed n) g log h = same_samples g (from_seconds n) ∙ h
  apply-newest (toggled n) g log h = toggled_samples n g ∙ h

  run-newest :
      (changes : List (Change F)) (g : GraphState G) (log : List (GraphSample G))
      → g.samples ≡ newest log
      → (run f narrow changes g).samples ≡ newest (journal changes g log)
  unfolding run journal
  run-newest [] g log h = h
  run-newest (change ∷ changes) g log h =
      run-newest changes (apply f narrow change g) (note change g log) (apply-newest change g log h)

  -- The buffer of a graph is a window on a journal of everything that was recorded since the last
  -- start of a session or the last clearing: whatever the GUI does with a new graph, the buffer has
  -- the newest 1200 samples of the journal, in their order, and all of them while there are fewer.
  pub graph-newest :
      (changes : List (Change F))
      → (run f narrow changes empty).samples ≡ newest (journal changes empty [])
  unfolding empty
  graph-newest changes = run-newest changes empty [] (sym newest_nothing)
