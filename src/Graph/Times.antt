-- ===== src/Graph/Times.antt =====
-- The buffer of the GUI's graphs, whatever happens to it.
use wireview_pro_ii.Base.{
  ℕ, ◌≤◌, ◌<◌, ◌≡◌, refl, sym, subst, ◌⊎◌, inl, inr, Option, none, some, List, [], ◌∷◌, ◌++◌,
  length, length-append, length-drop, ◌==◌, if◌then◌else◌, Bool-cases, arith,
}
use wireview_pro_ii.Float.{FloatOps}
use wireview_pro_ii.Client.Snapshot.{TelemetrySnapshot}
use wireview_pro_ii.Graph.State.{
  sample_limit, u64_max, GraphSample, GraphState, observed, room, reset_session, sample_of, append,
  is_other_session, is_duplicate, record_sample,
}

-- A later time, or the end of time.
abbrev pub IsLater : ℕ → ℕ → Type 0
IsLater before after = (before < after) ⊎ (after ≡ u64_max)

-- The samples are in the order of their times, and the last one is at `last`.
unfoldable pub EndsAt : {G : Type 0} → List (GraphSample G) → ℕ → Type 0
EndsAt [] last = Unit {0}
EndsAt (s ∷ []) last = s.observed_at_ms ≡ last
EndsAt (s ∷ t ∷ samples) last =
    IsLater s.observed_at_ms t.observed_at_ms × EndsAt (t ∷ samples) last

abbrev pub IsTimed : {G : Type 0} → List (GraphSample G) → Option ℕ → Type 0
IsTimed samples none = samples ≡ []
IsTimed samples (some last) = (last ≤ u64_max) × EndsAt samples last

unfoldable pub Inv : {G : Type 0} → GraphState G → Type 0
Inv g = (length g.samples ≤ sample_limit) × IsTimed g.samples g.last_observed_at_ms

EndsAt-tail :
    {G : Type 0} (s : GraphSample G) (samples : List (GraphSample G)) (last : ℕ)
    → EndsAt (s ∷ samples) last
    → EndsAt samples last
unfolding EndsAt
EndsAt-tail s [] last h = tt
EndsAt-tail s (t ∷ samples) last h = h.1

EndsAt-append :
    {G : Type 0} (samples : List (GraphSample G)) (s : GraphSample G) (last : ℕ)
    → EndsAt samples last
    → IsLater last s.observed_at_ms
    → EndsAt (samples ++ (s ∷ [])) s.observed_at_ms
unfolding EndsAt
EndsAt-append [] s last h later = refl
EndsAt-append (r ∷ []) s last h later =
    (subst (λ n. IsLater n s.observed_at_ms) (sym h) later, refl)
EndsAt-append (r ∷ t ∷ samples) s last (first, rest) later =
    (first, EndsAt-append (t ∷ samples) s last rest later)

room-EndsAt :
    {G : Type 0} (samples : List (GraphSample G)) (last : ℕ)
    → EndsAt samples last
    → EndsAt (room samples) last
unfolding room
room-EndsAt [] last h = h
room-EndsAt (s ∷ samples) last h = elim (Bool-cases (length (s ∷ samples) == sample_limit)) [
  | inl full ↦ rw full (EndsAt-tail s samples last h)
  | inr free ↦ rw free h
]

-- Room for one more.
length-room :
    {G : Type 0} (samples : List (GraphSample G))
    → length samples ≤ sample_limit
    → length (room samples) < sample_limit
unfolding room
length-room samples h = elim (Bool-cases (length samples == sample_limit)) [
  | inl full ↦ let one = length-drop 1 samples in rw full (ground (arith, one))
  | inr free ↦ rw free (ground arith)
]

observed-IsLater :
    (last time : ℕ) → last ≤ u64_max → time ≤ u64_max → IsLater last (observed (some last) time)
unfolding observed
observed-IsLater last time h t = elim (Bool-cases (last == u64_max)) [
  | inl end ↦ inr (ground arith)
  | inr more ↦ inl (ground arith)
]

observed-fits : (last : Option ℕ) (time : ℕ) → time ≤ u64_max → observed last time ≤ u64_max
unfolding observed
observed-fits none time h = h
observed-fits (some last) time h = omega (arith, h)

module _ {F G : Type 0} (f : FloatOps F) (narrow : F → G) where
  append-IsTimed :
      (samples : List (GraphSample G)) (last : Option ℕ) (s : GraphSample G) (time : ℕ)
      → IsTimed samples last
      → time ≤ u64_max
      → s.observed_at_ms ≡ observed last time
      → EndsAt (room samples ++ (s ∷ [])) s.observed_at_ms
  unfolding observed EndsAt room
  append-IsTimed samples none s time h t e =
      subst (λ samples. EndsAt (room samples ++ (s ∷ [])) s.observed_at_ms) (sym h) refl
  append-IsTimed samples (some last) s time (fits, ordered) t e =
      let later = subst (IsLater last) (sym e) (observed-IsLater last time fits t) in
      EndsAt-append (room samples) s last (room-EndsAt samples last ordered) later

  append-Inv :
      (telemetry : TelemetrySnapshot F) (g : GraphState G)
      → telemetry.observed_at_ms ≤ u64_max
      → Inv g
      → Inv (append f narrow telemetry g)
  unfolding append Inv
  append-Inv telemetry g t (short, timed) =
      let time = observed g.last_observed_at_ms telemetry.observed_at_ms in
      let s = record (sample_of f narrow telemetry) { observed_at_ms = time } in
      let n = length-append (room g.samples) (s ∷ []) in
      let m = length-room g.samples short in
      (
        rw n (omega (arith, m)),
        (
          observed-fits g.last_observed_at_ms telemetry.observed_at_ms t,
          append-IsTimed g.samples g.last_observed_at_ms s telemetry.observed_at_ms timed t refl,
        ),
      )

  pub reset_session-Inv : (g : GraphState G) → Inv (reset_session g)
  unfolding reset_session Inv
  reset_session-Inv g = (omega arith, refl)

  pub record_sample-Inv :
      (telemetry : TelemetrySnapshot F) (g : GraphState G)
      → telemetry.observed_at_ms ≤ u64_max
      → Inv g
      → Inv (record_sample f narrow telemetry g).1
  unfolding record_sample
  record_sample-Inv telemetry g t inv =
      let g1 = if is_other_session g telemetry then reset_session g else g in
      let inv1 : Inv g1 = elim (Bool-cases (is_other_session g telemetry)) [
        | inl other ↦ rw other (reset_session-Inv g)
        | inr same ↦ rw same inv
      ] in
      elim (Bool-cases (is_duplicate g1 telemetry)) [
        | inl old ↦ rw old inv1
        | inr new ↦ rw new (append-Inv telemetry g1 t inv1)
      ]
