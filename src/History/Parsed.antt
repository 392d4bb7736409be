-- ===== src/History/Parsed.antt =====
-- What `parse_history` of crates/wireview-core/src/history.rs returns.
use wireview_pro_ii.Base.{
  ℕ, ◌≡◌, refl, Bool, true, false, not, List, [], ◌∷◌, ◌++◌, ◌&&◌, leb, ◌==◌, arith, length, all,
  length-append,
}
use wireview_pro_ii.Float.{FloatOps}
use wireview_pro_ii.Config.Bytes.{byte_at}
use wireview_pro_ii.History.Entry.{
  HistoryEntryKind, measurement, power_on, HistoryEntry, cable_capability, decode_entry,
}
use wireview_pro_ii.History.Walk.{
  Walked, finished, stopped, out_of_fuel, names_cable, is_plausible, visit, visit_history, push,
  parse_history,
}
use wireview_pro_ii.History.Fuel.{is_out_of_fuel, walk_history-ends}
use wireview_pro_ii.History.Visits.{Keeps, Results, walk_history-Results}

abbrev is_measurement : HistoryEntryKind → Bool
is_measurement measurement = true
is_measurement power_on = false

named-capability : (value : ℕ) → leb value 3 ≡ true → (cable_capability value == 0) ≡ false
unfolding cable_capability
named-capability value h = ground arith

all-append :
    {A : Type 0} (p : A → Bool) (xs : List A) (x : A)
    → all p xs ≡ true
    → p x ≡ true
    → all p (xs ++ (x ∷ [])) ≡ true
all-append p [] x h k = ground arith
all-append p (y ∷ xs) x h k = ground (arith, all-append p xs x (ground arith) k)

module _ {F : Type 0} (f : FloatOps F) where
  -- A measurement with a cable that the device can name: its decoding did not panic.
  abbrev is_measured : HistoryEntry F → Bool
  is_measured e = is_measurement e.kind && not (e.metrics.cable_capability_w == 0)

  abbrev IsGood : ℕ × List (HistoryEntry F) → Type 0
  IsGood (n, entries) = (n ≡ length entries) × (all is_measured entries ≡ true)

  decoded-is_measured :
      (bytes : List ℕ) (encoded : ℕ)
      → names_cable bytes ≡ true
      → is_measured (decode_entry f bytes encoded measurement) ≡ true
  unfolding decode_entry
  decoded-is_measured bytes encoded h = ground (arith, named-capability (byte_at bytes 20) h)

  push-IsGood :
      (bytes : List ℕ) (encoded : ℕ) (s : ℕ × List (HistoryEntry F))
      → names_cable bytes ≡ true
      → is_plausible bytes ≡ true
      → IsGood s
      → Keeps {E = ⊥} IsGood (visit f push bytes encoded measurement s)
  push-IsGood bytes encoded (n, entries) named plausible (count, good) =
      let entry = decode_entry f bytes encoded measurement in
      (
        omega (arith, count, length-append entries (entry ∷ [])),
        all-append is_measured entries entry good (decoded-is_measured bytes encoded named),
      )

  -- The walk came to an end, with entries that were all decoded from measurements.
  abbrev pub IsParsed : Walked (ℕ × List (HistoryEntry F)) ⊥ → Type 0
  IsParsed (finished found s) = IsGood s
  IsParsed (stopped e) = ⊥
  IsParsed out_of_fuel = ⊥

  parsed :
      (r : Walked (ℕ × List (HistoryEntry F)) ⊥)
      → is_out_of_fuel r ≡ false
      → Results IsGood r
      → IsParsed r
  parsed (finished found s) h k = k
  parsed (stopped e) h k = e
  parsed out_of_fuel h k = ground arith

  -- Whatever bytes the log holds, its parse ends without an error, it counts the entries that it
  -- returns, and each of them is a measurement whose cable capability is known.
  pub parse_history-IsParsed : (data_bytes : List ℕ) → IsParsed (parse_history f data_bytes)
  unfolding parse_history visit_history
  parse_history-IsParsed data_bytes =
      parsed _ (walk_history-ends (visit f push) data_bytes (0, []))
        (walk_history-Results IsGood (visit f push) push-IsGood data_bytes (0, []) (refl, refl))
