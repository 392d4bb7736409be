-- ===== src/History/Fuel.antt =====
-- The walk of crates/wireview-core/src/history.rs ends.
use wireview_pro_ii.Base.{
  ℕ, zero, suc, ◌+◌, ◌*◌, ◌≤◌, ◌<◌, ◌≡◌, refl, Bool, true, false, List, ◌⊎◌, inl, inr, ltb, arith,
  Bool-cases,
}
use wireview_pro_ii.History.Entry.{HistoryEntryKind}
use wireview_pro_ii.History.Walk.{
  Walking, Progress, slot_done, sector_done, end_found, failed, exhausted, Walked, out_of_fuel,
  entries_per_sector, flash_sector_size, next_page_slot, on_record, on_empty, walk_slot, go_on,
  walk_slots, after_sector, walk_sectors, walk_history,
}

-- A step that goes on goes to a later slot, and it never lacks fuel.
abbrev Advances : {S E : Type 0} → ℕ → Progress S E → Type 0
Advances slot (slot_done next w) = slot < next
Advances slot exhausted = ⊥
Advances slot _ = Unit

abbrev is_exhausted : {S E : Type 0} → Progress S E → Bool
is_exhausted exhausted = true
is_exhausted _ = false

abbrev pub is_out_of_fuel : {S E : Type 0} → Walked S E → Bool
is_out_of_fuel out_of_fuel = true
is_out_of_fuel _ = false

next_page-advances : (start offset slot : ℕ) → slot < next_page_slot start offset slot
unfolding next_page_slot
next_page-advances start offset slot = ground arith

module _ {S E : Type 0} (on_entry : List ℕ → ℕ → HistoryEntryKind → S → E ⊎ S) where
  on_record-Advances :
      (bytes : List ℕ) (encoded slot : ℕ) (w : Walking S)
      → Advances slot (on_record on_entry bytes encoded slot w)
  unfolding on_record
  on_record-Advances bytes encoded slot w = ground arith

  on_empty-Advances : (slot : ℕ) (w : Walking S) → Advances slot (on_empty on_entry slot w)
  unfolding on_empty
  on_empty-Advances slot w = ground arith

  walk_slot-Advances :
      (data_bytes : List ℕ) (complete_length start slot : ℕ) (w : Walking S)
      → Advances slot (walk_slot on_entry data_bytes complete_length start slot w)
  unfolding walk_slot
  walk_slot-Advances data_bytes complete_length start slot w =
      grind (arith, next_page-advances, on_record-Advances, on_empty-Advances)

  go_on-Ends :
      (slot : ℕ) (rest : ℕ → Walking S → Progress S E) (p : Progress S E)
      → Advances slot p
      → ((next : ℕ) (w : Walking S) → slot < next → is_exhausted (rest next w) ≡ false)
      → is_exhausted (go_on rest p) ≡ false
  go_on-Ends slot rest (slot_done next w) a h = h next w a
  go_on-Ends slot rest (sector_done w) a h = refl
  go_on-Ends slot rest (end_found s) a h = refl
  go_on-Ends slot rest (failed e) a h = refl
  go_on-Ends slot rest exhausted a h = ground arith

  -- As much fuel as there are slots left is enough.
  walk_slots-Ends :
      (fuel : ℕ) (data_bytes : List ℕ) (complete_length start slot : ℕ) (w : Walking S)
      → entries_per_sector ≤ fuel + slot
      → is_exhausted (walk_slots on_entry fuel data_bytes complete_length start slot w) ≡ false
  unfolding walk_slots
  walk_slots-Ends zero data_bytes complete_length start slot w h = ground arith
  walk_slots-Ends (suc fuel) data_bytes complete_length start slot w h =
      elim (Bool-cases (ltb slot entries_per_sector)) [
        | inr past ↦ rw past refl
        | inl inside ↦ rw inside (
            go_on-Ends slot _ _ (walk_slot-Advances data_bytes complete_length start slot w)
              λ next w' later.
                walk_slots-Ends fuel data_bytes complete_length start next w' (ground arith))
      ]

  after_sector-Ends :
      (next : Walking S → Walked S E) (p : Progress S E)
      → is_exhausted p ≡ false
      → ((w : Walking S) → is_out_of_fuel (next w) ≡ false)
      → is_out_of_fuel (after_sector next p) ≡ false
  after_sector-Ends next (slot_done slot w) e h = h w
  after_sector-Ends next (sector_done w) e h = h w
  after_sector-Ends next (end_found s) e h = refl
  after_sector-Ends next (failed x) e h = refl
  after_sector-Ends next exhausted e h = ground arith

  walk_sectors-Ends :
      (left sector : ℕ) (data_bytes : List ℕ) (complete_length : ℕ) (w : Walking S)
      → is_out_of_fuel (walk_sectors on_entry left sector data_bytes complete_length w) ≡ false
  unfolding walk_sectors
  walk_sectors-Ends zero sector data_bytes complete_length w = refl
  walk_sectors-Ends (suc left) sector data_bytes complete_length w =
      after_sector-Ends _ _
        (walk_slots-Ends entries_per_sector data_bytes complete_length (sector * flash_sector_size)
          0 w (ground arith))
        (walk_sectors-Ends left (suc sector) data_bytes complete_length)

  -- The fuel of a sector is enough for every log and every visitor: the walk ends with an answer
  -- or with the error of the visitor.
  pub walk_history-ends :
      (data_bytes : List ℕ) (s : S) → is_out_of_fuel (walk_history on_entry data_bytes s) ≡ false
  unfolding walk_history
  walk_history-ends data_bytes s = walk_sectors-Ends _ 0 data_bytes _ _
