-- ===== src/History/Visits.antt =====
-- What the walk of crates/wireview-core/src/history.rs gives to its visitor.
use wireview_pro_ii.Base.{
  ℕ, zero, suc, ◌+◌, ◌-◌, ◌*◌, ◌%◌, ◌≡◌, true, List, ◌&&◌, ◌⊎◌, inl, inr, ltb, ◌==◌, arith,
  Bool-cases, take, drop,
}
use wireview_pro_ii.Config.Bytes.{read_u32}
use wireview_pro_ii.History.Entry.{HistoryEntryKind, measurement}
use wireview_pro_ii.History.Walk.{
  Walking, Progress, slot_done, sector_done, end_found, failed, exhausted, Walked, finished,
  entries_per_sector, flash_sector_size, flash_read_page_size, entry_size, empty_data, names_cable,
  is_plausible, visited, on_record, on_empty, walk_slot, go_on, walk_slots, after_sector,
  walk_sectors, walk_history,
}

module _ {S E : Type 0} (P : S → Type 0) where
  -- The visitor's state, if the visitor goes on.
  abbrev pub Keeps : E ⊎ S → Type 0
  Keeps (inl e) = Unit
  Keeps (inr s) = P s

  abbrev Carries : Progress S E → Type 0
  Carries (slot_done slot w) = P w.seen
  Carries (sector_done w) = P w.seen
  Carries (end_found s) = P s
  Carries _ = Unit

  abbrev pub Results : Walked S E → Type 0
  Results (finished found s) = P s
  Results _ = Unit

  module _ (on_entry : List ℕ → ℕ → HistoryEntryKind → S → E ⊎ S)
      (step : (bytes : List ℕ) (encoded : ℕ) (s : S)
        → names_cable bytes ≡ true
        → is_plausible bytes ≡ true
        → P s
        → Keeps (on_entry bytes encoded measurement s)) where
    visited-Carries : (slot : ℕ) (w : Walking S) (r : E ⊎ S) → Keeps r → Carries (visited slot w r)
    visited-Carries slot w (inl e) h = h
    visited-Carries slot w (inr s) h = h

    on_record-Carries :
        (bytes : List ℕ) (encoded slot : ℕ) (w : Walking S)
        → P w.seen
        → Carries (on_record on_entry bytes encoded slot w)
    unfolding on_record
    on_record-Carries bytes encoded slot w h = elim (Bool-cases (encoded % 4 == 0)) [
      | inr other ↦
          rw other (elim (Bool-cases (encoded % 4 == 2)) [ inl on ↦ rw on h | inr off ↦ rw off h ])
      | inl measured ↦ rw measured (elim (Bool-cases (names_cable bytes)) [
        | inr unnamed ↦ rw unnamed h
        | inl named ↦ rw named (elim (Bool-cases (is_plausible bytes)) [
          | inr partial ↦ rw partial h
          | inl whole ↦ rw whole (
              visited-Carries slot (record w { found_first = true }) _
                (step bytes encoded w.seen named whole h))
        ])
      ])
    ]

    on_empty-Carries : (slot : ℕ) (w : Walking S) → P w.seen → Carries (on_empty on_entry slot w)
    unfolding on_empty
    on_empty-Carries slot w h = ground arith

    walk_slot-Carries :
        (data_bytes : List ℕ) (complete_length start slot : ℕ) (w : Walking S)
        → P w.seen
        → Carries (walk_slot on_entry data_bytes complete_length start slot w)
    unfolding walk_slot
    walk_slot-Carries data_bytes complete_length start slot w h =
        let offset = start + slot * entry_size in
        let bytes = take entry_size (drop offset data_bytes) in
        elim (Bool-cases (ltb complete_length (offset + entry_size))) [
          | inl out ↦ rw out h
          | inr inside ↦
              rw inside
                (elim (Bool-cases
                  (w.found_first && ltb (flash_read_page_size - entry_size) (offset % 256))) [
                    | inl crossing ↦ rw crossing h
                    | inr whole ↦ rw whole (elim (Bool-cases (read_u32 bytes 0 == empty_data)) [
                      | inl empty ↦ rw empty (on_empty-Carries slot w h)
                      | inr full ↦
                          rw full (on_record-Carries bytes _ slot (record w { empty_run = 0 }) h)
                    ])
                  ])
        ]

    go_on-Carries :
        (rest : ℕ → Walking S → Progress S E) (p : Progress S E)
        → Carries p
        → ((next : ℕ) (w : Walking S) → P w.seen → Carries (rest next w))
        → Carries (go_on rest p)
    go_on-Carries rest (slot_done next w) c h = h next w c
    go_on-Carries rest (sector_done w) c h = c
    go_on-Carries rest (end_found s) c h = c
    go_on-Carries rest (failed e) c h = c
    go_on-Carries rest exhausted c h = c

    walk_slots-Carries :
        (fuel : ℕ) (data_bytes : List ℕ) (complete_length start slot : ℕ) (w : Walking S)
        → P w.seen
        → Carries (walk_slots on_entry fuel data_bytes complete_length start slot w)
    unfolding walk_slots
    walk_slots-Carries zero data_bytes complete_length start slot w h =
        elim (Bool-cases (ltb slot entries_per_sector)) [
          | inl inside ↦ rw inside tt
          | inr past ↦ rw past h
        ]
    walk_slots-Carries (suc fuel) data_bytes complete_length start slot w h =
        elim (Bool-cases (ltb slot entries_per_sector)) [
          | inr past ↦ rw past h
          | inl inside ↦ rw inside (
              go_on-Carries _ _ (walk_slot-Carries data_bytes complete_length start slot w h)
                (walk_slots-Carries fuel data_bytes complete_length start))
        ]

    after_sector-Results :
        (next : Walking S → Walked S E) (p : Progress S E)
        → Carries p
        → ((w : Walking S) → P w.seen → Results (next w))
        → Results (after_sector next p)
    after_sector-Results next (slot_done slot w) c h = h w c
    after_sector-Results next (sector_done w) c h = h w c
    after_sector-Results next (end_found s) c h = c
    after_sector-Results next (failed e) c h = c
    after_sector-Results next exhausted c h = c

    walk_sectors-Results :
        (left sector : ℕ) (data_bytes : List ℕ) (complete_length : ℕ) (w : Walking S)
        → P w.seen
        → Results (walk_sectors on_entry left sector data_bytes complete_length w)
    unfolding walk_sectors
    walk_sectors-Results zero sector data_bytes complete_length w h = h
    walk_sectors-Results (suc left) sector data_bytes complete_length w h =
        after_sector-Results _ _
          (walk_slots-Carries entries_per_sector data_bytes complete_length
            (sector * flash_sector_size) 0 w h)
          (walk_sectors-Results left (suc sector) data_bytes complete_length)

    -- What holds of the visitor's state at first, and is kept by the visit of a whole record of a
    -- measurement, holds of it at the end.
    pub walk_history-Results :
        (data_bytes : List ℕ) (s : S) → P s → Results (walk_history on_entry data_bytes s)
    unfolding walk_history
    walk_history-Results data_bytes s h = walk_sectors-Results _ 0 data_bytes _ _ h
