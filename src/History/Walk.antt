-- ===== src/History/Walk.antt =====
-- The traversal of crates/wireview-core/src/history.rs: sector by sector, slot by slot. The
-- visitor's own state is threaded through, and an error of it ends the walk.
use wireview_pro_ii.Base.{
  ℕ, zero, suc, ◌+◌, ◌-◌, ◌*◌, ◌/◌, ◌%◌, max, Bool, true, false, not, List, [], ◌∷◌, ◌++◌, ◌&&◌,
  ◌⊎◌, inl, inr, ltb, leb, ◌==◌, if◌then◌else◌, take, drop, length,
}
use wireview_pro_ii.Float.{FloatOps}
use wireview_pro_ii.Config.Bytes.{byte_at, read_u32}
use wireview_pro_ii.History.Entry.{HistoryEntryKind, measurement, HistoryEntry, decode_entry}

abbrev pub flash_length : ℕ
flash_length = 0x0080_0000

abbrev pub flash_read_page_size : ℕ
flash_read_page_size = 256

abbrev pub flash_sector_size : ℕ
flash_sector_size = 4096

abbrev pub entry_size : ℕ
entry_size = 21

abbrev pub entries_per_sector : ℕ
entries_per_sector = flash_sector_size / entry_size

abbrev pub empty_data : ℕ
empty_data = 0xffff_ffff

abbrev pub empty_run_end : ℕ
empty_run_end = 32

-- The variables of the loop, with the visitor's state.
pub record Walking (S : Type 0) : Type 0 where
  pub found_first : Bool
  pub empty_run : ℕ
  pub seen : S

-- How the walk goes on: with the next slot, with the next sector, or not at all, because the end
-- was found or because the visitor failed. `exhausted` is the lack of fuel.
pub data Progress (S E : Type 0) : Type 0 where
  slot_done : ℕ → Walking S → Progress S E
  sector_done : Walking S → Progress S E
  end_found : S → Progress S E
  failed : E → Progress S E
  exhausted : Progress S E

-- How the whole walk ends: with whether the end was found, or with the visitor's error.
pub data Walked (S E : Type 0) : Type 0 where
  finished : Bool → S → Walked S E
  stopped : E → Walked S E
  out_of_fuel : Walked S E

-- The first slot of the next page: `offset` moves to the page, and then to a multiple of the size.
unfoldable pub next_page_slot : ℕ → ℕ → ℕ → ℕ
next_page_slot sector_start offset slot =
    let page = offset + (flash_read_page_size - offset % 256) in
    let remainder = page % entry_size in
    let aligned = if remainder == 0 then page else page + (entry_size - remainder) in
    max ((aligned - sector_start) / entry_size) (slot + 1)

abbrev byte_sum : List ℕ → ℕ
byte_sum [] = 0
byte_sum (b ∷ bytes) = b + byte_sum bytes

-- The record of a measurement: it names a cable, and its voltages are plausible.
abbrev pub names_cable : List ℕ → Bool
names_cable bytes = leb (byte_at bytes 20) 3

abbrev pub is_plausible : List ℕ → Bool
is_plausible bytes =
    let voltage_sum = byte_sum (take 6 (drop 8 bytes)) in ltb 60 voltage_sum && ltb voltage_sum 900

module _ {S E : Type 0} where
  abbrev pub visited : ℕ → Walking S → E ⊎ S → Progress S E
  visited slot w (inl e) = failed e
  visited slot w (inr s) = slot_done (slot + 1) (record w { seen = s })

  abbrev pub go_on : (ℕ → Walking S → Progress S E) → Progress S E → Progress S E
  go_on next (slot_done slot w) = next slot w
  go_on next other = other

  -- What the visit of a whole sector leads to.
  abbrev pub after_sector : (Walking S → Walked S E) → Progress S E → Walked S E
  after_sector next (slot_done slot w) = next w
  after_sector next (sector_done w) = next w
  after_sector next (end_found s) = finished true s
  after_sector next (failed e) = stopped e
  after_sector next exhausted = out_of_fuel

module _ {S E : Type 0} (on_entry : List ℕ → ℕ → HistoryEntryKind → S → E ⊎ S) where
  -- The `match encoded & 0b11`.
  unfoldable pub on_record : List ℕ → ℕ → ℕ → Walking S → Progress S E
  on_record bytes encoded slot w =
      if encoded % 4 == 0
      then if not (names_cable bytes)
        then slot_done (slot + 1) w
        else if is_plausible bytes
        then visited slot (record w { found_first = true })
            (on_entry bytes encoded measurement w.seen)
        else slot_done (slot + 1) (record w { found_first = true })
      else if encoded % 4 == 2
      then slot_done (slot + 1) (record w { found_first = true })
      else slot_done (slot + 1) w

  unfoldable pub on_empty : ℕ → Walking S → Progress S E
  on_empty slot w =
      if w.found_first
      then if leb empty_run_end (w.empty_run + 1)
        then end_found w.seen
        else slot_done (slot + 1) (record w { empty_run = w.empty_run + 1 })
      else slot_done (slot + 1) w

  -- The body of the `while`.
  unfoldable pub walk_slot : List ℕ → ℕ → ℕ → ℕ → Walking S → Progress S E
  walk_slot data_bytes complete_length sector_start slot w =
      let offset = sector_start + slot * entry_size in
      if ltb complete_length (offset + entry_size)
      then sector_done w
      else if w.found_first && ltb (flash_read_page_size - entry_size) (offset % 256)
      then slot_done (next_page_slot sector_start offset slot) w
      else let bytes = take entry_size (drop offset data_bytes) in
        let encoded = read_u32 bytes 0 in
        if encoded == empty_data
        then on_empty slot w
        else on_record bytes encoded slot (record w { empty_run = 0 })

  -- The `while` loop, on fuel: a step goes to a later slot, so the number of slots is enough.
  unfoldable pub walk_slots : ℕ → List ℕ → ℕ → ℕ → ℕ → Walking S → Progress S E
  walk_slots zero data_bytes complete_length sector_start slot w =
      if ltb slot entries_per_sector then exhausted else sector_done w
  walk_slots (suc fuel) data_bytes complete_length sector_start slot w =
      let rest = walk_slots fuel data_bytes complete_length sector_start in
      if ltb slot entries_per_sector
      then go_on rest (walk_slot data_bytes complete_length sector_start slot w)
      else sector_done w

  -- The `for` loop over the sectors that are left, from `sector` on.
  unfoldable pub walk_sectors : ℕ → ℕ → List ℕ → ℕ → Walking S → Walked S E
  walk_sectors zero sector data_bytes complete_length w =
      finished (complete_length == flash_length) w.seen
  walk_sectors (suc left) sector data_bytes complete_length w =
      after_sector (walk_sectors left (suc sector) data_bytes complete_length)
        (walk_slots entries_per_sector data_bytes complete_length (sector * flash_sector_size) 0 w)

  unfoldable pub walk_history : List ℕ → S → Walked S E
  walk_history data_bytes s =
      let sectors = length data_bytes / flash_sector_size in
      walk_sectors sectors 0 data_bytes (sectors * flash_sector_size)
        (record { found_first = false; empty_run = 0; seen = s })

-- `visit_history`, with the visitor's state and the count of the entries.
module _ {F S E : Type 0} (f : FloatOps F) (visitor : HistoryEntry F → S → E ⊎ S) where
  abbrev pub counted : ℕ → E ⊎ S → E ⊎ (ℕ × S)
  counted n (inl e) = inl e
  counted n (inr s) = inr (n + 1, s)

  abbrev pub visit : List ℕ → ℕ → HistoryEntryKind → ℕ × S → E ⊎ (ℕ × S)
  visit bytes encoded kind (n, s) = counted n (visitor (decode_entry f bytes encoded kind) s)

  unfoldable pub visit_history : List ℕ → S → Walked (ℕ × S) E
  visit_history data_bytes s = walk_history visit data_bytes (0, s)

module _ {F : Type 0} where
  -- The closure that `parse_history` passes.
  abbrev pub push : HistoryEntry F → List (HistoryEntry F) → ⊥ ⊎ List (HistoryEntry F)
  push entry entries = inr (entries ++ (entry ∷ []))

  abbrev pub ignore : HistoryEntry F → Unit {0} → ⊥ ⊎ Unit {0}
  ignore entry s = inr s

module _ {F : Type 0} (f : FloatOps F) where
  unfoldable pub parse_history : List ℕ → Walked (ℕ × List (HistoryEntry F)) ⊥
  parse_history data_bytes = visit_history f push data_bytes []

  unfoldable pub history_end_found : List ℕ → Walked (ℕ × Unit {0}) ⊥
  history_end_found data_bytes = visit_history f ignore data_bytes tt
