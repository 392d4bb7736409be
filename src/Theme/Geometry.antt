-- ===== src/Theme/Geometry.antt =====
-- Where the slots of crates/wireview-core/src/theme.rs lie.
use wireview_pro_ii.Base.{◌+◌, ◌*◌, ◌≤◌, ◌≡◌, ◌⊎◌, ◌≢◌, arith}
use wireview_pro_ii.Theme.Slots.{ThemeAssetSlot, address, byte_len, width, height}

-- Two different slots occupy disjoint ranges of the flash, and every slot lies below the log,
-- which starts at 0x0080_0000, and holds two bytes for each of its pixels.
pub slots_disjoint :
    (s t : ThemeAssetSlot)
    → s ≢ t
    → ((address s + byte_len s ≤ address t) ⊎ (address t + byte_len t ≤ address s))
      × (address s + byte_len s ≤ 0x0080_0000)
      × (byte_len s ≡ width s * height s * 2)
unfolding address byte_len width height
slots_disjoint s t h = ground arith
