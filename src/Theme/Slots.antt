-- ===== src/Theme/Slots.antt =====
-- `ThemeAssetSlot` of crates/wireview-core/src/theme.rs.
use wireview_pro_ii.Base.{ℕ, ◌*◌, String, List, [], ◌∷◌}

abbrev pub background_width : ℕ
background_width = 320

abbrev pub background_height : ℕ
background_height = 170

abbrev pub background_bytes : ℕ
background_bytes = background_width * background_height * 2

abbrev pub fan_width : ℕ
fan_width = 73

abbrev pub fan_height : ℕ
fan_height = 73

abbrev pub fan_frame_bytes : ℕ
fan_frame_bytes = fan_width * fan_height * 2

pub data ThemeAssetSlot : Type 0 where
  background_orange background_dark : ThemeAssetSlot
  fan_orange_1 fan_orange_2 fan_dark_1 fan_dark_2 : ThemeAssetSlot
  fan_black_white_1 fan_black_white_2 : ThemeAssetSlot

-- `ThemeAssetSlot::ALL`
abbrev pub all_slots : List ThemeAssetSlot
all_slots =
    background_orange ∷ background_dark ∷ fan_orange_1 ∷ fan_orange_2 ∷ fan_dark_1 ∷ fan_dark_2
    ∷ fan_black_white_1 ∷ fan_black_white_2 ∷ []

unfoldable pub name : ThemeAssetSlot → String
name background_orange = "background-orange"
name background_dark = "background-dark"
name fan_orange_1 = "fan-orange-1"
name fan_orange_2 = "fan-orange-2"
name fan_dark_1 = "fan-dark-1"
name fan_dark_2 = "fan-dark-2"
name fan_black_white_1 = "fan-black-white-1"
name fan_black_white_2 = "fan-black-white-2"

unfoldable pub address : ThemeAssetSlot → ℕ
address background_orange = 0x0000_3000
address background_dark = 0x0001_D900
address fan_orange_1 = 0x0005_6374
address fan_orange_2 = 0x0005_B6BC
address fan_dark_1 = 0x0005_8D18
address fan_dark_2 = 0x0005_E060
address fan_black_white_1 = 0x0006_0A04
address fan_black_white_2 = 0x0006_33A8

unfoldable pub byte_len : ThemeAssetSlot → ℕ
byte_len background_orange = background_bytes
byte_len background_dark = background_bytes
byte_len _ = fan_frame_bytes

unfoldable pub width : ThemeAssetSlot → ℕ
width background_orange = background_width
width background_dark = background_width
width _ = fan_width

unfoldable pub height : ThemeAssetSlot → ℕ
height background_orange = background_height
height background_dark = background_height
height _ = fan_height
