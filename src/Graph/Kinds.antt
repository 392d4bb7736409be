-- ===== src/Graph/Kinds.antt =====
-- `GraphKind` and `GraphWindow` of crates/wireview-gui/src/graph.rs.
use wireview_pro_ii.Base.{ℕ, String, Option, none, some, List, [], ◌∷◌, ◌==◌, if◌then◌else◌}
use wireview_pro_ii.Base.Sort.{same_text}

pub data GraphKind : Type 0 where
  power current voltage temperature : GraphKind

unfoldable pub parse : String → Option GraphKind
parse value =
    if same_text value "power"
    then some power
    else if same_text value "current"
    then some current
    else if same_text value "voltage"
    then some voltage
    else if same_text value "temperature"
    then some temperature
    else none

unfoldable pub index : GraphKind → ℕ
index power = 0
index current = 1
index voltage = 2
index temperature = 3

unfoldable pub id : GraphKind → String
id power = "power"
id current = "current"
id voltage = "voltage"
id temperature = "temperature"

unfoldable pub title : GraphKind → String
title power = "POWER FIELD"
title current = "CURRENT FIELD"
title voltage = "VOLTAGE FIELD"
title temperature = "THERMAL FIELD"

unfoldable pub unit : GraphKind → String
unit power = "W"
unit current = "A"
unit voltage = "V"
unit temperature = "C"

unfoldable pub labels : GraphKind → List String
labels power = "TOTAL" ∷ "" ∷ "" ∷ "" ∷ "" ∷ "" ∷ []
labels current = "I1" ∷ "I2" ∷ "I3" ∷ "I4" ∷ "I5" ∷ "I6" ∷ []
labels voltage = "V1" ∷ "V2" ∷ "V3" ∷ "V4" ∷ "V5" ∷ "V6" ∷ []
labels temperature = "INPUT" ∷ "OUTPUT" ∷ "EXT 1" ∷ "EXT 2" ∷ "" ∷ "" ∷ []

unfoldable pub series_count : GraphKind → ℕ
series_count power = 1
series_count current = 6
series_count voltage = 6
series_count temperature = 4

pub data GraphWindow : Type 0 where
  minute five_minutes ten_minutes : GraphWindow

unfoldable pub from_seconds : ℕ → Option GraphWindow
from_seconds seconds =
    if seconds == 60
    then some minute
    else if seconds == 300
    then some five_minutes
    else if seconds == 600
    then some ten_minutes
    else none

unfoldable pub seconds : GraphWindow → ℕ
seconds minute = 60
seconds five_minutes = 300
seconds ten_minutes = 600

unfoldable pub axis_label : GraphWindow → String
axis_label minute = "-60 S"
axis_label five_minutes = "-5 M"
axis_label ten_minutes = "-10 M"
