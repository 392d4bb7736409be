-- ===== src/Base/Sort.antt =====
-- `sort` and `dedup` on a `Vec<String>`. A sorted list is unique, so the algorithm does not matter.
use Prim.Native.Nat.{Ordering}
use Prim.Native.String.{String, compare}
use text.Mathlib.Text.{◌==◌ as str_eq}
use mathlib.Core.Bool.{Bool, true, false, ◌&&◌}
use mathlib.Core.Option.{Option, none, some}
use mathlib.Core.List.{List, [], ◌∷◌}
use mathlib.Core.Path.{◌≡◌}
use text.Mathlib.TextPositions.{eq_refl}
use wireview_pro_ii.Base.Tests.{if◌then◌else◌}

string_le : String → String → Bool
string_le s t = elim (compare s t) [ Ordering.gt ↦ false | _ ↦ true ]

insert_sorted : String → List String → List String
insert_sorted s [] = s ∷ []
insert_sorted s (t ∷ ts) = if string_le s t then s ∷ t ∷ ts else t ∷ insert_sorted s ts

unfoldable pub sort : List String → List String
unfolding insert_sorted string_le
sort [] = []
sort (s ∷ ss) = insert_sorted s (sort ss)

unfoldable pub dedup : List String → List String
dedup [] = []
dedup (s ∷ []) = s ∷ []
dedup (s ∷ t ∷ ts) = let rest = dedup (t ∷ ts) in if str_eq s t then rest else s ∷ rest

abbrev pub same_text : String → String → Bool
same_text s t = str_eq s t

pub same_text_refl : (s : String) → same_text s s ≡ true
same_text_refl = eq_refl

-- `existing == &candidates`
abbrev pub same_texts : List String → List String → Bool
same_texts [] [] = true
same_texts (s ∷ ss) (t ∷ ts) = str_eq s t && same_texts ss ts
same_texts _ _ = false

-- `current_port.as_deref() == Some(port)`
abbrev pub is_text : Option String → String → Bool
is_text none t = false
is_text (some s) t = str_eq s t
