-- ===== src/Examples/Items.antt =====
-- The items of a configuration document at a small input.
use wireview_pro_ii.Base.{ℕ, ◌≡◌, ◌≢◌, refl, String, List, inl, inr}
use wireview_pro_ii.Base.Text.{split}
use wireview_pro_ii.Domain.Error.{ok}
use wireview_pro_ii.Config.Items.{
  Json, null, string, object, field, end, Serde, lookup, put, step, item_at, parse_item_value,
  set_item_at, set_item_value,
}
use wireview_pro_ii.Config.Lens.{IsReplaced, set_item_value_lem}

-- No number can be read.
abbrev no_numbers : Serde ℕ
no_numbers = record {
  to_value = λ settings. null;
  to_string = λ document. "";
  serialize = λ document. inr "";
  from_str = λ text. inl "no number";
  settings_from_str = λ text. inl "no settings";
}

abbrev with_mode : String → Json
with_mode mode = object (
    field "friendly_name" (string "Desk")
      (field "fan" (object (field "mode" (string mode) end)) end))

mode_set : set_item_value no_numbers "fan.mode" "fixed" (with_mode "curve") ≡ ok (with_mode "fixed")
unfolding lookup put step parse_item_value set_item_at set_item_value split
mode_set = refl

set_item_value_lem_example :
    IsReplaced no_numbers "fan.mode" "fixed"
      (split b'.' "fan.mode")
      (with_mode "curve")
      (with_mode "fixed")
    × ((key : String) (other : List String)
        → other ≢ split b'.' "fan.mode"
        → item_at key other (with_mode "fixed") ≡ item_at key other (with_mode "curve"))
set_item_value_lem_example =
    set_item_value_lem no_numbers "fan.mode" "fixed" (with_mode "curve") (with_mode "fixed")
      mode_set
