-- ===== src/Config/Items.antt =====
-- The items of a configuration in crates/wireview-core/src/config.rs: a dotted key leads through the
-- objects of the JSON document to a leaf, which is read or replaced. What serde_json does is a
-- parameter.
use wireview_pro_ii.Base.{
  String, ◌⊎◌, inl, inr, Bool, true, false, Option, none, some, List, [], ◌∷◌, ◌||◌, if◌then◌else◌,
  map,
}
use wireview_pro_ii.Base.Sort.{same_text}
use wireview_pro_ii.Base.Text.{◌<>◌, split, trim}
use wireview_pro_ii.Domain.Error.{Result, ok, err, invalid_argument, ◌>>=◌, ◌>>◌}
use wireview_pro_ii.Float.{FloatOps}
use wireview_pro_ii.Config.Types.{DeviceSettings}
use wireview_pro_ii.Config.Ordinals.{invalid}
use wireview_pro_ii.Config.Validate.{validate_settings}

-- `serde_json::Value`; a number is its text.
mutual
  pub data Json : Type 0 where
    null : Json
    boolean : Bool → Json
    number : String → Json
    string : String → Json
    array : Items → Json
    object : Fields → Json

  pub data Items : Type 0 where
    nil : Items
    cons : Json → Items → Items

  pub data Fields : Type 0 where
    end : Fields
    field : String → Json → Fields → Fields

-- What serde_json does with a document: `to_value`, `to_string`, `from_str` with the text of its
-- error, and `from_str` into the settings.
pub record Serde (F : Type 0) : Type 0 where
  pub to_value : DeviceSettings F → Json
  pub to_string : Json → String
  -- `serde_json::to_string` of a value.
  pub serialize : Json → String ⊎ String
  pub from_str : String → String ⊎ Json
  pub settings_from_str : String → String ⊎ DeviceSettings F

-- `get` and an assignment through `get_mut`.
unfoldable pub lookup : String → Fields → Option Json
lookup k end = none
lookup k (field j v rest) = if same_text j k then some v else lookup k rest

unfoldable pub put : String → Json → Fields → Fields
put k v end = end
put k v (field j w rest) = if same_text j k then field j v rest else field j w (put k v rest)

abbrev pub is_object : Json → Bool
is_object (object fs) = true
is_object _ = false

abbrev pub is_number : Json → Bool
is_number (number n) = true
is_number _ = false

-- The `match document` of `item` and `set_item_value`: the value of a component.
unfoldable pub step : String → String → String → Json → Result Json
unfolding lookup ◌<>◌
step key not_an_item component (object fs) = elim (lookup component fs) [
  | none ↦ invalid ("unknown configuration key \"" <> key <> "\"")
  | some v ↦ ok v
]
step key not_an_item component _ = invalid ("\"" <> key <> not_an_item)

abbrev pub check_component : String → String → Result (Unit {0})
check_component key component =
    if same_text component ""
    then invalid ("invalid configuration key \"" <> key <> "\"")
    else ok tt

abbrev pub check_leaf : String → String → Json → Result (Unit {0})
check_leaf key message v = if is_object v then invalid ("\"" <> key <> message) else ok tt

-- The loop of `item` over the components of the key.
unfoldable pub item_at : String → List String → Json → Result Json
unfolding step ◌<>◌
item_at key [] current = do
  check_leaf key "\" is a configuration section, not an item" current
  ok current
item_at key (component ∷ rest) current = do
  check_component key component
  next ← step key "\" is not a configuration item" component current
  item_at key rest next

-- The list that a comma-separated value spells.
unfoldable pub item_values : String → List String → Result Items
unfolding ◌<>◌
item_values key [] = ok nil
item_values key (value ∷ rest) =
    if same_text value ""
    then invalid ("\"" <> key <> "\" contains an empty comma-separated value")
    else do values ← item_values key rest; ok (cons (string value) values)

unfoldable pub parse_boolean : String → String → Result Json
unfolding ◌<>◌
parse_boolean key raw_value =
    if same_text raw_value "true"
    then ok (boolean true)
    else if same_text raw_value "false"
    then ok (boolean false)
    else invalid ("\"" <> key <> "\" expects true or false")

module _ {F : Type 0} (serde : Serde F) where
  unfoldable pub parse_number : String → String ⊎ Json → Result Json
  unfolding ◌<>◌
  parse_number key (inl error) = invalid ("\"" <> key <> "\" expects a number")
  parse_number key (inr parsed) =
      if is_number parsed then ok parsed else invalid ("\"" <> key <> "\" expects a number")

  unfoldable pub parse_item_value : String → Json → String → Result Json
  unfolding parse_boolean item_values split trim ◌<>◌
  parse_item_value key (string _) raw_value = ok (string raw_value)
  parse_item_value key (boolean _) raw_value = parse_boolean key raw_value
  parse_item_value key (number _) raw_value = parse_number key (serde.from_str raw_value)
  parse_item_value key (array _) raw_value =
      if same_text raw_value "" || same_text raw_value "none"
      then ok (array nil)
      else do values ← item_values key (map trim (split b',' raw_value)); ok (array values)
  parse_item_value key (object _) raw_value =
      invalid ("\"" <> key <> "\" is a configuration section, not an editable item")
  parse_item_value key null raw_value = invalid ("\"" <> key <> "\" cannot be changed")

  -- `*next = …` through the objects that lead to it.
  abbrev pub assign : String → Json → Json → Json
  assign component v (object fs) = object (put component v fs)
  assign component v other = other

  -- The loop of `set_item_value` over the components of the key.
  unfoldable pub set_item_at : String → String → List String → Json → Result Json
  unfolding step put ◌<>◌
  set_item_at key raw_value [] document = invalid "configuration key cannot be empty"
  set_item_at key raw_value (component ∷ []) document = do
    check_component key component
    next ← step key "\" is not an editable configuration item" component document
    check_leaf key "\" is a configuration section, not an editable item" next
    v ← parse_item_value key next raw_value
    ok (assign component v document)
  set_item_at key raw_value (component ∷ next_component ∷ rest) document = do
    check_component key component
    next ← step key "\" is not an editable configuration item" component document
    v ← set_item_at key raw_value (next_component ∷ rest) next
    ok (assign component v document)

  unfoldable pub set_item_value : String → String → Json → Result Json
  unfolding split
  set_item_value key raw_value document =
      if same_text key ""
      then invalid "configuration key cannot be empty"
      else set_item_at key raw_value (split b'.' key) document

  unfoldable pub item : DeviceSettings F → String → Result Json
  unfolding split
  item settings key =
      if same_text key ""
      then invalid "configuration key cannot be empty"
      else item_at key (split b'.' key) (serde.to_value settings)

  unfoldable pub parse_settings : String ⊎ DeviceSettings F → Result (DeviceSettings F)
  unfolding ◌<>◌
  parse_settings (inl error) = err (invalid_argument ("invalid configuration JSON: " <> error))
  parse_settings (inr settings) = ok settings

module _ {F : Type 0} (f : FloatOps F) (serde : Serde F) where
  unfoldable pub from_json : String → Result (DeviceSettings F)
  from_json json = do
    settings ← parse_settings serde (serde.settings_from_str json)
    validate_settings f settings
    ok settings

  unfoldable pub settings_from_value : Json → Result (DeviceSettings F)
  settings_from_value document = from_json (serde.to_string document)

  unfoldable pub with_item : DeviceSettings F → String → String → Result (DeviceSettings F)
  with_item settings key raw_value = do
    document ← set_item_value serde key raw_value (serde.to_value settings)
    settings_from_value document

  -- The `for` loop of `with_items`.
  unfoldable pub set_items : List (String × String) → Json → Result Json
  set_items [] document = ok document
  set_items ((key, raw_value) ∷ items) document = do
    document' ← set_item_value serde key raw_value document
    set_items items document'

  unfoldable pub with_items : DeviceSettings F → List (String × String) → Result (DeviceSettings F)
  with_items settings items = do
    document ← set_items items (serde.to_value settings)
    settings_from_value document
