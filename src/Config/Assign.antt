-- ===== src/Config/Assign.antt =====
-- How `set_item_value` of crates/wireview-core/src/config.rs succeeds: at each component of the key
-- there is an object with that field, and at the last one a leaf.
use text.Mathlib.TextEquality.{eq_iff}
use wireview_pro_ii.Base.{
  String, ◌≡◌, ◌⊎◌, refl, sym, subst, Bool, true, false, some, List, [], ◌∷◌, ◌||◌, inl, inr,
  if◌then◌else◌, arith, map,
}
use wireview_pro_ii.Base.Sort.{same_text}
use wireview_pro_ii.Base.Text.{split, trim}
use wireview_pro_ii.Domain.Error.{Result, ok, err, and_then, invalid_argument, ◌>>=◌, ◌>>◌}
use wireview_pro_ii.Config.Items.{
  Json, Items, Fields, nil, null, boolean, number, string, array, object, end, field, Serde, lookup,
  put, is_object, step, check_component, check_leaf, item_values, parse_boolean, parse_number,
  parse_item_value, assign, set_item_at,
}

pub and_then-eq-ok :
    {A B : Type 0} (r : Result A) (f : A → Result B) {b : B}
    → and_then r f ≡ ok b
    → (a : A) × (r ≡ ok a) × (f a ≡ ok b)
and_then-eq-ok (ok a) f h = (a, refl, h)
and_then-eq-ok (err e) f h = absurd (ground arith)

pub lookup-put_same :
    (k : String) (v old : Json) (fs : Fields)
    → lookup k fs ≡ some old
    → lookup k (put k v fs) ≡ some v
unfolding lookup put
lookup-put_same k v old end h = ground arith
lookup-put_same k v old (field j w rest) h =
    ground (arith, eq_iff j k, lookup-put_same k v old rest)

pub lookup-put_other :
    (k j : String) (v : Json) (fs : Fields)
    → same_text k j ≡ false
    → lookup j (put k v fs) ≡ lookup j fs
unfolding lookup put
lookup-put_other k j v end h = refl
lookup-put_other k j v (field i w rest) h =
    ground (arith, eq_iff i k, eq_iff i j, eq_iff k j, lookup-put_other k j v rest)

-- A step leads from an object.
step-eq-ok :
    (key m c : String) (document next : Json)
    → step key m c document ≡ ok next
    → (fs : Fields) × (document ≡ object fs) × (lookup c fs ≡ some next)
unfolding step
step-eq-ok key m c (object fs) next h = (fs, refl, ground arith)
step-eq-ok key m c null next h = absurd (ground arith)
step-eq-ok key m c (boolean b) next h = absurd (ground arith)
step-eq-ok key m c (number n) next h = absurd (ground arith)
step-eq-ok key m c (string s) next h = absurd (ground arith)
step-eq-ok key m c (array vs) next h = absurd (ground arith)

pub step-some :
    (key m c : String) (fs : Fields) (next : Json)
    → lookup c fs ≡ some next
    → step key m c (object fs) ≡ ok next
unfolding step
step-some key m c fs next h = rw (h, step) refl

pub step_same :
    (key m c : String) (fs gs : Fields)
    → lookup c fs ≡ lookup c gs
    → step key m c (object fs) ≡ step key m c (object gs)
unfolding step
step_same key m c fs gs h = rw (h, step) refl

pub passed :
    (test : Bool) (r : Result Json) (m : String) {document : Json}
    → (if test then err (invalid_argument m) else r) ≡ ok document
    → r ≡ ok document
passed true r m h = absurd (ground arith)
passed false r m h = h

pub pair_eq : {a b : String} {as_ bs : List String} → a ≡ b → as_ ≡ bs → a ∷ as_ ≡ b ∷ bs
pair_eq h k = cc

ok_injective : {A : Type 0} {a b : A} → ok a ≡ ok b → a ≡ b
ok_injective h = cc

module _ {F : Type 0} (serde : Serde F) where
  number-IsLeaf :
      (key : String) (r : String ⊎ Json) (v : Json)
      → parse_number serde key r ≡ ok v
      → is_object v ≡ false
  unfolding parse_number
  number-IsLeaf key (inl error) v h = absurd (ground arith)
  number-IsLeaf key (inr (number n)) v h = ground arith
  number-IsLeaf key (inr other) v h = absurd (ground arith)

  array-IsLeaf :
      (test : Bool) (r : Result Items) (v : Json)
      → (if test then ok (array nil) else and_then r (λ values. ok (array values))) ≡ ok v
      → is_object v ≡ false
  array-IsLeaf true r v h = ground arith
  array-IsLeaf false (ok values) v h = ground arith
  array-IsLeaf false (err e) v h = absurd (ground arith)

  -- A value that was parsed is no section.
  pub parsed-IsLeaf :
      (key raw : String) (old v : Json)
      → parse_item_value serde key old raw ≡ ok v
      → is_object v ≡ false
  unfolding parse_item_value parse_boolean
  parsed-IsLeaf key raw null v h = absurd (ground arith)
  parsed-IsLeaf key raw (boolean b) v h = ground arith
  parsed-IsLeaf key raw (number n) v h = number-IsLeaf key (serde.from_str raw) v h
  parsed-IsLeaf key raw (string s) v h = ground arith
  parsed-IsLeaf key raw (array vs) v h =
      array-IsLeaf (same_text raw "" || same_text raw "none")
        (item_values key (map trim (split b',' raw))) v h
  parsed-IsLeaf key raw (object fs) v h = absurd (ground arith)

  -- How an assignment succeeds: it replaces a leaf, or goes through a section.
  pub data Set (key raw : String) : List String → Json → Json → Type 0 where
    leaf :
        {c : String} {fs : Fields} {old v document document' : Json}
        → same_text c "" ≡ false
        → lookup c fs ≡ some old
        → is_object old ≡ false
        → parse_item_value serde key old raw ≡ ok v
        → document ≡ object fs
        → document' ≡ object (put c v fs)
        → Set key raw (c ∷ []) document document'
    below :
        {c c' : String} {rest : List String} {fs : Fields} {next next' document document' : Json}
        → same_text c "" ≡ false
        → lookup c fs ≡ some next
        → Set key raw (c' ∷ rest) next next'
        → document ≡ object fs
        → document' ≡ object (put c next' fs)
        → Set key raw (c ∷ c' ∷ rest) document document'

  checked : (key c : String) {u : Unit {0}} → check_component key c ≡ ok u → same_text c "" ≡ false
  checked key c h = ground arith

  leaf_checked :
      (key m : String) (v : Json) {u : Unit {0}} → check_leaf key m v ≡ ok u → is_object v ≡ false
  leaf_checked key m v h = ground arith

  assigned :
      (c : String) (v document document' : Json) (fs : Fields)
      → document ≡ object fs
      → ok (assign serde c v document) ≡ ok document'
      → document' ≡ object (put c v fs)
  assigned c v document document' fs from h =
      sym (subst (λ d. assign serde c v d ≡ document') from (ok_injective h))

  pub Set_lem :
      (key raw : String) (path : List String) (document document' : Json)
      → set_item_at serde key raw path document ≡ ok document'
      → Set key raw path document document'
  unfolding set_item_at
  Set_lem key raw [] document document' h = absurd (ground arith)
  Set_lem key raw (c ∷ []) document document' h =
      let at = step key "\" is not an editable configuration item" c document in
      let check = λ (next : Json).
        check_leaf key "\" is a configuration section, not an editable item" next in
      let write = λ (next : Json).
        parse_item_value serde key next raw >>= λ v. ok (assign serde c v document) in
      let (_, named, h1) =
        and_then-eq-ok (check_component key c) (λ _. at >>= λ next. check next >> write next) h in
      let (next, stepped, h2) = and_then-eq-ok at (λ next. check next >> write next) h1 in
      let (_, is_leaf, h3) = and_then-eq-ok (check next) (λ _. write next) h2 in
      let (v, read, h4) =
        and_then-eq-ok (parse_item_value serde key next raw) (λ v. ok (assign serde c v document))
          h3 in
      let (fs, from, found) =
        step-eq-ok key "\" is not an editable configuration item" c document next stepped in
      leaf (checked key c named) found
        (leaf_checked key "\" is a configuration section, not an editable item" next is_leaf) read
        from (assigned c v document document' fs from h4)
  Set_lem key raw (c ∷ c' ∷ rest) document document' h =
      let at = step key "\" is not an editable configuration item" c document in
      let deeper = λ (next : Json).
        set_item_at serde key raw (c' ∷ rest) next >>= λ v. ok (assign serde c v document) in
      let (_, named, h1) = and_then-eq-ok (check_component key c) (λ _. at >>= deeper) h in
      let (next, stepped, h2) = and_then-eq-ok at deeper h1 in
      let (next', inner, h3) =
        and_then-eq-ok (set_item_at serde key raw (c' ∷ rest) next)
          (λ v. ok (assign serde c v document)) h2 in
      let (fs, from, found) =
        step-eq-ok key "\" is not an editable configuration item" c document next stepped in
      below (checked key c named) found (Set_lem key raw (c' ∷ rest) next next' inner) from
        (assigned c next' document document' fs from h3)
