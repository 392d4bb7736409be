-- ===== src/Config/Lens.antt =====
-- What is set at a key of a configuration document is read there, and every other key reads as it
-- did: `set_item_value` and `item` of crates/wireview-core/src/config.rs.
use text.Mathlib.TextEquality.{eq_iff}
use wireview_pro_ii.Base.{
  String, ◌≡◌, ◌≢◌, refl, sym, ◌∙◌, subst, false, some, List, [], ◌∷◌, inl, inr, Bool-cases, arith,
}
use wireview_pro_ii.Base.Sort.{same_text}
use wireview_pro_ii.Base.Text.{split}
use wireview_pro_ii.Domain.Error.{ok}
use wireview_pro_ii.Config.Items.{
  Json, Fields, object, Serde, lookup, put, is_object, step, item_at, parse_item_value, set_item_at,
  set_item_value,
}
use wireview_pro_ii.Config.Assign.{
  lookup-put_same, lookup-put_other, step-some, step_same, passed, pair_eq, parsed-IsLeaf, Set,
  Set_lem, leaf, below,
}

module _ {F : Type 0} (serde : Serde F) where
  item_at_leaf : (key : String) (v : Json) → is_object v ≡ false → item_at key [] v ≡ ok v
  unfolding item_at
  item_at_leaf key v h = rw h refl

  -- A step through a component that is there.
  item_at_field :
      (key c : String) (rest : List String) (fs : Fields) (next : Json)
      → same_text c "" ≡ false
      → lookup c fs ≡ some next
      → item_at key (c ∷ rest) (object fs) ≡ item_at key rest next
  unfolding item_at
  item_at_field key c rest fs next named found =
      rw (named, step-some key "\" is not a configuration item" c fs next found) refl

  -- The old leaf and the new one, at the place that the key leads to.
  abbrev pub IsReplaced : String → String → List String → Json → Json → Type 0
  IsReplaced key raw path document document' =
      (old new : Json) × (item_at key path document ≡ ok old)
      × (parse_item_value serde key old raw ≡ ok new)
      × (item_at key path document' ≡ ok new)

  replaced :
      {key raw : String} {path : List String} {document document' : Json}
      → Set serde key raw path document document'
      → IsReplaced key raw path document document'
  replaced {key} {raw} (leaf {c} {fs} {old} {v} named found is_leaf read from to) = (
    old,
    v,
    rw from (item_at_field key c [] fs old named found ∙ item_at_leaf key old is_leaf),
    read,
    rw to (
        item_at_field key c [] (put c v fs) v named (lookup-put_same c v old fs found)
        ∙ item_at_leaf key v (parsed-IsLeaf serde key raw old v read)),
  )
  replaced {key} {raw} (below {c} {c'} {rest} {fs} {next} {next'} named found inner from to) =
      let (old, new, was, read, reads) = replaced inner in
      (
        old,
        new,
        rw from (item_at_field key c (c' ∷ rest) fs next named found ∙ was),
        read,
        rw to (
            item_at_field key c (c' ∷ rest) (put c next' fs) next' named
              (lookup-put_same c next' next fs found)
            ∙ reads),
      )

  -- Nothing is below a leaf.
  below_leaf :
      (key d : String) (rest : List String) (v w : Json)
      → is_object v ≡ false
      → is_object w ≡ false
      → item_at key (d ∷ rest) v ≡ item_at key (d ∷ rest) w
  unfolding item_at step
  below_leaf key d rest (object fs) w h k = absurd (ground arith)
  below_leaf key d rest v (object fs) h k = absurd (ground arith)
  below_leaf key d rest v w h k = refl

  -- A component that is not assigned.
  beside :
      (key c d : String) (rest : List String) (v : Json) (fs : Fields)
      → same_text c d ≡ false
      → item_at key (d ∷ rest) (object (put c v fs)) ≡ item_at key (d ∷ rest) (object fs)
  unfolding item_at
  beside key c d rest v fs h =
      rw
        (step_same key "\" is not a configuration item" d (put c v fs) fs
          (lookup-put_other c d v fs h))
        refl

  -- A section stays a section.
  no_item :
      (key : String) (fs gs : Fields) → item_at key [] (object fs) ≡ item_at key [] (object gs)
  unfolding item_at
  no_item key fs gs = refl

  beyond_leaf :
      (key c : String) (rest : List String) (fs : Fields) (old v : Json)
      → same_text c "" ≡ false
      → lookup c fs ≡ some old
      → is_object old ≡ false
      → is_object v ≡ false
      → c ∷ rest ≢ c ∷ []
      → item_at key (c ∷ rest) (object (put c v fs)) ≡ item_at key (c ∷ rest) (object fs)
  beyond_leaf key c [] fs old v named found h k differ = absurd (differ refl)
  beyond_leaf key c (d ∷ rest) fs old v named found h k differ =
      item_at_field key c (d ∷ rest) (put c v fs) v named (lookup-put_same c v old fs found)
      ∙ below_leaf key d rest v old k h
      ∙ sym (item_at_field key c (d ∷ rest) fs old named found)

  kept :
      {key raw : String} {path : List String} {document document' : Json}
      → Set serde key raw path document document'
      → (key' : String) (other : List String) → other ≢ path
      → item_at key' other document' ≡ item_at key' other document
  kept (leaf {c} {fs} {old} {v} named found is_leaf read from to) key' [] differ =
      rw (from, to) (no_item key' (put c v fs) fs)
  kept {key} {raw} (leaf {c} {fs} {old} {v} named found is_leaf read from to) key' (d ∷ rest)
        differ =
      rw (from, to)
        elim (Bool-cases (same_text c d)) [
          | inr apart ↦ beside key' c d rest v fs apart
          | inl same ↦
              let e : c ≡ d = (eq_iff c d).0 same in
              subst
                (λ x.
                  item_at key' (x ∷ rest) (object (put c v fs))
                  ≡ item_at key' (x ∷ rest) (object fs))
                e
                (beyond_leaf key' c rest fs old v named found is_leaf
                  (parsed-IsLeaf serde key raw old v read)
                  (subst (λ x. x ∷ rest ≢ c ∷ []) (sym e) differ))
        ]
  kept (below {c} {c'} {rest} {fs} {next} {next'} named found inner from to) key' [] differ =
      rw (from, to) (no_item key' (put c next' fs) fs)
  kept (below {c} {c'} {rest} {fs} {next} {next'} named found inner from to) key' (d ∷ other)
        differ =
      rw (from, to)
        elim (Bool-cases (same_text c d)) [
          | inr apart ↦ beside key' c d other next' fs apart
          | inl same ↦
              let e : c ≡ d = (eq_iff c d).0 same in
              let inside = kept inner key' other (λ h. differ (pair_eq (sym e) h)) in
              subst
                (λ x.
                  item_at key' (x ∷ other) (object (put c next' fs))
                  ≡ item_at key' (x ∷ other) (object fs))
                e
                (item_at_field key' c other (put c next' fs) next' named
                    (lookup-put_same c next' next fs found)
                  ∙ inside
                  ∙ sym (item_at_field key' c other fs next named found))
        ]

  set_item_value-path :
      (key raw : String) (document document' : Json)
      → set_item_value serde key raw document ≡ ok document'
      → set_item_at serde key raw (split b'.' key) document ≡ ok document'
  unfolding set_item_value
  set_item_value-path key raw document document' h =
      passed (same_text key "") (set_item_at serde key raw (split b'.' key) document)
        "configuration key cannot be empty" h

  -- If the value of a key can be set in a document, then the key led to an item before, its new
  -- value is the one that was parsed for it and is read at the key, and every other key reads as
  -- it did, be it an item, a section, below an item, or unknown.
  pub set_item_value_lem :
      (key raw : String) (document document' : Json)
      → set_item_value serde key raw document ≡ ok document'
      → IsReplaced key raw (split b'.' key) document document'
        × ((key' : String) (other : List String)
            → other ≢ split b'.' key
            → item_at key' other document' ≡ item_at key' other document)
  set_item_value_lem key raw document document' h =
      let st =
        Set_lem serde key raw (split b'.' key) document document'
          (set_item_value-path key raw document document' h) in
      (replaced st, kept st)
