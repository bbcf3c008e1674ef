-- ===== src/Evolution/History/Same.antt =====
-- Snapshots that compare equal have no change between them.
use ss_common.Prelude.{
  bool_eq, ◌≡◌, refl, ◌∙◌, true, some, List, [], ◌∷◌, ◌++◌, Text, codes, list_eq, nat_eq, option_eq,
  ==_iff, contains, contains-append, difference, is_empty, is_empty-sorted_set, sorted_set,
  contains-sorted_set, contains-keys, Dict, keys, lookup, append-eq-nil, arith, Option-cases, inl,
  inr,
}
use ss_common.Evolution.Snapshot.{
  FieldKeys, FieldSnapshot, FieldSnapshots, plain, record_of, end, field, find, names, Snapshot,
  Label, in_field, message, Note, Attribute, attr, breaking_attrs, scalar_eq, int_eq,
}
use ss_common.Evolution.Classify.{
  binding_note, each_key, classify_binding, attribute_notes, own_notes, option_notes,
  insert_by_name, by_name, all_notes, fields_notes, classify_field, classify_common,
  classify_fields, change_notes, classify_change, removed_note, added_note, no_change, report_notes,
}
use ss_common.Evolution.History.{
  same_text_dict, same_binding, same_keys, same_names, same_field, same_each, comparable_equal,
}

each_key-nil :
    (f : Text → List Note) (ks : List Text)
    → ((k : Text) → contains ks k ≡ true → f k ≡ [])
    → each_key f ks ≡ []
unfolding each_key
each_key-nil f [] h = refl
each_key-nil f (k ∷ ks) h =
    ground (arith, h k, ==_iff k k, each_key-nil f ks (λ j m. h j (ground arith)))

same_text_dict-lookup :
    (d e : Dict Text Text) (ks : List Text) (k : Text)
    → same_text_dict d e ks ≡ true
    → contains ks k ≡ true
    → lookup k d ≡ lookup k e
same_text_dict-lookup d e [] k h m = cc
same_text_dict-lookup d e (j ∷ ks) k h m =
    ground (arith, ==_iff (lookup j d) (lookup j e), ==_iff k j, same_text_dict-lookup d e ks k)

classify_binding-same :
    (label : Label) (old new : Dict Text Text)
    → same_binding old new ≡ true
    → classify_binding label old new ≡ []
unfolding classify_binding same_binding binding_note
classify_binding-same label old new h =
    each_key-nil (binding_note label old new) (sorted_set (keys old ++ keys new)) λ k m. ground (
      arith,
      contains-sorted_set k (keys old ++ keys new),
      contains-append k (keys old) (keys new),
      contains-keys k old,
      contains-keys k new,
      same_text_dict-lookup old new (keys old ++ keys new) k,
      ==_iff (lookup k old) (lookup k new),
    )

attribute_notes-same :
    (name : Text) (a b : FieldKeys) (xs : List Attribute)
    → ((x : Attribute) → attr x a ≡ attr x b)
    → attribute_notes name a b xs ≡ []
unfolding attribute_notes
attribute_notes-same name a b [] h = refl
attribute_notes-same name a b (x ∷ xs) h =
    ground (arith, ==_iff (attr x a) (attr x b), h x, attribute_notes-same name a b xs h)

same_keys-attr : (a b : FieldKeys) → same_keys a b ≡ true → (x : Attribute) → attr x a ≡ attr x b
unfolding same_keys
same_keys-attr a b h Attribute.logical_type = ground (arith, ==_iff a.logical_type b.logical_type)
same_keys-attr a b h Attribute.physical_type =
    ground (arith, ==_iff a.physical_type b.physical_type)
same_keys-attr a b h Attribute.items = ground (arith, ==_iff a.items b.items)
same_keys-attr a b h Attribute.required = ground (arith, ==_iff a.required b.required)
same_keys-attr a b h Attribute.proto_field_number =
    ground (arith, ==_iff a.proto_field_number b.proto_field_number)
same_keys-attr a b h Attribute.record_name = ground (arith, ==_iff a.record_name b.record_name)

own_notes-same : (name : Text) (a b : FieldKeys) → same_keys a b ≡ true → own_notes name a b ≡ []
unfolding own_notes
own_notes-same name a b h = ground (
  arith,
  attribute_notes-same name a b breaking_attrs (same_keys-attr a b h),
  classify_binding-same (in_field name) a.binding b.binding (unfold same_keys in ground arith),
  same_options,
)
  where
    same_options : option_notes name a b ≡ []
    same_options = unfold same_keys in ground arith

insert_by_name-nil :
    (n : Text) (d : Dict Text (List Note)) → all_notes (insert_by_name n [] d) ≡ all_notes d
unfolding all_notes insert_by_name
insert_by_name-nil n [] = refl
insert_by_name-nil n ((m, ms) ∷ d) = ground (arith, insert_by_name-nil n d)

by_name-nil : (d : Dict Text (List Note)) → all_notes d ≡ [] → all_notes (by_name d) ≡ []
unfolding all_notes by_name
by_name-nil [] h = refl
by_name-nil ((n, ns) ∷ d) h =
    let (none_here, rest) = append-eq-nil ns (all_notes d) h in
    rw none_here (insert_by_name-nil n (by_name d) ∙ by_name-nil d rest)

each_key-empty : (f : Text → List Note) (ks : List Text) → is_empty ks ≡ true → each_key f ks ≡ []
unfolding each_key
each_key-empty f [] h = refl
each_key-empty f (k ∷ ks) h = cc

nil-append₃ : (ls ms ns : List Note) → ls ≡ [] → ms ≡ [] → ns ≡ [] → ls ++ ms ++ ns ≡ []
nil-append₃ ls ms ns h k l = rw (h, k, l)

fields_notes-same :
    (prefix : Text) (fs gs : FieldSnapshots) (d : Dict Text (List Note))
    → same_names fs gs ≡ true
    → all_notes d ≡ []
    → fields_notes prefix fs gs d ≡ []
unfolding fields_notes
fields_notes-same prefix fs gs d h k =
    let gone = difference (names fs) (names gs) in
    let added = difference (names gs) (names fs) in
    nil-append₃ (each_key (removed_note prefix) (sorted_set gone)) (all_notes (by_name d))
      (each_key (added_note prefix gs) (sorted_set added))
      (each_key-empty (removed_note prefix) (sorted_set gone)
        (ground (arith, is_empty-sorted_set gone)))
      (by_name-nil d k)
      (each_key-empty (added_note prefix gs) (sorted_set added)
        (ground (arith, is_empty-sorted_set added)))

common_notes :
    (prefix n : Text) (f : FieldSnapshot) (fs gs : FieldSnapshots) {g : FieldSnapshot}
    → find n gs ≡ some g
    → classify_field (prefix ++ n) f g ≡ []
    → all_notes (classify_common prefix fs gs) ≡ []
    → all_notes (classify_common prefix (field n f fs) gs) ≡ []
unfolding classify_common all_notes
common_notes prefix n f fs gs e h k = ground arith

same_each-cons :
    (n : Text) (f : FieldSnapshot) (fs gs : FieldSnapshots)
    → same_each (field n f fs) gs ≡ true
    → (g : FieldSnapshot) × (find n gs ≡ some g)
      × (same_field f g ≡ true)
      × (same_each fs gs ≡ true)
unfolding same_each
same_each-cons n f fs gs h = elim (Option-cases (find n gs)) [
  | inl e ↦ absurd_of (ground arith)
  | inr (g, e) ↦ (g, e, ground arith, ground arith)
]
  where
    absurd_of :
        ⊥
        → (g : FieldSnapshot) × (find n gs ≡ some g)
          × (same_field f g ≡ true)
          × (same_each fs gs ≡ true)
    absurd_of b = absurd b

common-end : (prefix : Text) (gs : FieldSnapshots) → all_notes (classify_common prefix end gs) ≡ []
unfolding all_notes classify_common
common-end prefix gs = refl

mutual
  unfolding classify_field same_field

  same_field-nil :
      (name : Text) (f g : FieldSnapshot) → same_field f g ≡ true → classify_field name f g ≡ []
  same_field-nil name (plain a) (plain b) h = own_notes-same name a b h
  same_field-nil name (plain a) (record_of b gs) h = cc
  same_field-nil name (record_of a fs) (plain b) h = cc
  same_field-nil name (record_of a fs) (record_of b gs) h =
      let prefix = name ++ codes "." in
      let nested =
        fields_notes-same prefix fs gs (classify_common prefix fs gs) (ground arith)
          (same_each-nil prefix fs gs (ground arith)) in
      rw (own_notes-same name a b (ground arith), nested)

  same_each-nil :
      (prefix : Text) (fs gs : FieldSnapshots)
      → same_each fs gs ≡ true
      → all_notes (classify_common prefix fs gs) ≡ []
  same_each-nil prefix end gs h = common-end prefix gs
  same_each-nil prefix (field n f fs) gs h =
      let (g, present, one, rest) = same_each-cons n f fs gs h in
      common_notes prefix n f fs gs present (same_field-nil (prefix ++ n) f g one)
        (same_each-nil prefix fs gs rest)

-- Between snapshots that compare equal, whatever the order of their keys, no change is reported.
pub classify_change-same :
    (a b : Snapshot) → comparable_equal a b ≡ true → classify_change a b ≡ no_change
unfolding classify_change change_notes classify_fields comparable_equal report_notes
classify_change-same a b h =
    let common = classify_common [] a.fields b.fields in
    let fields_same =
      fields_notes-same [] a.fields b.fields common (ground arith)
        (same_each-nil [] a.fields b.fields (ground arith)) in
    rw (fields_same, classify_binding-same message a.binding b.binding (ground arith))

pub version-same : (a b : Snapshot) → comparable_equal a b ≡ true → a.version ≡ b.version
unfolding comparable_equal
version-same a b h = ground (arith, ==_iff a.version b.version)
