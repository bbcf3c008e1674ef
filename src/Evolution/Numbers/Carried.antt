-- ===== src/Evolution/Numbers/Carried.antt =====
-- Which numbers the fields of a message and of its records carry, and that the traversal finds those.
use mathlib.Core.List.{Memᴰ}
use ss_common.Prelude.{
  ℕ, ◌≡◌, refl, sym, ap, subst, ◌∙◌, Option, none, some, List, [], ◌∷◌, ◌++◌, Text, inl, inr, ◌⊎◌,
}
use ss_common.Value.{ℤ}
use ss_common.Evolution.Snapshot.{
  FieldKeys, FieldSnapshot, FieldSnapshots, plain, record_of, end, field, keys_of,
}
use ss_common.Evolution.Numbers.{
  Slot, Numbered, own_number, record_scope, numbered_field, numbered_fields,
}

-- The fields list one under a name.
pub data Lists (name : Text) (f : FieldSnapshot) : FieldSnapshots → Type 0 where
  first : (fs : FieldSnapshots) → Lists name f (field name f fs)
  later :
      (other : Text) (g : FieldSnapshot) (fs : FieldSnapshots)
      → Lists name f fs
      → Lists name f (field other g fs)

-- The scope of the fields of a record: its record name, or else the name of the field.
pub data ScopeOf (name : Text) (recorded : Option Text) (scope : Text) : Type 0 where
  declared :
      (c : ℕ) (s : Text) → recorded ≡ some (c ∷ s) → scope ≡ c ∷ s → ScopeOf name recorded scope
  unnamed : recorded ≡ none → scope ≡ name → ScopeOf name recorded scope
  blank : recorded ≡ some [] → scope ≡ name → ScopeOf name recorded scope

-- In fields of a scope, a field of a name has a number: one of them, or one of a record among them.
pub data Carries (slot : Slot) (name : Text) : Text → FieldSnapshots → Type 0 where
  own :
      {scope : Text} {fs : FieldSnapshots} (f : FieldSnapshot)
      → Lists name f fs
      → (keys_of f).proto_field_number ≡ some slot.number
      → slot.scope ≡ scope
      → Carries slot name scope fs
  inside :
      {scope : Text} {fs : FieldSnapshots} (record_field inner : Text) (keys : FieldKeys)
      (gs : FieldSnapshots)
      → Lists record_field (record_of keys gs) fs
      → ScopeOf record_field keys.record_name inner
      → Carries slot name inner gs
      → Carries slot name scope fs

pub mem-left : {A : Type 0} {x : A} (xs ys : List A) → Memᴰ x xs → Memᴰ x (xs ++ ys)
mem-left [] ys m = elim m [ ]
mem-left (x ∷ xs) ys (Memᴰ.head e) = Memᴰ.head e
mem-left (x ∷ xs) ys (Memᴰ.tail m) = Memᴰ.tail (mem-left xs ys m)

pub mem-right : {A : Type 0} {x : A} (xs ys : List A) → Memᴰ x ys → Memᴰ x (xs ++ ys)
mem-right [] ys m = m
mem-right (x ∷ xs) ys m = Memᴰ.tail (mem-right xs ys m)

pub mem-split : {A : Type 0} {x : A} (xs ys : List A) → Memᴰ x (xs ++ ys) → Memᴰ x xs ⊎ Memᴰ x ys
mem-split [] ys m = inr m
mem-split (x ∷ xs) ys (Memᴰ.head e) = inl (Memᴰ.head e)
mem-split (x ∷ xs) ys (Memᴰ.tail m) = elim (mem-split xs ys m) [
  | inl l ↦ inl (Memᴰ.tail l)
  | inr r ↦ inr r
]

ScopeOf-record_scope :
    (name : Text) (recorded : Option Text) → ScopeOf name recorded (record_scope name recorded)
ScopeOf-record_scope name none = unnamed refl refl
ScopeOf-record_scope name (some []) = blank refl refl
ScopeOf-record_scope name (some (c ∷ s)) = declared c s refl refl

ScopeOf_unique :
    (name : Text) (recorded : Option Text) (scope : Text)
    → ScopeOf name recorded scope
    → scope ≡ record_scope name recorded
ScopeOf_unique name recorded scope (declared c s e p) = p ∙ ap (record_scope name) (sym e)
ScopeOf_unique name recorded scope (unnamed e p) = p ∙ ap (record_scope name) (sym e)
ScopeOf_unique name recorded scope (blank e p) = p ∙ ap (record_scope name) (sym e)

abbrev pub numbered : Slot → Text → Numbered
numbered slot name = record { slot = slot; name = name }

own_number-some :
    (slot : Slot) (scope name : Text) (o : Option ℤ)
    → o ≡ some slot.number
    → slot.scope ≡ scope
    → Memᴰ (numbered slot name) (own_number scope name o)
own_number-some slot scope name none e p = cc
own_number-some slot scope name (some n) e p =
    let q : slot.number ≡ n = cc in
    Memᴰ.head (λ i. record { slot = record { scope = p i; number = q i }; name = name })

mem-own_number :
    (slot : Slot) (scope name named : Text) (o : Option ℤ)
    → Memᴰ (numbered slot named) (own_number scope name o)
    → (named ≡ name) × (o ≡ some slot.number) × (slot.scope ≡ scope)
mem-own_number slot scope name named none m = elim m [ ]
mem-own_number slot scope name named (some n) (Memᴰ.head e) =
    (ap (λ x. x.name) e, ap (λ x. some x.slot.number) (sym e), ap (λ x. x.slot.scope) e)
mem-own_number slot scope name named (some n) (Memᴰ.tail m) = elim m [ ]

numbered-listed :
    {slot : Slot} {n name : Text} {f : FieldSnapshot} (scope : Text) (fs : FieldSnapshots)
    → Lists name f fs
    → Memᴰ (numbered slot n) (numbered_field scope name f)
    → Memᴰ (numbered slot n) (numbered_fields scope fs)
unfolding numbered_fields
numbered-listed {slot} {n} {name} {f} scope _ (first fs) m =
    mem-left (numbered_field scope name f) (numbered_fields scope fs) m
numbered-listed scope _ (later other g fs l) m =
    mem-right (numbered_field scope other g) (numbered_fields scope fs)
      (numbered-listed scope fs l m)

numbered-own :
    {slot : Slot} {named : Text} (scope name : Text) (f : FieldSnapshot)
    → Memᴰ (numbered slot named) (own_number scope name (keys_of f).proto_field_number)
    → Memᴰ (numbered slot named) (numbered_field scope name f)
unfolding numbered_field
numbered-own scope name (plain keys) m = m
numbered-own scope name (record_of keys fs) m =
    mem-left (own_number scope name keys.proto_field_number) _ m

numbered-inside :
    {slot : Slot} {named : Text} (scope name : Text) (keys : FieldKeys) (gs : FieldSnapshots)
    → Memᴰ (numbered slot named) (numbered_fields (record_scope name keys.record_name) gs)
    → Memᴰ (numbered slot named) (numbered_field scope name (record_of keys gs))
unfolding numbered_field
numbered-inside scope name keys gs m = mem-right (own_number scope name keys.proto_field_number) _ m

-- What fields carry, the traversal finds.
pub Carries-found :
    {slot : Slot} {name : Text} (scope : Text) (fs : FieldSnapshots)
    → Carries slot name scope fs
    → Memᴰ (numbered slot name) (numbered_fields scope fs)
Carries-found {slot} {name} scope fs (own f l e p) =
    numbered-listed scope fs l (
      numbered-own scope name f
        (own_number-some slot scope name (keys_of f).proto_field_number e p))
Carries-found {slot} {name} scope fs (inside r inner keys gs l s c) = numbered-listed scope fs l (
    numbered-inside scope r keys gs (
      subst (λ t. Memᴰ (numbered slot name) (numbered_fields t gs))
        (ScopeOf_unique r keys.record_name inner s) (Carries-found inner gs c)))

Carries-later :
    {slot : Slot} {name scope : Text} (other : Text) (g : FieldSnapshot) (fs : FieldSnapshots)
    → Carries slot name scope fs
    → Carries slot name scope (field other g fs)
Carries-later other g fs (own f l e p) = own f (later other g fs l) e p
Carries-later other g fs (inside r inner keys gs l s c) =
    inside r inner keys gs (later other g fs l) s c

Carries-own :
    {slot : Slot} {named : Text} (scope name : Text) (f : FieldSnapshot) (fs : FieldSnapshots)
    → Memᴰ (numbered slot named) (own_number scope name (keys_of f).proto_field_number)
    → Carries slot named scope (field name f fs)
Carries-own {slot} {named} scope name f fs m =
    let (same, number, at) =
      mem-own_number slot scope name named (keys_of f).proto_field_number m in
    own f (subst (λ n. Lists n f (field name f fs)) (sym same) (first fs)) number at

-- What the traversal finds, the fields carry.
mutual
  unfolding numbered_field

  pub found-Carries :
      {slot : Slot} {named : Text} (scope : Text) (fs : FieldSnapshots)
      → Memᴰ (numbered slot named) (numbered_fields scope fs)
      → Carries slot named scope fs
  found-Carries scope end m = elim m [ ]
  found-Carries scope (field name f fs) m =
      elim (mem-split (numbered_field scope name f) (numbered_fields scope fs) m) [
        | inl h ↦ found_field-Carries scope name f fs h
        | inr h ↦ Carries-later name f fs (found-Carries scope fs h)
      ]

  found_field-Carries :
      {slot : Slot} {named : Text} (scope name : Text) (f : FieldSnapshot) (fs : FieldSnapshots)
      → Memᴰ (numbered slot named) (numbered_field scope name f)
      → Carries slot named scope (field name f fs)
  found_field-Carries scope name (plain keys) fs m = Carries-own scope name (plain keys) fs m
  found_field-Carries scope name (record_of keys gs) fs m =
      elim (mem-split (own_number scope name keys.proto_field_number)
        (numbered_fields (record_scope name keys.record_name) gs) m) [
          | inl h ↦ Carries-own scope name (record_of keys gs) fs h
          | inr h ↦
              inside name (record_scope name keys.record_name) keys gs (first fs)
                (ScopeOf-record_scope name keys.record_name)
                (found-Carries (record_scope name keys.record_name) gs h)
        ]
