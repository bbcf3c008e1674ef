-- ===== src/Value.antt =====
-- Parsed YAML and JSON documents, as the sources inspect them: `isinstance` tests, `get` on a
-- mapping, iteration. Floats and dates, which no modelled code looks into, are `other`, with the text
-- that `str` gives for them.
use ss_common.Prelude.{
  true, false, not, ◌||◌, codes, is_empty, ℕ, Bool, Option, none, some, List, [], ◌∷◌, Text, ◌==◌,
  list_eq, nat_eq,
}
use ss_common.Prelude.{if◌then◌else◌}

-- `negsuc n` is -(n + 1).
pub data ℤ : Type 0 where
  pos : ℕ → ℤ
  negsuc : ℕ → ℤ

mutual
  pub data Value : Type 0 where
    null : Value
    bool : Bool → Value
    int : ℤ → Value
    str : Text → Value
    list : Items → Value
    mapping : Members → Value
    other : Text → Value

  pub data Items : Type 0 where
    nil : Items
    cons : Value → Items → Items

  pub data Members : Type 0 where
    end : Members
    member : Text → Value → Members → Members

-- The value of a key, where the mapping has it.
unfoldable pub find : Text → Members → Option Value
find key end = none
find key (member k v rest) = if key == k then some v else find key rest

abbrev pub value_or : Value → Option Value → Value
value_or default none = default
value_or default (some v) = v

-- `doc.get(key)`: an absent key reads as None.
abbrev pub get : Text → Members → Value
get key m = value_or null (find key m)

abbrev pub items : Items → List Value
items nil = []
items (cons v vs) = v ∷ items vs

abbrev pub as_str : Value → Option Text
as_str (str s) = some s
as_str _ = none

abbrev pub as_bool : Value → Option Bool
as_bool (bool b) = some b
as_bool _ = none

abbrev pub as_mapping : Value → Option Members
as_mapping (mapping m) = some m
as_mapping _ = none

abbrev pub as_list : Value → Option (List Value)
as_list (list vs) = some (items vs)
as_list _ = none

abbrev pub as_int : Value → Option ℤ
as_int (int n) = some n
as_int _ = none

-- `v.get(key, default)`
abbrev pub get_or : Text → Value → Members → Value
get_or key default m = value_or default (find key m)

-- `bool(v)`
abbrev pub is_true : Value → Bool
is_true null = false
is_true (bool b) = b
is_true (int (pos n)) = not (n == 0)
is_true (int (negsuc n)) = true
is_true (str s) = not (is_empty s)
is_true (list nil) = false
is_true (list (cons v vs)) = true
is_true (mapping end) = false
is_true (mapping (member k v m)) = true
is_true (other s) = not (s == codes "0.0" || s == codes "-0.0")

-- `str(v)`; what it gives for values of other types than texts is Python's.
abbrev pub str_of : (Value → Text) → Value → Text
str_of shown (str s) = s
str_of shown (other s) = s
str_of shown v = shown v

abbrev pub members_of : Value → Members
members_of (mapping m) = m
members_of _ = end

abbrev pub is_mapping : Value → Bool
is_mapping (mapping m) = true
is_mapping _ = false

unfoldable pub keys_of : Members → List Text
keys_of end = []
keys_of (member k v m) = k ∷ keys_of m

-- `v.get("property") == name`
abbrev pub is_text : Text → Value → Bool
is_text name (str s) = s == name
is_text name _ = false
