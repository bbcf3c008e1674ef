-- ===== src/Contract/Bodies.antt =====
-- Bodies that list properties, and names of records.
use ss_common.Prelude.{
  ◌≡◌, inl, inr, refl, ap, Bool, true, false, ◌||◌, Option, none, some, List, [], Text, ◌==◌,
  list_eq, nat_eq, option_eq, ==_iff, if◌then◌else◌, Bool-cases,
}
use ss_common.Result.{Result, ok}
use ss_common.Value.{Value, Items, null, bool, int, other, value_or, is_true, str, list, mapping}
use ss_common.Types.{json_kind, record_kind}
use ss_common.Rules.{RuleFinding, is_record_text}
use ss_common.Rules.Words.{is_record_name}
use ss_common.Rules.Properties.{listed_errors}
use ss_common.Contract.Loading.{LoadError, described}

pub listed-nil :
    (shown : Value → Text) (errors : Items → List RuleFinding) (missing : RuleFinding) (v : Value)
    → listed_errors shown errors missing v ≡ []
    → (first : Value) × (rest : Items) × (v ≡ list (Items.cons first rest))
      × (errors (Items.cons first rest) ≡ [])
listed-nil shown errors missing (list (Items.cons v vs)) h = (v, vs, refl, h)
listed-nil shown errors missing (list Items.nil) h = cc
listed-nil shown errors missing null h = cc
listed-nil shown errors missing (bool b) h = cc
listed-nil shown errors missing (int n) h = cc
listed-nil shown errors missing (str s) h = cc
listed-nil shown errors missing (mapping m) h = cc
listed-nil shown errors missing (other s) h = cc

pub has_list : (o : Option Value) (vs : Items) → value_or null o ≡ list vs → o ≡ some (list vs)
has_list none vs h = cc
has_list (some v) vs h = ap some h

pub described-ok :
    {F : Type 0} (v d : Value) (o : Result (LoadError F) Value)
    → o ≡ ok d
    → (r : Value) × (described v o ≡ ok r)
described-ok v d o h = elim (Bool-cases (is_true v)) [
  | inl e ↦ (v, rw e refl)
  | inr e ↦ (d, rw e h)
]

pub is_record_text-true :
    (v : Value) → is_record_text v ≡ true → (n : Text) × (v ≡ str n) × (is_record_name n ≡ true)
is_record_text-true (str s) h = (s, refl, h)
is_record_text-true null h = cc
is_record_text-true (bool b) h = cc
is_record_text-true (int n) h = cc
is_record_text-true (list vs) h = cc
is_record_text-true (mapping m) h = cc
is_record_text-true (other s) h = cc

pub json-or_record : (kind : Text) → (kind == record_kind) ≡ true → (kind == json_kind) ≡ false
unfolding ◌==◌ list_eq nat_eq
json-or_record kind h = rw ((==_iff kind record_kind).0 h) refl

pub second :
    (j r : Bool) (x y : List RuleFinding)
    → r ≡ true
    → j ≡ false
    → (if j || r then if j then x else y else []) ≡ []
    → y ≡ []
second false true x y a b h = h
second true r x y a b h = cc
second false false x y a b h = cc

pub or_left : (a b : Bool) → a ≡ true → (a || b) ≡ true
or_left true b h = refl
or_left false b h = cc

pub or_right : (a b : Bool) → b ≡ true → (a || b) ≡ true
or_right true b h = refl
or_right false b h = h

pub some-same : (a b : Text) → (a == b) ≡ true → (some a == some b) ≡ true
some-same a b h = (==_iff (some a) (some b)).1 (ap some ((==_iff a b).0 h))
