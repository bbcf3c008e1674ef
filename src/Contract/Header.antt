-- ===== src/Contract/Header.antt =====
-- The header of a document without findings.
use ss_common.Prelude.{
  ◌≡◌, refl, ap, ◌∙◌, Bool, true, false, Option, none, some, List, [], ◌++◌, Text, codes, ◌==◌,
  list_eq, nat_eq, option_eq, contains, arith, append-eq-nil, and_then, split,
}
use ss_common.Value.{
  Value, Members, null, bool, int, other, value_or, find, is_true, str_of, str, list, mapping, get,
  members_of,
}
use ss_common.Rules.{RuleFinding, has_status, header_errors}
use ss_common.Rules.Words.{is_contract_id, is_version, statuses}
use ss_common.Rules.Clean.{rule_if-nil, not-false}

not_id : is_contract_id [] ≡ false
unfolding is_contract_id ◌==◌ list_eq nat_eq split
not_id = refl

not_version : is_version [] ≡ false
unfolding is_version ◌==◌ list_eq nat_eq split
not_version = refl

-- A test that fails on an absent key and succeeds finds the key.
with_key :
    (test : Text → Bool) (shown : Value → Text) (o : Option Value)
    → test [] ≡ false
    → test (str_of shown (value_or (str []) o)) ≡ true
    → (v : Value) × (o ≡ some v) × (test (str_of shown v) ≡ true)
with_key test shown none empty h = cc
with_key test shown (some v) empty h = (v, refl, h)

has_status-true :
    (o : Option Value)
    → has_status (value_or null o) ≡ some true
    → (s : Text) × (o ≡ some (str s)) × (contains statuses s ≡ true)
has_status-true none h = cc
has_status-true (some (str s)) h = (s, refl, ground arith)
has_status-true (some null) h = cc
has_status-true (some (bool b)) h = cc
has_status-true (some (int n)) h = cc
has_status-true (some (list vs)) h = cc
has_status-true (some (mapping m)) h = cc
has_status-true (some (other s)) h = cc

-- The keys of a document whose header has no findings.
pub record CleanHeader (shown : Value → Text) (doc : Members) : Type 0 where
  pub id : (v : Value) × (find (codes "id") doc ≡ some v) × (is_contract_id (str_of shown v) ≡ true)
  pub version :
      (v : Value) × (find (codes "version") doc ≡ some v) × (is_version (str_of shown v) ≡ true)
  pub status :
      (s : Text) × (find (codes "status") doc ≡ some (str s)) × (contains statuses s ≡ true)
  pub purpose : is_true (get (codes "purpose") (members_of (get (codes "description") doc))) ≡ true

split_some :
    (o : Option Bool) (f : Bool → List RuleFinding)
    → and_then o (λ b. some (f b)) ≡ some []
    → (b : Bool) × (o ≡ some b) × (f b ≡ [])
split_some none f h = cc
split_some (some b) f h = (b, refl, ground arith)

pub header_errors-nil :
    (shown : Value → Text) (doc : Members)
    → header_errors shown doc ≡ some []
    → CleanHeader shown doc
unfolding header_errors
header_errors-nil shown doc h =
    let (known, is_known, e) = split_some _ _ h in
    let (_, r1) = append-eq-nil _ _ e in
    let (a, r2) = append-eq-nil _ _ r1 in
    let (b, r3) = append-eq-nil _ _ r2 in
    let (c, d) = append-eq-nil _ _ r3 in
    record {
      id =
          with_key is_contract_id shown (find (codes "id") doc) not_id
            (not-false _ (rule_if-nil _ _ a));
      version =
          with_key is_version shown (find (codes "version") doc) not_version
            (not-false _ (rule_if-nil _ _ b));
      status =
          has_status-true (find (codes "status") doc)
            (is_known ∙ ap some (not-false _ (rule_if-nil _ _ c)));
      purpose = not-false _ (rule_if-nil _ _ d);
    }

pub join_some :
    (o : Option (List RuleFinding)) (more : List RuleFinding)
    → and_then o (λ errors. some (errors ++ more)) ≡ some []
    → (o ≡ some []) × (more ≡ [])
join_some none more h = cc
join_some (some errors) more h =
    let (a, b) = append-eq-nil errors more (some_is h) in (ap some a, b)
  where
    some_is :
        ◌≡◌ {A = Option (List RuleFinding)} (some (errors ++ more)) (some []) → errors ++ more ≡ []
    some_is e = cc

-- A key is found in a mapping.
pub inside :
    (k : Text) (o : Option Value) (v : Value)
    → find k (members_of (value_or null o)) ≡ some v
    → (d : Value) × ((o ≡ some d) × (find k (members_of d) ≡ some v))
unfolding find
inside k none v h = cc
inside k (some d) v h = (d, (refl, h))
