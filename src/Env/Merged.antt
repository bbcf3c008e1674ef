-- ===== src/Env/Merged.antt =====
-- What `load_env_files` leaves of the environment.
use ss_common.Prelude.{
  ◌≡◌, refl, sym, ap, ◌∙◌, Bool, true, false, Option, none, some, List, [], ◌∷◌, Text, ◌==◌, ==_iff,
  nat_eq, list_eq, if◌then◌else◌, is_some, Dict, lookup, lookup-insert, lookup-nil, Bool-cases, inl,
  inr,
}
use ss_common.Result.{ok, bind-eq-ok, ok-injective}
use ss_common.Env.{EnvValues}
use ss_common.Env.Layers.{filled, Applied, apply_one, apply, merge, load_env_files}

-- A variable that was there stays; another has the value of the files, empty for a bare key.
abbrev pub kept_or_set : Option Text → Option (Option Text) → Option Text
kept_or_set (some v) m = some v
kept_or_set none (some w) = some (filled w)
kept_or_set none none = none

-- What is reported: nothing that was there.
abbrev pub only_set : Option Text → Option (Option Text) → Option Text → Option Text
only_set (some v) m before = before
only_set none (some w) before = some (filled w)
only_set none none before = before

kept :
    (o : Option Text) (m n : Option (Option Text))
    → is_some o ≡ true
    → kept_or_set o m ≡ kept_or_set o n
kept none m n h = cc
kept (some v) m n h = refl

newly :
    (o : Option Text) (w : Option Text)
    → is_some o ≡ false
    → some (filled w) ≡ kept_or_set o (some w)
newly none w h = refl
newly (some v) w h = cc

set_kept :
    (o : Option Text) (m n : Option (Option Text)) (before : Option Text)
    → is_some o ≡ true
    → only_set o m before ≡ only_set o n before
set_kept none m n before h = cc
set_kept (some v) m n before h = refl

set_newly :
    (o : Option Text) (w : Option Text) (before : Option Text)
    → is_some o ≡ false
    → some (filled w) ≡ only_set o (some w) before
set_newly none w before h = refl
set_newly (some v) w before h = cc

at_same :
    (j k : Text) (env : Dict Text Text) (b : Bool)
    → (k == j) ≡ true
    → is_some (lookup j env) ≡ b
    → is_some (lookup k env) ≡ b
at_same j k env b q e = rw ((==_iff k j).0 q) e

apply_one-env :
    (j k : Text) (w : Option Text) (a : Applied) (m : Option (Option Text))
    → kept_or_set (lookup k (apply_one j w a).env) m
      ≡ kept_or_set (lookup k a.env) (if k == j then some w else m)
unfolding apply_one
apply_one-env j k w a m = elim (Bool-cases (is_some (lookup j a.env))) [
  | inl e ↦ elim (Bool-cases (k == j)) [
    | inl q ↦ rw (e, q) (kept (lookup k a.env) m (some w) (at_same j k a.env _ q e))
    | inr q ↦ rw (e, q) refl
  ]
  | inr e ↦ elim (Bool-cases (k == j)) [
    | inl q ↦
        rw (e, lookup-insert k j (filled w) a.env, q)
          (newly (lookup k a.env) w (at_same j k a.env _ q e))
    | inr q ↦ rw (e, lookup-insert k j (filled w) a.env, q) refl
  ]
]

apply_one-applied :
    (j k : Text) (w : Option Text) (a : Applied) (m : Option (Option Text))
    → only_set (lookup k (apply_one j w a).env) m (lookup k (apply_one j w a).applied)
      ≡ only_set (lookup k a.env) (if k == j then some w else m) (lookup k a.applied)
unfolding apply_one
apply_one-applied j k w a m = elim (Bool-cases (is_some (lookup j a.env))) [
  | inl e ↦ elim (Bool-cases (k == j)) [
    | inl q ↦
        rw (e, q)
          (set_kept (lookup k a.env) m (some w) (lookup k a.applied) (at_same j k a.env _ q e))
    | inr q ↦ rw (e, q) refl
  ]
  | inr e ↦ elim (Bool-cases (k == j)) [
    | inl q ↦
        rw (e, lookup-insert k j (filled w) a.env, lookup-insert k j (filled w) a.applied, q)
          (set_newly (lookup k a.env) w (lookup k a.applied) (at_same j k a.env _ q e))
    | inr q ↦
        rw (e, lookup-insert k j (filled w) a.env, lookup-insert k j (filled w) a.applied, q) refl
  ]
]

kept-none : (o : Option Text) → o ≡ kept_or_set o none
kept-none none = refl
kept-none (some v) = refl

set-none : (o before : Option Text) → before ≡ only_set o none before
set-none none before = refl
set-none (some v) before = refl

apply-env :
    (merged : EnvValues) (a : Applied) (k : Text)
    → lookup k (apply merged a).env ≡ kept_or_set (lookup k a.env) (lookup k merged)
unfolding apply lookup
apply-env [] a k = kept-none (lookup k a.env)
apply-env ((j, w) ∷ merged) a k =
    apply-env merged (apply_one j w a) k ∙ apply_one-env j k w a (lookup k merged)

apply-applied :
    (merged : EnvValues) (a : Applied) (k : Text)
    → lookup k (apply merged a).applied
      ≡ only_set (lookup k a.env) (lookup k merged) (lookup k a.applied)
unfolding apply lookup
apply-applied [] a k = set-none (lookup k a.env) (lookup k a.applied)
apply-applied ((j, w) ∷ merged) a k =
    apply-applied merged (apply_one j w a) k ∙ apply_one-applied j k w a (lookup k merged)

-- Where the files load, a variable that was there keeps its value and is not reported; any other has, and
-- is reported with, its merged value, empty for a bare key, or is absent from both.
pub load_env_files-lookup :
    {File : Type 0} (text_of : File → Option Text) (paths : List File) (env : Dict Text Text)
    (a : Applied)
    → load_env_files text_of paths env ≡ ok a
    → (merged : EnvValues) × (merge text_of env [] paths ≡ ok merged)
      × ((k : Text)
          → (lookup k a.env ≡ kept_or_set (lookup k env) (lookup k merged))
            × (lookup k a.applied ≡ only_set (lookup k env) (lookup k merged) none))
unfolding load_env_files
load_env_files-lookup text_of paths env a h =
    let (merged, is_merged, done) = bind-eq-ok (merge text_of env [] paths) _ h in
    let start : Applied = record { env = env; applied = [] } in
    let same : apply merged start ≡ a = ok-injective done in
    (
      merged,
      is_merged,
      (λ k. (
        ap (λ b. lookup k b.env) (sym same) ∙ apply-env merged start k,
        ap (λ b. lookup k b.applied) (sym same)
            ∙ apply-applied merged start k
            ∙ ap (only_set (lookup k env) (lookup k merged)) (lookup-nil k),
      )),
    )
