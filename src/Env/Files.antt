-- ===== src/Env/Files.antt =====
-- Whole environment files, written and read back.
use mathlib.Core.List.{append_assoc, append-nil}
use ss_common.Prelude.{
  ◌≡◌, refl, sym, ap, ◌∙◌, true, false, some, List, [], ◌∷◌, ◌++◌, Text, ==_iff, nat_eq, list_eq,
  Dict, insert, contains, contains-append, Distinct, AllNew, keys, keys-append, AllNew-nil, arith,
  subst,
}
use ss_common.Result.{ok}
use ss_common.Env.{EnvValues}
use ss_common.Env.Lines.{parse_lines, parse_env_text}
use ss_common.Env.Layers.{update}
use ss_common.Env.Keys.{halves}
use ss_common.Env.Written.{is_key, written, line_values-written, step_over}

abbrev pub written_all : Dict Text Text → Text
written_all [] = []
written_all ((k, v) ∷ d) = written k v ++ written_all d

abbrev pub all_some : Dict Text Text → EnvValues
all_some [] = []
all_some ((k, v) ∷ d) = (k, some v) ∷ all_some d

-- The keys are keys of the dialect, and no value has a reference to expand.
abbrev pub AllWritable : Dict Text Text → Type 0
AllWritable [] = Unit
AllWritable ((k, v) ∷ d) = (is_key k ≡ true) × (contains v b'$' ≡ false) × AllWritable d

keys-all_some : (d : Dict Text Text) → keys (all_some d) ≡ keys d
keys-all_some [] = refl
keys-all_some ((k, v) ∷ d) = ap (λ ks. k ∷ ks) (keys-all_some d)

parse_lines-written :
    (environ : Dict Text Text) (d : Dict Text Text) (values : EnvValues)
    → AllWritable d
    → parse_lines environ 0 values (written_all d) ≡ ok (update values (all_some d))
unfolding parse_lines update
parse_lines-written environ [] values w = refl
parse_lines-written environ (([], v) ∷ d) values w = cc
parse_lines-written environ ((c ∷ k, v) ∷ d) values w =
    let (l, h) = halves _ _ w.0 in
    step_over environ values (insert (c ∷ k) (some v) values) c _ (written_all d)
      (line_values-written environ values c k v (written_all d) l h w.1)
    ∙ parse_lines-written environ d (insert (c ∷ k) (some v) values) w.2

insert-new :
    {V : Type 0} (k : Text) (v : V) (d : Dict Text V)
    → contains (keys d) k ≡ false
    → insert k v d ≡ d ++ (k, v) ∷ []
unfolding insert
insert-new k v [] h = refl
insert-new k v ((j, w) ∷ d) h = ground (arith, insert-new k v d)

AllNew-end :
    (k : Text) (seen xs : List Text)
    → AllNew seen xs
    → contains xs k ≡ false
    → AllNew (seen ++ k ∷ []) xs
AllNew-end k seen [] h n = tt
AllNew-end k seen (x ∷ xs) h n = (
  ground (arith, contains-append x seen (k ∷ []), h.0, ==_iff x k, ==_iff k x),
  AllNew-end k seen xs h.1 (ground arith),
)

update-new :
    {V : Type 0} (d e : Dict Text V)
    → AllNew (keys d) (keys e)
    → Distinct (keys e)
    → update d e ≡ d ++ e
unfolding update
update-new d [] h n = sym (append-nil d)
update-new d ((k, v) ∷ e) h n =
    ap (λ m. update m e) (insert-new k v d h.0)
    ∙ update-new (d ++ (k, v) ∷ []) e
        (subst (λ ks. AllNew ks (keys e)) (sym (keys-append d ((k, v) ∷ [])))
          (AllNew-end k (keys d) (keys e) h.1 n.0))
        n.1
    ∙ append_assoc d ((k, v) ∷ []) e

-- A file of lines `KEY="value"`, with different keys of the dialect, a backslash before each quote and
-- backslash of a value, and values without a dollar, is read as the dictionary that was written, in its
-- order, whatever the environment.
pub parse_env_text-written_all :
    (environ : Dict Text Text) (d : Dict Text Text)
    → AllWritable d
    → Distinct (keys d)
    → parse_env_text environ (written_all d) ≡ ok (all_some d)
parse_env_text-written_all environ d w n =
    parse_lines-written environ d [] w
    ∙ ap (λ e. ok e)
        (update-new [] (all_some d) (AllNew-nil _) (subst Distinct (sym (keys-all_some d)) n))
