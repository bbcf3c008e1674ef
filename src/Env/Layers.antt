-- ===== src/Env/Layers.antt =====
-- src/ss_kit/env.py: `load_env_files` and the typed access. The environment is a dictionary.
use ss_common.Prelude.{
  Option, none, some, List, [], ◌∷◌, Text, nat_eq, list_eq, if◌then◌else◌, is_some, Dict, lookup,
  insert,
}
use ss_common.Result.{Result, ok, ◌>>=◌}
use ss_common.Env.{EnvError, EnvValues}
use ss_common.Env.Lines.{parse_env_text}

-- `d.update(e)`
unfoldable pub update {κ} : {V : Type κ} → Dict Text V → Dict Text V → Dict Text V
update d [] = d
update d ((k, v) ∷ e) = update (insert k v d) e

abbrev pub filled : Option Text → Text
filled none = []
filled (some v) = v

unfoldable pub all_filled : EnvValues → Dict Text Text
all_filled [] = []
all_filled ((k, v) ∷ d) = (k, filled v) ∷ all_filled d

-- The environment, and what was applied.
pub record Applied : Type 0 where
  pub env : Dict Text Text
  pub applied : Dict Text Text

-- The body of the loop over the merged values.
unfoldable pub apply_one : Text → Option Text → Applied → Applied
apply_one k v a =
    if is_some (lookup k a.env)
    then a
    else record { env = insert k (filled v) a.env; applied = insert k (filled v) a.applied }

unfoldable pub apply : EnvValues → Applied → Applied
apply [] a = a
apply ((k, v) ∷ merged) a = apply merged (apply_one k v a)

module _ {File : Type 0} (text_of : File → Option Text) where
  -- `read_env_file`
  unfoldable pub read_env_file : Dict Text Text → File → Result EnvError EnvValues
  read_env_file environ path = elim (text_of path) [
    | none ↦ ok []
    | some text ↦ parse_env_text environ text
  ]

  unfoldable pub merge : Dict Text Text → EnvValues → List File → Result EnvError EnvValues
  merge env merged [] = ok merged
  merge env merged (path ∷ paths) = do
    values ← read_env_file (update (all_filled merged) env) path
    merge env (update merged values) paths

  -- `load_env_files`: the environment afterwards, and what was set.
  unfoldable pub load_env_files : List File → Dict Text Text → Result EnvError Applied
  load_env_files paths env = do
    merged ← merge env [] paths
    ok (apply merged (record { env = env; applied = [] }))
