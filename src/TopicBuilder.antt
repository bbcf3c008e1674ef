-- ===== src/TopicBuilder.antt =====
-- src/ss_kit/mqtt.py: `TopicBuilder`, over the entries of its topic map.
pub mod Laws
mod Tests
use ss_common.Prelude.{ℕ, ◌≡◌, Option, none, some, List, [], ◌∷◌, Text, length}
use ss_common.Result.{Result, ok, err, ◌>>=◌}
use ss_common.Topics
use ss_common.Topics.{TopicEntry, Params, BuildError, for_contract}

-- `key_error` has the number of entries that the contract has; it is raised unless there is one.
pub data BuilderError : Type 0 where
  key_error : (topics : ℕ) → BuilderError
  bad_params : BuildError → BuilderError

abbrev pub only_entry : List TopicEntry → Result BuilderError TopicEntry
only_entry (e ∷ []) = ok e
only_entry es = err (key_error (length es))

unfoldable pub entry : List TopicEntry → Text → Result BuilderError TopicEntry
entry es id = only_entry (for_contract es id)

abbrev pub built : Result BuildError Text → Result BuilderError Text
built (ok t) = ok t
built (err e) = err (bad_params e)

unfoldable pub build : List TopicEntry → Text → Params → Result BuilderError Text
build es id params = do e ← entry es id; built (Topics.build e params)

unfoldable pub subscription : List TopicEntry → Text → Result BuilderError Text
subscription es id = do e ← entry es id; ok (Topics.subscription e)

abbrev contract_and_params : Option (TopicEntry × Params) → Option (Text × Params)
contract_and_params none = none
contract_and_params (some (e, params)) = some (e.contract, params)

unfoldable pub resolve : List TopicEntry → Text → Option (Text × Params)
resolve es topic = contract_and_params (Topics.resolve es topic)
