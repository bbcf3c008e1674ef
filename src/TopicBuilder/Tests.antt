-- ===== src/TopicBuilder/Tests.antt =====
-- A small topic map, runs of the operations on it, and the theorems at its entries.
use mathlib.Core.List.{Memᴰ}
use ss_common.Prelude.{
  ◌≡◌, refl, true, false, ◌↔◌, some, List, [], ◌∷◌, Text, codes, ◌==◌, list_eq, nat_eq, lookup,
  Dict, arith, Distinct, All, all, split, join, insert, sorted_set, is_some, length,
}
use ss_common.Result.{ok}
use ss_common.Value.{Members, Items, member, end, int, pos, list, items, get}
use ss_common.Regex.{run}
use ss_common.Contract.{ContractSpec, FieldSpecs}
use ss_common.Binding.{topic_errors, level_errors, is_topic_level}
use ss_common.Topics
use ss_common.Topics.{
  TopicEntry, Params, slash, placeholder, placeholders, is_literal, is_value, names_of,
  match_levels, match, build_level, build_levels, build, subscription, for_contract,
}
use ss_common.Topics.Roundtrip.{match-build, build-match}
use ss_common.TopicCheck.{
  topic_map_errors, entries_errors, entry_errors, pattern_errors, bad_levels, repeats,
  overlap_errors, overlaps_of, patterns_overlap, all_meet, mqtt_errors,
}
use ss_common.TopicCheck.Resolve.{resolve_unique, resolve-build, build-resolve}
use ss_common.TopicCheck.Overlap.{patterns_overlap_iff, IsAmbiguous}
use ss_common.TopicCheck.Subscription.{subscription_exact, filter_covers}
use ss_common.TopicDocument.{topic_map_from_document, is_version_one}
use ss_common.TopicDocument.Roundtrip.{
  topic_map_from_document-map_document, topic_map_from_document_sound, map_document,
  entry_documents, HasQos,
}
use ss_common.TopicBuilder
use ss_common.TopicBuilder.Laws.{resolve-build_contract, entry-mqtt_topic}

abbrev pattern : Text
pattern = codes "ss/{site}/m/{dev}"

abbrev reading : TopicEntry
reading = record {
  pattern = pattern;
  contract = codes "r";
  qos = 1;
  retain = false;
  description = [];
}

abbrev state : TopicEntry
state = record {
  pattern = codes "ss/{site}/s";
  contract = codes "st";
  qos = 0;
  retain = true;
  description = codes "x";
}

abbrev topic_map : List TopicEntry
topic_map = reading ∷ state ∷ []

abbrev registered : List Text
registered = codes "r" ∷ codes "st" ∷ []

abbrev spec : ContractSpec
spec = record {
  contract_id = codes "r";
  version = codes "1.0.0";
  status = codes "active";
  name = codes "R";
  purpose = codes "p";
  fields = FieldSpecs.nil;
  binding = (codes "mqttTopic", pattern) ∷ [];
  generation = [];
}

abbrev contracts : Dict Text ContractSpec
contracts = (codes "r", spec) ∷ []

abbrev params : Params
params = (codes "dev", codes "d1") ∷ (codes "site", codes "s9") ∷ []

abbrev matched : Params
matched = (codes "site", codes "s9") ∷ (codes "dev", codes "d1") ∷ []

abbrev topic : Text
topic = codes "ss/s9/m/d1"

program : Unit {0}
unfolding TopicBuilder.build TopicBuilder.entry Topics.resolve build build_levels build_level match
    match_levels names_of placeholder is_value is_literal run subscription for_contract split join
    lookup insert sorted_set ◌==◌ nat_eq list_eq topic_errors level_errors is_topic_level
    topic_map_errors entries_errors entry_errors pattern_errors bad_levels repeats overlap_errors
    overlaps_of patterns_overlap all_meet mqtt_errors
program = tt

clean : topic_map_errors topic_map registered contracts ≡ []
unfolding program
clean = refl

clean_pattern : pattern_errors reading ≡ []
unfolding program
clean_pattern = refl

clean_state : pattern_errors state ≡ []
unfolding program
clean_state = refl

built : build reading params ≡ ok topic
unfolding program
built = refl

found : match reading topic ≡ some matched
unfolding program
found = refl

resolved : Topics.resolve topic_map topic ≡ some (reading, matched)
unfolding program
resolved = refl

made : TopicBuilder.build topic_map (codes "r") params ≡ ok topic
unfolding program
made = refl

levels_are_values : all is_value (split slash topic) ≡ true
unfolding program
levels_are_values = refl

match-build_example :
    (qs : Params) × (match reading topic ≡ some qs) × ((n : Text) → lookup n qs ≡ lookup n params)
match-build_example = match-build reading params topic built

distinct : Distinct (placeholders reading)
unfolding program
distinct = (refl, (refl, tt))

build-match_example : build reading matched ≡ ok topic
build-match_example = build-match reading topic matched distinct found

resolve_unique_example : Topics.resolve topic_map topic ≡ some (reading, matched)
resolve_unique_example =
    resolve_unique topic_map registered contracts clean reading topic matched (Memᴰ.head refl) found

resolve-build_example :
    (qs : Params) × (Topics.resolve topic_map topic ≡ some (reading, qs))
    × ((n : Text) → lookup n qs ≡ lookup n params)
resolve-build_example =
    resolve-build topic_map registered contracts clean reading params topic (Memᴰ.head refl) built

build-resolve_example : Memᴰ reading topic_map × (build reading matched ≡ ok topic)
build-resolve_example =
    build-resolve topic_map registered contracts clean reading matched topic resolved

patterns_overlap_iff_example : (patterns_overlap reading state ≡ true) ↔ IsAmbiguous reading state
patterns_overlap_iff_example = patterns_overlap_iff reading state clean_pattern clean_state

subscription_exact_example :
    filter_covers (split slash (subscription reading)) (split slash topic)
    ≡ is_some (match reading topic)
subscription_exact_example = subscription_exact reading topic clean_pattern levels_are_values

topic_map_from_document-map_document_example :
    topic_map_from_document (map_document topic_map) ≡ ok topic_map
topic_map_from_document-map_document_example =
    topic_map_from_document-map_document topic_map (omega arith)

document : Members
document =
    member (codes "topicsVersion") (int (pos 1))
      (member (codes "topics") (list (entry_documents topic_map)) end)

topic_map_from_document_sound_example :
    (is_version_one (get (codes "topicsVersion") document) ≡ true)
    × ((vs : Items) × (get (codes "topics") document ≡ list vs)
        × (length topic_map ≡ length (items vs)))
    × All HasQos topic_map
unfolding document
topic_map_from_document_sound_example =
    topic_map_from_document_sound document topic_map
      (topic_map_from_document-map_document topic_map (omega arith))

resolve-build_contract_example :
    (qs : Params) × (TopicBuilder.resolve topic_map topic ≡ some (codes "r", qs))
    × ((n : Text) → lookup n qs ≡ lookup n params)
resolve-build_contract_example =
    resolve-build_contract topic_map registered contracts (codes "r") params topic clean made

declared : lookup (codes "mqttTopic") spec.binding ≡ some pattern
unfolding program
declared = refl

entry-mqtt_topic_example :
    (e : TopicEntry) × (TopicBuilder.entry topic_map (codes "r") ≡ ok e)
    × (e.pattern ≡ pattern)
    × (e.contract ≡ codes "r")
entry-mqtt_topic_example =
    entry-mqtt_topic topic_map registered contracts (codes "r") pattern spec clean (Memᴰ.head refl)
      declared

-- The final newline that `$` lets through stands for itself in a literal.
placeholder_newline : placeholder (codes "{a1}\n") ≡ some (codes "a1")
unfolding program
placeholder_newline = refl
