-- ===== src/TopicDocument.antt =====
-- src/ss_contracts/topics.py: a topic map from a parsed `topics.yaml` document.
pub mod Roundtrip
use ss_common.Prelude.{
  ℕ, zero, suc, ◌+◌, Bool, true, false, ◌≡◌, Option, none, some, List, [], ◌∷◌, Text, codes, ltb,
  if◌then◌else◌,
}
use ss_common.Result.{Result, ok, err, ◌>>=◌, ◌>>◌, guard}
use ss_common.Value.{Value, Members, pos, negsuc, int, str, bool, mapping, list, items, find, get}
use ss_common.Topics.{TopicEntry}

-- The conditions of `TopicMapError`, with the index of the entry.
pub data TopicMapError : Type 0 where
  bad_version no_topics : TopicMapError
  not_a_mapping needs_texts bad_qos bad_retain bad_description : (index : ℕ) → TopicMapError

abbrev pub Loaded : Type 0 → Type 0
Loaded = Result TopicMapError

abbrev pub want_text : TopicMapError → Value → Loaded Text
want_text e (str s) = ok s
want_text e _ = err e

abbrev pub want_bool : TopicMapError → Value → Loaded Bool
want_bool e (bool b) = ok b
want_bool e _ = err e

-- `type(qos) is int` and `qos in QOS_LEVELS`.
abbrev pub want_qos : TopicMapError → Value → Loaded ℕ
want_qos e (int (pos n)) = if ltb n 3 then ok n else err e
want_qos e _ = err e

-- `item.get("description", "")`: only an absent key has the default.
abbrev pub description_of : Members → Value
description_of m = elim (find (codes "description") m) [ none ↦ str [] | some v ↦ v ]

abbrev pub checked_entry :
    Loaded Text → Loaded Text → Loaded ℕ → Loaded Bool → Loaded Text → Loaded TopicEntry
checked_entry pattern contract qos retain description = do
  p ← pattern
  c ← contract
  q ← qos
  r ← retain
  d ← description
  ok (record { pattern = p; contract = c; qos = q; retain = r; description = d })

unfoldable pub members_entry : ℕ → Members → Loaded TopicEntry
members_entry index m =
    checked_entry (want_text (needs_texts index) (get (codes "pattern") m))
      (want_text (needs_texts index) (get (codes "contract") m))
      (want_qos (bad_qos index) (get (codes "qos") m))
      (want_bool (bad_retain index) (get (codes "retain") m))
      (want_text (bad_description index) (description_of m))

-- `_entry`.
unfoldable pub entry : ℕ → Value → Loaded TopicEntry
entry index (mapping m) = members_entry index m
entry index _ = err (not_a_mapping index)

unfoldable pub entries : ℕ → List Value → Loaded (List TopicEntry)
entries index [] = ok []
entries index (v ∷ vs) = do e ← entry index v; es ← entries (suc index) vs; ok (e ∷ es)

abbrev pub is_version_one : Value → Bool
is_version_one (int (pos (suc zero))) = true
is_version_one _ = false

abbrev pub topics_of : Value → Loaded (List TopicEntry)
topics_of (list vs) = entries 0 (items vs)
topics_of _ = err no_topics

unfoldable pub topic_map_from_document : Value → Loaded (List TopicEntry)
topic_map_from_document (mapping doc) = do
  guard (is_version_one (get (codes "topicsVersion") doc)) bad_version
  topics_of (get (codes "topics") doc)
topic_map_from_document _ = err bad_version
