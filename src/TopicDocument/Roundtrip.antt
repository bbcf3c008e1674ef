-- ===== src/TopicDocument/Roundtrip.antt =====
-- A topic map that is written as a document is read back.
use ss_common.Prelude.{
  ℕ, suc, true, ◌<◌, Bool, ◌≡◌, refl, ap, subst, List, [], ◌∷◌, Text, codes, All, length, arith,
  ◌==◌, nat_eq, list_eq,
}
use ss_common.Result.{ok, guard-eq-ok, ok-injective}
use ss_common.Value.{
  Value, null, negsuc, Items, Members, nil, cons, end, member, pos, int, str, bool, mapping, list,
  items, find, get,
}
use ss_common.Topics.{TopicEntry}
use ss_common.TopicDocument.{
  TopicMapError, want_qos, want_text, want_bool, checked_entry, needs_texts, bad_qos, bad_retain,
  bad_description, description_of, is_version_one, topics_of, Loaded, entry, members_entry, entries,
  topic_map_from_document,
}

-- The mapping that stands for an entry in `topics.yaml`.
abbrev entry_document : TopicEntry → Value
entry_document e = mapping (
    member (codes "pattern") (str e.pattern) (
      member (codes "contract") (str e.contract) (
        member (codes "qos") (int (pos e.qos)) (
          member (codes "retain") (bool e.retain)
            (member (codes "description") (str e.description) end)))))

abbrev pub entry_documents : List TopicEntry → Items
entry_documents [] = nil
entry_documents (e ∷ es) = cons (entry_document e) (entry_documents es)

abbrev pub map_document : List TopicEntry → Value
map_document es = mapping (
    member (codes "topicsVersion") (int (pos 1))
      (member (codes "topics") (list (entry_documents es)) end))

abbrev pub HasQos : TopicEntry → Type 0
HasQos e = e.qos < 3

entry-document : (index : ℕ) (e : TopicEntry) → HasQos e → entry index (entry_document e) ≡ ok e
unfolding entry members_entry find ◌==◌ nat_eq list_eq
entry-document index e h = ground arith

entries-documents :
    (index : ℕ) (es : List TopicEntry)
    → All HasQos es
    → entries index (items (entry_documents es)) ≡ ok es
unfolding entries
entries-documents index [] h = refl
entries-documents index (e ∷ es) h =
    ground (arith, entry-document index e h.0, entries-documents (suc index) es h.1)

-- The document of a topic map with levels of service 0, 1 and 2 is read back as that map.
pub topic_map_from_document-map_document :
    (es : List TopicEntry) → All HasQos es → topic_map_from_document (map_document es) ≡ ok es
unfolding topic_map_from_document find ◌==◌ nat_eq list_eq
topic_map_from_document-map_document es h = entries-documents 0 es h

want_qos-lt : (x : TopicMapError) (v : Value) {n : ℕ} → want_qos x v ≡ ok n → n < 3
want_qos-lt x (int (pos n)) h = ground arith
want_qos-lt x (int (negsuc n)) h = cc
want_qos-lt x null h = cc
want_qos-lt x _ h = cc

checked_entry-qos :
    (p c d : Loaded Text) (q : Loaded ℕ) (r : Loaded Bool) {e : TopicEntry}
    → checked_entry p c q r d ≡ ok e
    → q ≡ ok e.qos
checked_entry-qos p c d q r h = ground arith

members_entry-HasQos :
    (index : ℕ) (m : Members) {e : TopicEntry} → members_entry index m ≡ ok e → HasQos e
unfolding members_entry
members_entry-HasQos index m h = want_qos-lt (bad_qos index) (get (codes "qos") m) (
    checked_entry-qos (want_text (needs_texts index) (get (codes "pattern") m))
      (want_text (needs_texts index) (get (codes "contract") m))
      (want_text (bad_description index) (description_of m))
      (want_qos (bad_qos index) (get (codes "qos") m))
      (want_bool (bad_retain index) (get (codes "retain") m)) h)

entry-HasQos : (index : ℕ) (v : Value) {e : TopicEntry} → entry index v ≡ ok e → HasQos e
unfolding entry
entry-HasQos index (mapping m) h = members_entry-HasQos index m h
entry-HasQos index null h = cc
entry-HasQos index _ h = cc

entries-cons :
    (index : ℕ) (v : Value) (vs : List Value) {es : List TopicEntry}
    → entries index (v ∷ vs) ≡ ok es
    → (e : TopicEntry) × (rest : List TopicEntry) × (entry index v ≡ ok e)
      × (entries (suc index) vs ≡ ok rest)
      × (e ∷ rest ≡ es)
unfolding entries
entries-cons index v vs h = ground arith

entries_sound :
    (index : ℕ) (vs : List Value) (es : List TopicEntry)
    → entries index vs ≡ ok es
    → All HasQos es × (length es ≡ length vs)
entries_sound index [] es h =
    unfold entries in
    subst (λ (es : List TopicEntry). All HasQos es × (length es ≡ 0)) (ok-injective h) (tt, refl)
entries_sound index (v ∷ vs) es h =
    let (e, rest, first, more, same) = entries-cons index v vs h in
    let (all, n) = entries_sound (suc index) vs rest more in
    subst (λ (es : List TopicEntry). All HasQos es × (length es ≡ suc (length vs))) same
      ((entry-HasQos index v first, all), ap suc n)

topics_of-list :
    (v : Value) (es : List TopicEntry)
    → topics_of v ≡ ok es
    → (vs : Items) × (v ≡ list vs) × (entries 0 (items vs) ≡ ok es)
topics_of-list (list vs) es h = (vs, refl, h)
topics_of-list null es h = cc
topics_of-list _ es h = cc

-- A document that is read has the version 1 and a list of topics, and gives one entry for each item
-- of the list, with a level of service 0, 1 or 2.
pub topic_map_from_document_sound :
    (doc : Members) (es : List TopicEntry)
    → topic_map_from_document (mapping doc) ≡ ok es
    → (is_version_one (get (codes "topicsVersion") doc) ≡ true)
      × ((vs : Items) × (get (codes "topics") doc ≡ list vs) × (length es ≡ length (items vs)))
      × All HasQos es
unfolding topic_map_from_document
topic_map_from_document_sound doc es h =
    let (version, k) = guard-eq-ok (is_version_one (get (codes "topicsVersion") doc)) _ _ h in
    let (vs, e, read) = topics_of-list (get (codes "topics") doc) es k in
    let (all, n) = entries_sound 0 (items vs) es read in (version, (vs, e, n), all)
