-- ===== src/TopicBuilder/Laws.antt =====
-- The builder over a checked topic map.
use mathlib.Core.List.{Memᴰ}
use ss_common.Prelude.{
  ◌≡◌, refl, sym, ap, subst, ◌∙◌, some, List, [], ◌∷◌, map, Text, codes, list_eq, nat_eq, ==_iff,
  lookup, Dict, append-eq-nil, ◌++◌, arith, inl, inr, ◌⊎◌,
}
use ss_common.Result.{Result, ok, err, bind-eq-ok}
use ss_common.Contract.{ContractSpec}
use ss_common.Topics.{TopicEntry, Params, BuildError, for_contract}
use ss_common.TopicCheck.{
  topic_map_errors, entries_errors, overlap_errors, mqtt_errors, declared_errors, pattern_of,
}
use ss_common.TopicCheck.Resolve.{resolve-build}
use ss_common.TopicBuilder.{only_entry, entry, built, build, resolve}

for_contract-cases :
    (d : TopicEntry) (es : List TopicEntry) (id : Text)
    → (for_contract (d ∷ es) id ≡ d ∷ for_contract es id) × (d.contract ≡ id)
      ⊎ (for_contract (d ∷ es) id ≡ for_contract es id)
unfolding for_contract
for_contract-cases d es id = ground (arith, ==_iff d.contract id)

head_or_tail :
    {es fs : List TopicEntry} {id : Text} (e d : TopicEntry)
    → Memᴰ e (d ∷ es)
    → d.contract ≡ id
    → (Memᴰ e es → Memᴰ e fs × (e.contract ≡ id))
    → Memᴰ e (d ∷ fs) × (e.contract ≡ id)
head_or_tail e d (Memᴰ.head p) own rest = (Memᴰ.head p, ap (λ (x : TopicEntry). x.contract) p ∙ own)
head_or_tail e d (Memᴰ.tail m) own rest = let (m', p) = rest m in (Memᴰ.tail m', p)

for_contract-member :
    (es : List TopicEntry) (id : Text) (e : TopicEntry)
    → Memᴰ e (for_contract es id)
    → Memᴰ e es × (e.contract ≡ id)
for_contract-member [] id e m = unfold for_contract in elim m [ ]
for_contract-member (d ∷ es) id e m = elim (for_contract-cases d es id) [
  | inl (same, own) ↦ head_or_tail e d (rw same at m) own (λ m'. for_contract-member es id e m')
  | inr same ↦ let (m', p) = for_contract-member es id e (rw same at m) in (Memᴰ.tail m', p)
]

only_entry-cases : (es : List TopicEntry) {e : TopicEntry} → only_entry es ≡ ok e → es ≡ e ∷ []
only_entry-cases [] h = cc
only_entry-cases (e ∷ []) h = cc
only_entry-cases (e ∷ f ∷ es) h = cc

-- The entry that serves a contract is in the map and names the contract.
entry-member :
    (es : List TopicEntry) (id : Text) {e : TopicEntry}
    → entry es id ≡ ok e
    → Memᴰ e es × (e.contract ≡ id)
unfolding entry
entry-member es id {e} h =
    for_contract-member es id e (rw (only_entry-cases (for_contract es id) h) (Memᴰ.head refl))

built-ok : (r : Result BuildError Text) {t : Text} → built r ≡ ok t → r ≡ ok t
built-ok (ok t) h = cc
built-ok (err e) h = cc

-- Over a topic map without findings, a topic that the builder makes for a contract resolves to that
-- contract, with the values that were given.
pub resolve-build_contract :
    (es : List TopicEntry) (registered : List Text) (contracts : Dict Text ContractSpec) (id : Text)
    (ps : Params) (topic : Text)
    → topic_map_errors es registered contracts ≡ []
    → build es id ps ≡ ok topic
    → (qs : Params) × (resolve es topic ≡ some (id, qs)) × ((n : Text) → lookup n qs ≡ lookup n ps)
unfolding build resolve
resolve-build_contract es registered contracts id ps topic clean h =
    let (e, found, made) = bind-eq-ok (entry es id) _ h in
    let (m, names) = entry-member es id found in
    let (qs, back, same) =
      resolve-build es registered contracts clean e ps topic m (built-ok _ made) in
    (qs, rw back (ap (λ (c : Text). some (c, qs)) names), same)

declared-only :
    (es : List TopicEntry) (id declared : Text)
    → declared_errors es id (some declared) ≡ []
    → map pattern_of (for_contract es id) ≡ declared ∷ []
declared-only es id declared h =
    ground (arith, ==_iff (map pattern_of (for_contract es id)) (declared ∷ []))

mqtt_errors-member :
    (es : List TopicEntry) (contracts : Dict Text ContractSpec) (id declared : Text)
    (spec : ContractSpec)
    → mqtt_errors es contracts ≡ []
    → Memᴰ (id, spec) contracts
    → lookup (codes "mqttTopic") spec.binding ≡ some declared
    → map pattern_of (for_contract es id) ≡ declared ∷ []
unfolding mqtt_errors
mqtt_errors-member es [] id declared spec clean m h = elim m [ ]
mqtt_errors-member es ((i, s) ∷ contracts) id declared spec clean (Memᴰ.head p) h =
    let own =
      (append-eq-nil (declared_errors es i (lookup (codes "mqttTopic") s.binding)) _ clean).0 in
    let same : lookup (codes "mqttTopic") s.binding ≡ some declared =
      ap (λ (x : Text × ContractSpec). lookup (codes "mqttTopic") (x.1).binding) (sym p) ∙ h in
    let pure = declared-only es i declared (rw same at own) in
    subst (λ (x : Text). map pattern_of (for_contract es x) ≡ declared ∷ [])
      (ap (λ (x : Text × ContractSpec). x.0) (sym p)) pure
mqtt_errors-member es ((i, s) ∷ contracts) id declared spec clean (Memᴰ.tail m) h =
    mqtt_errors-member es contracts id declared spec ((append-eq-nil _ _ clean).1) m h

single :
    (fs : List TopicEntry) {declared : Text}
    → map pattern_of fs ≡ declared ∷ []
    → (e : TopicEntry) × (fs ≡ e ∷ []) × (e.pattern ≡ declared)
single [] h = cc
single (e ∷ []) h = (e, refl, cc)
single (e ∷ f ∷ fs) h = cc

-- In a topic map without findings, a contract whose binding declares an MQTT topic has exactly one
-- entry, under that pattern, and the builder finds it.
pub entry-mqtt_topic :
    (es : List TopicEntry) (registered : List Text) (contracts : Dict Text ContractSpec)
    (id declared : Text) (spec : ContractSpec)
    → topic_map_errors es registered contracts ≡ []
    → Memᴰ (id, spec) contracts
    → lookup (codes "mqttTopic") spec.binding ≡ some declared
    → (e : TopicEntry) × (entry es id ≡ ok e) × (e.pattern ≡ declared) × (e.contract ≡ id)
unfolding topic_map_errors entry
entry-mqtt_topic es registered contracts id declared spec clean m h =
    let bound = (append-eq-nil (entries_errors registered es ++ overlap_errors es) _ clean).1 in
    let (e, only, pattern) =
      single (for_contract es id) (mqtt_errors-member es contracts id declared spec bound m h) in
    (
      e,
      ap only_entry only,
      pattern,
      (for_contract-member es id e (subst (Memᴰ e) (sym only) (Memᴰ.head refl))).1,
    )
