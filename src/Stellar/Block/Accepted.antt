-- ===== src/Stellar/Block/Accepted.antt =====
-- packages/node/src/stellar/block.stellar.ts: the filter of events by address, contract and topics.
use subql_stellar.Prelude.{
  ℕ, ◌<◌, String, Option, none, some, List, Bool, true, false, not, ◌===◌, truthy, ◌≡◌, ◌≢◌, refl,
  ◌⊎◌, ◌↔◌, inl, inr, arith, eq_iff, get_elem?, Bool-cases, length, to_lower_case, ◌≤◌, ◌+◌, ap,
}
use subql_stellar.Types.{NativeValue, EventResponse, SorobanEventFilter}
use subql_stellar.Stellar.Block.{
  string_normalized_eq, rejects_address, rejects_optional, min_four, topic_at, all_topics_pass,
  filter_event_processor,
}
use subql_stellar.Stellar.Block.Criteria.{rejects_iff, Each}
use subql_stellar.Stellar.Block.Topics.{TopicAdmits, topics_pass_iff}

-- The datasource has no address, or the contract has it up to the case of letters.
abbrev pub AddressAdmits : Option String → Option String → Type 0
AddressAdmits address contract_id =
    (truthy address ≡ false)
    ⊎ ((a : String) × (c : String) × (address ≡ some a)
        × (contract_id ≡ some c)
        × (to_lower_case a ≡ to_lower_case c))

-- The criterion is not set, or the value is there and meets it.
abbrev pub AdmitsOptional : Option String → Option String → Type 0
AdmitsOptional criterion value =
    (truthy criterion ≡ false) ⊎ ((criterion ≡ value) × (criterion ≢ none))

string_normalized_eq_iff :
    (a c : String) → (string_normalized_eq a (some c) ≡ true) ↔ (to_lower_case a ≡ to_lower_case c)
unfolding string_normalized_eq
string_normalized_eq_iff a c = ground (arith, eq_iff (to_lower_case c) (to_lower_case a))

string_normalized_eq-none : (a : String) → string_normalized_eq a none ≡ false
unfolding string_normalized_eq
string_normalized_eq-none a = refl

not-eq-false : (b : Bool) → not b ≡ false → b ≡ true
not-eq-false true h = refl
not-eq-false false h = cc

rejects_address_iff :
    (address contract_id : Option String)
    → (rejects_address address contract_id ≡ false) ↔ AddressAdmits address contract_id
rejects_address_iff none c = (λ h. inl refl, λ h. refl)
rejects_address_iff (some a) none = rw (string_normalized_eq-none a) (elim (Bool-cases (a === "")) [
  | inl unset ↦ rw unset (λ h. inl refl, λ h. refl)
  | inr set ↦ rw set (λ h. cc, λ h. elim h [ inl e ↦ cc | inr (b, c, p, q, r) ↦ cc ])
])
rejects_address_iff (some a) (some c) =
    let (to, from) = string_normalized_eq_iff a c in
    elim (Bool-cases (a === "")) [
      | inl unset ↦ rw unset (λ h. inl refl, λ h. refl)
      | inr set ↦ rw set (
        λ h. inr (a, c, refl, refl, to (not-eq-false _ h)),
        λ h. elim h [ inl e ↦ cc | inr (b, d, p, q, r) ↦ ap not (from (cc)) ],
      )
    ]

rejects_optional_iff :
    (criterion value : Option String)
    → (rejects_optional criterion value ≡ false) ↔ AdmitsOptional criterion value
rejects_optional_iff none none = (λ h. inl refl, λ h. refl)
rejects_optional_iff none (some v) = (λ h. inl refl, λ h. refl)
rejects_optional_iff (some c) none = ground (arith, eq_iff c "")
rejects_optional_iff (some c) (some v) = ground (arith, rejects_iff (some c) v)

module _ (sc_val_to_native : String → NativeValue) where
  -- Each of the first four topics of the filter admits the event's topic at its place.
  abbrev pub TopicsAdmit : Option (List (Option String)) → List String → Type 0
  TopicsAdmit none given = Unit
  TopicsAdmit (some topics) given =
      (j : ℕ)
      → 0 ≤ j
      → j < 0 + min_four (length topics)
      → TopicAdmits sc_val_to_native (topic_at topics j) (get_elem? given j)

  all_topics_pass_iff :
      (topics : Option (List (Option String))) (given : List String)
      → (all_topics_pass sc_val_to_native topics given ≡ true) ↔ TopicsAdmit topics given
  all_topics_pass_iff none given = (λ h. tt, λ h. refl)
  all_topics_pass_iff (some topics) given =
      topics_pass_iff sc_val_to_native (min_four (length topics)) 0 topics given

  -- An event is taken exactly if its contract has the datasource's address, where set, up to the
  -- case of letters; the filter's contract, where set, is its own to the letter; and each of the
  -- filter's first four topics, where set, is the native value of its topic at the same place.
  pub filter_event_processor_iff :
      (event : EventResponse) (filter : Option SorobanEventFilter) (address : Option String)
      → (filter_event_processor sc_val_to_native event filter address ≡ true) ↔ (
          AddressAdmits address event.contract_id
          × Each filter (λ f.
            AdmitsOptional f.contract_id event.contract_id × TopicsAdmit f.topics event.topic))
  unfolding filter_event_processor
  filter_event_processor_iff event none address =
      let (to, from) = rejects_address_iff address event.contract_id in
      elim (Bool-cases (rejects_address address event.contract_id)) [
        | inl out ↦ rw out (λ h. cc, λ h. absurd (cc (from h.0)))
        | inr kept ↦ rw kept (λ h. (to kept, tt), λ h. refl)
      ]
  filter_event_processor_iff event (some f) address =
      let (to, from) = rejects_address_iff address event.contract_id in
      let (to', from') = rejects_optional_iff f.contract_id event.contract_id in
      let (to'', from'') = all_topics_pass_iff f.topics event.topic in
      elim (Bool-cases (rejects_address address event.contract_id)) [
        | inl out ↦ rw out (λ h. cc, λ h. absurd (cc (from h.0)))
        | inr kept ↦ elim (Bool-cases (rejects_optional f.contract_id event.contract_id)) [
          | inl out ↦ rw (kept, out) (λ h. cc, λ h. absurd (cc (from' h.1.0)))
          | inr same ↦ rw (kept, same) (λ h. (to kept, (to' same, to'' h)), λ h. from'' h.1.1)
        ]
      ]
