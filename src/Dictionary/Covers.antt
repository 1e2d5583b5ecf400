-- ===== src/Dictionary/Covers.antt =====
-- packages/node/src/indexer/dictionary/v1/stellarDictionaryV1.ts beside the filters of
-- packages/node/src/stellar/block.stellar.ts: entries of a query, and data that filters take.
use subql_stellar.Prelude.{
  ℕ, zero, suc, ◌+◌, ◌<◌, ◌≤◌, String, Option, none, some, some-injective, List, Bool, true, false,
  not, ◌===◌, truthy, and_then, to_lower_case, to_decimal, ◌<+>◌, All, All-append, ◌≡◌, ◌⊎◌, inl,
  inr, refl, sym, ap, ap₂, subst, ◌∙◌, arith, Bool-cases, get_elem?, length,
}
use subql_stellar.Types.{
  StellarHandlerKind, switch_kind, SubqlHandlerFilter, SubqlHandler, SubqlDatasource,
  SubqlStellarProcessorOptions, address, lookup_address, NativeValue, StellarBlockFilter,
  EventResponse, as_transaction_filter, as_operation_filter, as_effect_filter, as_event_filter,
}
use subql_stellar.Stellar.Block.{topic_at, min_four}
use subql_stellar.Stellar.Block.Criteria.{
  Admits, filter_transaction_processor_iff, filter_operation_processor_iff,
  filter_effect_processor_iff,
}
use subql_stellar.Stellar.Block.Topics.{TopicAdmits}
use subql_stellar.Stellar.Block.Accepted.{AddressAdmits, TopicsAdmit, filter_event_processor_iff}
use subql_stellar.Indexer.{DataOf, filter_type_map}
use subql_stellar.Dictionary.{
  ConditionValue, DictionaryQueryCondition, DictionaryQueryEntry, DsOptions, Contribution,
  lower_condition, address_conditions, topic_condition, topic_conditions, filter_topic_conditions,
  transaction_filter_to_query_entry, operation_filter_to_query_entry, effect_filter_to_query_entry,
  event_filter_to_query_entry, when, kind_contribution, switch_contribution, contribution,
}

-- The condition asks for one value, and the field has it.
abbrev pub Meets : (String → String → Type 0) → DictionaryQueryCondition → Type 0
Meets QueryText c = (v : String) × (c.value ≡ ConditionValue.one v) × QueryText c.field v

-- The text of an event with which a condition on a field is to be compared: for the address the contract in lower
-- case, as the query has it, and for a topic its native text.
abbrev pub EventQueryText : (String → NativeValue) → EventResponse → String → String → Type 0
EventQueryText sc_val_to_native e field v =
    ((field ≡ "address") × ((c : String) × (e.contract_id ≡ some c) × (v ≡ to_lower_case c)))
    ⊎ ((i : ℕ) × (g : String) × (field ≡ "topics" <+> to_decimal i)
        × (get_elem? e.topic i ≡ some g)
        × (sc_val_to_native g ≡ NativeValue.text v))

-- The same of all kinds: the account or type of the data, in lower case as the query has it.
abbrev pub QueryText :
    (String → NativeValue) → (kind : StellarHandlerKind) → DataOf kind → String → String → Type 0
QueryText native StellarHandlerKind.block x field v = ⊥
QueryText native StellarHandlerKind.transaction x field v =
    (field ≡ "account") × (v ≡ to_lower_case x.raw.source_account)
QueryText native StellarHandlerKind.soroban_transaction x field v =
    (field ≡ "account") × (v ≡ to_lower_case x.raw.source_account)
QueryText native StellarHandlerKind.operation x field v =
    ((field ≡ "type") × (v ≡ to_lower_case x.raw.type))
    ⊎ ((field ≡ "sourceAccount") × (v ≡ to_lower_case x.raw.source_account))
QueryText native StellarHandlerKind.effects x field v =
    ((field ≡ "type") × (v ≡ to_lower_case x.raw.type))
    ⊎ ((field ≡ "account") × (v ≡ to_lower_case x.raw.account))
QueryText native StellarHandlerKind.event x field v = EventQueryText native x.raw field v

not-eq-false : (b : Bool) → not b ≡ false → b ≡ true
not-eq-false true h = refl
not-eq-false false h = cc h

module _ (P : String → String → Type 0) where
  lower_condition-Meets :
      (field : String) (criterion : Option String)
      → (truthy criterion ≡ false)
        ⊎ ((s : String) × (criterion ≡ some s) × P field (to_lower_case s))
      → All (Meets P) (lower_condition field criterion)
  lower_condition-Meets field none h = tt
  lower_condition-Meets field (some s) (inl unset) = rw (not-eq-false (s === "") unset) tt
  lower_condition-Meets field (some s) (inr (t, e, p)) = elim (Bool-cases (s === "")) [
    | inl empty ↦ rw empty tt
    | inr full ↦ rw full (
      (
        to_lower_case s,
        refl,
        subst (λ u. P field (to_lower_case u)) (sym (some-injective s t e)) p,
      ),
      tt,
    )
  ]

  admitted-Meets :
      (field : String) (criterion : Option String) (value : String)
      → Admits criterion value
      → P field (to_lower_case value)
      → All (Meets P) (lower_condition field criterion)
  admitted-Meets field criterion value (inl unset) p =
      lower_condition-Meets field criterion (inl unset)
  admitted-Meets field criterion value (inr same) p =
      lower_condition-Meets field criterion (inr (value, same, p))

module _ (sc_val_to_native : String → NativeValue) (event : EventResponse) where
  address_conditions-Meets :
      (limit : ℕ) (options : Option SubqlStellarProcessorOptions)
      → AddressAdmits (and_then options lookup_address) event.contract_id
      → All
          (Meets (EventQueryText sc_val_to_native event))
          (address_conditions limit (DsOptions.single options))
  address_conditions-Meets limit none h = tt
  address_conditions-Meets limit (some o) (inl unset) =
      lower_condition-Meets _ "address" (lookup_address o) (inl unset)
  address_conditions-Meets limit (some o) (inr (a, c, e, e', same)) =
      lower_condition-Meets _ "address" (lookup_address o) (inr (a, e, inl (refl, (c, e', same))))

  topic_condition-Meets :
      (i : ℕ) (topic given : Option String)
      → get_elem? event.topic i ≡ given
      → TopicAdmits sc_val_to_native topic given
      → All (Meets (EventQueryText sc_val_to_native event)) (topic_condition i topic)
  topic_condition-Meets i none given at h = tt
  topic_condition-Meets i (some t) given at (inl unset) = rw (not-eq-false (t === "") unset) tt
  topic_condition-Meets i (some t) given at (inr (u, g, e, e', n)) = elim (Bool-cases (t === "")) [
    | inl empty ↦ rw empty tt
    | inr full ↦ rw full (
      (t, refl, inr (i, g, refl, at ∙ e', n ∙ ap NativeValue.text (sym (some-injective t u e)))),
      tt,
    )
  ]

  topic_conditions-Meets :
      (rounds i : ℕ) (topics : List (Option String))
      → ((j : ℕ)
          → i ≤ j
          → j < i + rounds
          → TopicAdmits sc_val_to_native (topic_at topics j) (get_elem? event.topic j))
      → All (Meets (EventQueryText sc_val_to_native event)) (topic_conditions rounds i topics)
  unfolding topic_conditions
  topic_conditions-Meets zero i topics h = tt
  topic_conditions-Meets (suc rounds) i topics h =
      All-append _ (topic_condition i (topic_at topics i)) _
        (topic_condition-Meets i (topic_at topics i) _ refl (h i (omega arith) (omega arith)))
        (topic_conditions-Meets rounds (suc i) topics
          (λ j low high. h j (omega arith) (omega arith)))

  filter_topic_conditions-Meets :
      (topics : Option (List (Option String)))
      → TopicsAdmit sc_val_to_native topics event.topic
      → All (Meets (EventQueryText sc_val_to_native event)) (filter_topic_conditions topics)
  filter_topic_conditions-Meets none h = tt
  filter_topic_conditions-Meets (some topics) h =
      topic_conditions-Meets (min_four (length topics)) 0 topics h

entry_of : Contribution → DictionaryQueryEntry → DictionaryQueryEntry
entry_of (Contribution.entry e) d = e
entry_of Contribution.nothing d = d
entry_of Contribution.everything d = d

pub when-eq-entry :
    (b : Bool) (d e : DictionaryQueryEntry) → when b d ≡ Contribution.entry e → d ≡ e
unfolding entry_of
when-eq-entry true d e h = ap (λ c. entry_of c d) h
when-eq-entry false d e h = cc h

module _ (get_time : String → ℕ) (filter_block_timestamp : ℕ → StellarBlockFilter → Bool)
    (sc_val_to_native : String → NativeValue) (limit : ℕ) (ds : SubqlDatasource)
    (filter : SubqlHandlerFilter) where
  kind_contribution-Meets :
      (kind : StellarHandlerKind) (x : DataOf kind) (e : DictionaryQueryEntry)
      → filter_type_map get_time filter_block_timestamp sc_val_to_native kind x (some filter) ds
        ≡ true
      → kind_contribution limit ds filter kind ≡ Contribution.entry e
      → All (Meets (QueryText sc_val_to_native kind x)) e.conditions
  unfolding filter_type_map transaction_filter_to_query_entry operation_filter_to_query_entry
      effect_filter_to_query_entry event_filter_to_query_entry address
  kind_contribution-Meets StellarHandlerKind.block x e taken h = cc h
  kind_contribution-Meets StellarHandlerKind.soroban_transaction x e taken h = cc h
  kind_contribution-Meets StellarHandlerKind.transaction x e taken h =
      let admits =
        (filter_transaction_processor_iff x.raw (some (as_transaction_filter filter))
            (address ds)).0
          taken in
      subst
        (λ (d : DictionaryQueryEntry).
          All (Meets (QueryText sc_val_to_native StellarHandlerKind.transaction x)) d.conditions)
        (when-eq-entry _ _ e h)
        (admitted-Meets _ "account" filter.account x.raw.source_account admits (refl, refl))
  kind_contribution-Meets StellarHandlerKind.operation x e taken h =
      let (of_account, of_type) =
        (filter_operation_processor_iff x.raw (some (as_operation_filter filter)) (address ds)).0
          taken in
      subst
        (λ (d : DictionaryQueryEntry).
          All (Meets (QueryText sc_val_to_native StellarHandlerKind.operation x)) d.conditions)
        (when-eq-entry _ _ e h)
        (All-append _ (lower_condition "type" filter.type) _
          (admitted-Meets _ "type" filter.type x.raw.type of_type (inl (refl, refl)))
          (admitted-Meets _ "sourceAccount" filter.source_account x.raw.source_account of_account
            (inr (refl, refl))))
  kind_contribution-Meets StellarHandlerKind.effects x e taken h =
      let (of_account, of_type) =
        (filter_effect_processor_iff x.raw (some (as_effect_filter filter)) (address ds)).0 taken in
      subst
        (λ (d : DictionaryQueryEntry).
          All (Meets (QueryText sc_val_to_native StellarHandlerKind.effects x)) d.conditions)
        (when-eq-entry _ _ e h)
        (All-append _ (lower_condition "type" filter.type) _
          (admitted-Meets _ "type" filter.type x.raw.type of_type (inl (refl, refl)))
          (admitted-Meets _ "account" filter.account x.raw.account of_account (inr (refl, refl))))
  kind_contribution-Meets StellarHandlerKind.event x e taken h =
      let (of_address, admits) =
        (filter_event_processor_iff sc_val_to_native x.raw (some (as_event_filter filter))
            (address ds)).0
          taken in
      subst
        (λ (d : DictionaryQueryEntry).
          All (Meets (QueryText sc_val_to_native StellarHandlerKind.event x)) d.conditions)
        (when-eq-entry _ _ e h)
        (All-append _ (address_conditions limit (DsOptions.single ds.options)) _
          (address_conditions-Meets sc_val_to_native x.raw limit ds.options of_address)
          (filter_topic_conditions-Meets sc_val_to_native x.raw filter.topics admits.1))

  -- What a handler's filter takes meets all conditions of the entry that the handler adds to the query.
  pub contribution-Meets :
      (handler : SubqlHandler) (kind : StellarHandlerKind) (x : DataOf kind)
      (e : DictionaryQueryEntry)
      → handler.filter ≡ some filter
      → switch_kind handler.kind ≡ some kind
      → filter_type_map get_time filter_block_timestamp sc_val_to_native kind x (some filter) ds
        ≡ true
      → contribution limit ds handler ≡ Contribution.entry e
      → All (Meets (QueryText sc_val_to_native kind x)) e.conditions
  unfolding contribution
  contribution-Meets handler kind x e has_filter of_kind taken h =
      kind_contribution-Meets kind x e taken
        (sym (ap₂ (switch_contribution limit ds) has_filter of_kind) ∙ h)
