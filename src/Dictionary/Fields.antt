-- ===== src/Dictionary/Fields.antt =====
-- packages/node/src/indexer/dictionary/v1/stellarDictionaryV1.ts, the functions that make an entry of a filter: the
-- fields of its conditions.
use text.Mathlib.Text.{starts_with}
use text.Mathlib.TextEquality.{starts_with_iff}
use text.Mathlib.TextLemmas.{append_cancel_left, prefix-append}
use subql_stellar.Prelude.{
  ℕ, zero, suc, ◌≤◌, String, Option, none, some, List, [], ◌∷◌, ◌++◌, Bool, true, false, ◌===◌,
  length, if◌then◌else◌, All, All-mono, ◌≡◌, ◌≢◌, refl, sym, ◌∙◌, arith, eq_iff, ◌<+>◌, to_decimal,
  to_decimal-injective, subst,
}
use subql_stellar.Types.{
  StellarHandlerKind, switch_kind, SubqlHandlerFilter, SubqlHandler, SubqlDatasource,
  lookup_address, as_transaction_filter, as_operation_filter, as_effect_filter, as_event_filter,
}
use subql_stellar.Stellar.Block.{min_four, topic_at}
use subql_stellar.Dictionary.{
  DictionaryQueryCondition, DictionaryQueryEntry, DsOptions, lower_condition,
  transaction_filter_to_query_entry, operation_filter_to_query_entry, effect_filter_to_query_entry,
  event_filter_to_query_entry, address_conditions, topic_condition, topic_conditions,
  filter_topic_conditions, Contribution, when, kind_contribution, switch_contribution, contribution,
}
use subql_stellar.Dictionary.Sorted.{HasDistinctFields}

-- A condition that is there or not.
abbrev AtMostOne : String → List DictionaryQueryCondition → Type 0
AtMostOne field cs =
    All (λ (c : DictionaryQueryCondition). c.field ≡ field) cs × HasDistinctFields cs

unless-AtMostOne :
    (b : Bool) (c : DictionaryQueryCondition) → AtMostOne c.field (if b then [] else c ∷ [])
unless-AtMostOne true c = (tt, tt)
unless-AtMostOne false c = ((refl, tt), (tt, tt))

when-AtMostOne :
    (b : Bool) (c : DictionaryQueryCondition) → AtMostOne c.field (if b then c ∷ [] else [])
when-AtMostOne true c = ((refl, tt), (tt, tt))
when-AtMostOne false c = (tt, tt)

lower_condition-AtMostOne :
    (field : String) (criterion : Option String) → AtMostOne field (lower_condition field criterion)
lower_condition-AtMostOne field none = (tt, tt)
lower_condition-AtMostOne field (some s) = unless-AtMostOne (s === "") _

address_conditions-AtMostOne :
    (limit : ℕ) (options : DsOptions) → AtMostOne "address" (address_conditions limit options)
address_conditions-AtMostOne limit (DsOptions.grouped options) = when-AtMostOne _ _
address_conditions-AtMostOne limit (DsOptions.single none) = (tt, tt)
address_conditions-AtMostOne limit (DsOptions.single (some o)) =
    lower_condition-AtMostOne "address" (lookup_address o)

topic_condition-AtMostOne :
    (i : ℕ) (topic : Option String)
    → AtMostOne ("topics" <+> to_decimal i) (topic_condition i topic)
topic_condition-AtMostOne i none = (tt, tt)
topic_condition-AtMostOne i (some topic) = unless-AtMostOne (topic === "") _

All-append :
    (P : DictionaryQueryCondition → Type 0) (cs ds : List DictionaryQueryCondition)
    → All P cs
    → All P ds
    → All P (cs ++ ds)
All-append P [] ds p q = q
All-append P (c ∷ cs) ds p q = (p.0, All-append P cs ds p.1 q)

-- The conditions on one field, before conditions on others.
append-HasDistinctFields :
    (field : String) (cs ds : List DictionaryQueryCondition)
    → AtMostOne field cs
    → All (λ (d : DictionaryQueryCondition). d.field ≢ field) ds
    → HasDistinctFields ds
    → HasDistinctFields (cs ++ ds)
append-HasDistinctFields field [] ds one others distinct = distinct
append-HasDistinctFields field (c ∷ cs) ds ((is_field, fields), (apart, rest)) others distinct = (
  All-append _ cs ds apart (All-mono (λ d other h. other (h ∙ is_field)) ds others),
  append-HasDistinctFields field cs ds (fields, rest) others distinct,
)

-- A field that is the topic's of a round from the given one on.
abbrev IsTopic : ℕ → DictionaryQueryCondition → Type 0
IsTopic i c = (j : ℕ) × (i ≤ j) × (c.field ≡ ("topics" <+> to_decimal j))

topic_conditions-IsTopic :
    (rounds i : ℕ) (topics : List (Option String))
    → All (IsTopic i) (topic_conditions rounds i topics)
unfolding topic_conditions
topic_conditions-IsTopic zero i topics = tt
topic_conditions-IsTopic (suc rounds) i topics =
    All-append (IsTopic i) _ _
      (All-mono (λ c h. (i, omega arith, h)) _ (topic_condition-AtMostOne i (topic_at topics i)).0)
      (All-mono (λ c (j, after, h). (j, omega arith, h)) _
        (topic_conditions-IsTopic rounds (suc i) topics))

topics_injective : (i j : ℕ) → ("topics" <+> to_decimal i) ≡ ("topics" <+> to_decimal j) → i ≡ j
topics_injective i j h = to_decimal-injective i j (append_cancel_left "topics" _ _ h)

topic_conditions-HasDistinctFields :
    (rounds i : ℕ) (topics : List (Option String))
    → HasDistinctFields (topic_conditions rounds i topics)
unfolding topic_conditions
topic_conditions-HasDistinctFields zero i topics = tt
topic_conditions-HasDistinctFields (suc rounds) i topics =
    append-HasDistinctFields ("topics" <+> to_decimal i) _ _
      (topic_condition-AtMostOne i (topic_at topics i))
      (All-mono
        (λ c (j, after, h) same. let eq = topics_injective j i (sym h ∙ same) in omega arith) _
        (topic_conditions-IsTopic rounds (suc i) topics))
      (topic_conditions-HasDistinctFields rounds (suc i) topics)

address-ne-topics : (s : String) → ("topics" <+> s) ≢ "address"
address-ne-topics s h =
    let starts = (starts_with_iff ("topics" <+> s) "topics").1 (prefix-append "topics" s) in
    cc (subst (λ t. starts_with t "topics" ≡ true) h starts)

filter_topics-distinct :
    (topics : Option (List (Option String)))
    → All (λ (d : DictionaryQueryCondition). d.field ≢ "address") (filter_topic_conditions topics)
      × HasDistinctFields (filter_topic_conditions topics)
filter_topics-distinct none = (tt, tt)
filter_topics-distinct (some topics) = (
  All-mono (λ c (j, after, h) same. address-ne-topics (to_decimal j) (sym h ∙ same)) _
      (topic_conditions-IsTopic (min_four (length topics)) 0 topics),
  topic_conditions-HasDistinctFields (min_four (length topics)) 0 topics,
)

-- Two conditions on other fields.
two-HasDistinctFields :
    (first second : String) (a b : Option String)
    → second ≢ first
    → HasDistinctFields (lower_condition first a ++ lower_condition second b)
two-HasDistinctFields first second a b other =
    let one = lower_condition-AtMostOne second b in
    append-HasDistinctFields first _ _ (lower_condition-AtMostOne first a)
      (All-mono (λ c is_second h. other (sym is_second ∙ h)) _ one.0) one.1

-- What a handler adds has distinct fields.
abbrev pub AddsDistinct : Contribution → Type 0
AddsDistinct (Contribution.entry e) = HasDistinctFields e.conditions
AddsDistinct Contribution.nothing = Unit
AddsDistinct Contribution.everything = Unit

when-AddsDistinct :
    (b : Bool) (e : DictionaryQueryEntry) → HasDistinctFields e.conditions → AddsDistinct (when b e)
when-AddsDistinct true e h = h
when-AddsDistinct false e h = tt

different : (s t : String) → (s === t) ≡ false → s ≢ t
different s t h same = cc (sym h ∙ (eq_iff s t).1 same)

module _ (limit : ℕ) (ds : SubqlDatasource) where
  kind_contribution-AddsDistinct :
      (filter : SubqlHandlerFilter) (kind : StellarHandlerKind)
      → AddsDistinct (kind_contribution limit ds filter kind)
  unfolding transaction_filter_to_query_entry operation_filter_to_query_entry
      effect_filter_to_query_entry event_filter_to_query_entry
  kind_contribution-AddsDistinct filter StellarHandlerKind.block = tt
  kind_contribution-AddsDistinct filter StellarHandlerKind.transaction =
      when-AddsDistinct _ _
        (lower_condition-AtMostOne "account" (as_transaction_filter filter).account).1
  kind_contribution-AddsDistinct filter StellarHandlerKind.soroban_transaction = tt
  kind_contribution-AddsDistinct filter StellarHandlerKind.operation = when-AddsDistinct _ _ (
      two-HasDistinctFields "type" "sourceAccount" (as_operation_filter filter).type
        (as_operation_filter filter).source_account (different "sourceAccount" "type" refl))
  kind_contribution-AddsDistinct filter StellarHandlerKind.effects = when-AddsDistinct _ _ (
      two-HasDistinctFields "type" "account" (as_effect_filter filter).type
        (as_effect_filter filter).account (different "account" "type" refl))
  kind_contribution-AddsDistinct filter StellarHandlerKind.event = when-AddsDistinct _ _ (
      let topics = filter_topics-distinct (as_event_filter filter).topics in
      append-HasDistinctFields "address" _ _
        (address_conditions-AtMostOne limit (DsOptions.single ds.options)) topics.0 topics.1)

  switch-AddsDistinct :
      (filter : Option SubqlHandlerFilter) (kind : Option StellarHandlerKind)
      → AddsDistinct (switch_contribution limit ds filter kind)
  switch-AddsDistinct none kind = tt
  switch-AddsDistinct (some filter) none = tt
  switch-AddsDistinct (some filter) (some kind) = kind_contribution-AddsDistinct filter kind

  pub contribution-AddsDistinct :
      (handler : SubqlHandler) → AddsDistinct (contribution limit ds handler)
  unfolding contribution
  contribution-AddsDistinct handler = switch-AddsDistinct handler.filter (switch_kind handler.kind)
