-- ===== src/Dictionary.antt =====
-- packages/node/src/indexer/dictionary/v1/stellarDictionaryV1.ts and stellarDictionary.service.ts:
-- the query that finds the blocks with data for a project's handlers, and the dictionaries it is
-- sent to. The limit on addresses of the command line is a parameter, as is a dictionary's `init`.
pub mod Query
pub mod Order
pub mod Handlers
pub mod Service
pub mod Covers
pub mod Keys
pub mod Sorted
pub mod Fields
pub mod Unique
pub mod Asks
pub mod Skips
pub mod Idle
mod Example
mod IdleTests
mod Tests
use subql_stellar.Prelude.{
  ℕ, zero, suc, ◌+◌, ◌-◌, String, Option, none, some, List, [], ◌∷◌, ◌++◌, Bool, true, false, not,
  ◌&&◌, ◌||◌, ◌==◌, ◌===◌, if◌then◌else◌, truthy, leb, length, contains, option_map, map,
  to_lower_case, to_decimal, ◌<+>◌, Result, ok, throw, JsError,
}
use subql_stellar.Types.{
  StellarHandlerKind, switch_kind, find_kind, StellarTransactionFilter, StellarOperationFilter,
  StellarEffectFilter, SorobanEventFilter, SubqlHandlerFilter, SubqlHandler, SubqlDatasource,
  SubqlStellarProcessorOptions, address, as_transaction_filter, as_operation_filter,
  as_effect_filter, as_event_filter, lookup_address,
}
use subql_stellar.Stellar.Block.{min_four, topic_at}

-- The value of a condition: one text, or a list of them.
pub data ConditionValue : Type 0 where
  one : String → ConditionValue
  many : List String → ConditionValue

pub data Matcher : Type 0 where
  equal_to in_list : Matcher

pub record DictionaryQueryCondition : Type 0 where
  pub field : String
  pub value : ConditionValue
  pub matcher : Matcher

pub record DictionaryQueryEntry : Type 0 where
  pub entity : String
  pub conditions : List DictionaryQueryCondition

-- `if (criterion) conditions.push({field, value: criterion.toLowerCase(), matcher: 'equalTo'})`
abbrev pub lower_condition : String → Option String → List DictionaryQueryCondition
lower_condition field none = []
lower_condition field (some s) =
    if s === ""
    then []
    else record {
      field = field;
      value = ConditionValue.one (to_lower_case s);
      matcher = Matcher.equal_to;
    }
      ∷ []

unfoldable pub transaction_filter_to_query_entry : StellarTransactionFilter → DictionaryQueryEntry
transaction_filter_to_query_entry filter = record {
  entity = "transactions";
  conditions = lower_condition "account" filter.account;
}

unfoldable pub operation_filter_to_query_entry : StellarOperationFilter → DictionaryQueryEntry
operation_filter_to_query_entry filter = record {
  entity = "operations";
  conditions =
      lower_condition "type" filter.type ++ lower_condition "sourceAccount" filter.source_account;
}

unfoldable pub effect_filter_to_query_entry : StellarEffectFilter → DictionaryQueryEntry
effect_filter_to_query_entry filter = record {
  entity = "effects";
  conditions = lower_condition "type" filter.type ++ lower_condition "account" filter.account;
}

-- The options of a datasource: an object, or a list of objects (which a query for several
-- datasources may have).
pub data DsOptions : Type 0 where
  single : Option SubqlStellarProcessorOptions → DsOptions
  grouped : List SubqlStellarProcessorOptions → DsOptions

-- `dsOptions.map((option) => option.address).filter((address) => !!address)`
abbrev pub addresses_of : List SubqlStellarProcessorOptions → List String
addresses_of [] = []
addresses_of (o ∷ os) = elim (lookup_address o) [
  | none ↦ addresses_of os
  | some a ↦ if a === "" then addresses_of os else a ∷ addresses_of os
]

abbrev pub address_conditions : ℕ → DsOptions → List DictionaryQueryCondition
address_conditions query_address_limit (DsOptions.grouped options) =
    let addresses = addresses_of options in
    if not (length addresses == 0) && leb (length addresses) query_address_limit
    then record {
      field = "address";
      value = ConditionValue.many addresses;
      matcher = Matcher.in_list;
    }
      ∷ []
    else []
address_conditions query_address_limit (DsOptions.single none) = []
address_conditions query_address_limit (DsOptions.single (some o)) =
    lower_condition "address" (lookup_address o)

abbrev topic_condition : ℕ → Option String → List DictionaryQueryCondition
topic_condition i none = []
topic_condition i (some topic) =
    if topic === ""
    then []
    else record {
      field = "topics" <+> to_decimal i;
      value = ConditionValue.one topic;
      matcher = Matcher.equal_to;
    }
      ∷ []

-- The loop from round `i` on, with `rounds` left.
unfoldable pub topic_conditions : ℕ → ℕ → List (Option String) → List DictionaryQueryCondition
topic_conditions zero i topics = []
topic_conditions (suc rounds) i topics =
    topic_condition i (topic_at topics i) ++ topic_conditions rounds (suc i) topics

abbrev pub filter_topic_conditions : Option (List (Option String)) → List DictionaryQueryCondition
filter_topic_conditions none = []
filter_topic_conditions (some topics) = topic_conditions (min_four (length topics)) 0 topics

unfoldable pub event_filter_to_query_entry :
    ℕ → SorobanEventFilter → DsOptions → DictionaryQueryEntry
unfolding topic_conditions
event_filter_to_query_entry query_address_limit filter ds_options = record {
  entity = "events";
  conditions =
      address_conditions query_address_limit ds_options ++ filter_topic_conditions filter.topics;
}

-- What a handler does to the query: adds an entry, adds nothing, or makes the query empty.
pub data Contribution : Type 0 where
  entry : DictionaryQueryEntry → Contribution
  nothing : Contribution
  everything : Contribution

abbrev when : Bool → DictionaryQueryEntry → Contribution
when b e = if b then Contribution.entry e else Contribution.everything

abbrev pub is_set {ℓ} : {A : Type ℓ} → Option A → Bool
is_set none = false
is_set (some a) = true

-- A case of the `switch`.
abbrev pub kind_contribution :
    ℕ → SubqlDatasource → SubqlHandlerFilter → StellarHandlerKind → Contribution
kind_contribution limit ds filter StellarHandlerKind.block = Contribution.everything
kind_contribution limit ds filter StellarHandlerKind.transaction =
    when (truthy filter.account) (transaction_filter_to_query_entry (as_transaction_filter filter))
kind_contribution limit ds filter StellarHandlerKind.soroban_transaction = Contribution.nothing
kind_contribution limit ds filter StellarHandlerKind.operation =
    when (truthy filter.source_account || truthy filter.type)
      (operation_filter_to_query_entry (as_operation_filter filter))
kind_contribution limit ds filter StellarHandlerKind.effects =
    when (truthy filter.account || truthy filter.type)
      (effect_filter_to_query_entry (as_effect_filter filter))
kind_contribution limit ds filter StellarHandlerKind.event =
    when (truthy (address ds) || is_set filter.topics)
      (event_filter_to_query_entry limit (as_event_filter filter) (DsOptions.single ds.options))

-- The body of the inner loop, by the handler's filter and its case of the `switch`; without a filter
-- the dictionary is of no use.
abbrev pub switch_contribution :
    ℕ → SubqlDatasource → Option SubqlHandlerFilter → Option StellarHandlerKind → Contribution
switch_contribution limit ds none kind = Contribution.everything
switch_contribution limit ds (some filter) none = Contribution.nothing
switch_contribution limit ds (some filter) (some kind) = kind_contribution limit ds filter kind

unfoldable pub contribution : ℕ → SubqlDatasource → SubqlHandler → Contribution
contribution limit ds handler =
    switch_contribution limit ds handler.filter (switch_kind handler.kind)

-- The query so far, and its early return of the empty list, which is `none`.
abbrev pub add_contribution :
    Contribution → Option (List DictionaryQueryEntry) → Option (List DictionaryQueryEntry)
add_contribution Contribution.everything rest = none
add_contribution Contribution.nothing rest = rest
add_contribution (Contribution.entry e) rest = option_map (◌∷◌ e) rest

-- The loops.
unfoldable pub handler_entries :
    ℕ → SubqlDatasource → List SubqlHandler → Option (List DictionaryQueryEntry)
unfolding contribution
handler_entries limit ds [] = some []
handler_entries limit ds (handler ∷ handlers) =
    add_contribution (contribution limit ds handler) (handler_entries limit ds handlers)

abbrev pub append_option :
    Option (List DictionaryQueryEntry)
    → Option (List DictionaryQueryEntry)
    → Option (List DictionaryQueryEntry)
append_option none b = none
append_option (some a) none = none
append_option (some a) (some b) = some (a ++ b)

unfoldable pub all_entries : ℕ → List SubqlDatasource → Option (List DictionaryQueryEntry)
unfolding handler_entries
all_entries limit [] = some []
all_entries limit (ds ∷ data_sources) =
    append_option (handler_entries limit ds ds.mapping.handlers) (all_entries limit data_sources)
