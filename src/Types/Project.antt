-- ===== src/Types/Project.antt =====
-- packages/types/src/project.ts: kinds of datasource and handler, handlers, mappings, datasources.
-- A manifest is parsed from YAML, so a handler's kind is any text and its filter any object: the
-- record of a filter holds each field that some handler kind reads, and a cast selects some of them.
use subql_stellar.Prelude.{
  ℕ, String, Option, none, some, List, [], ◌∷◌, if◌then◌else◌, ◌===◌, lookup, and_then,
}
use subql_stellar.Types.Chain.{
  StellarBlockFilter, StellarTransactionFilter, StellarOperationFilter, StellarEffectFilter,
  SorobanEventFilter,
}

pub data StellarDatasourceKind : Type 0 where
  runtime : StellarDatasourceKind

abbrev pub datasource_kind_text : StellarDatasourceKind → String
datasource_kind_text runtime = "stellar/Runtime"

pub data StellarHandlerKind : Type 0 where
  block transaction soroban_transaction operation effects event : StellarHandlerKind

-- The members' values.
abbrev pub kind_text : StellarHandlerKind → String
kind_text block = "stellar/BlockHandler"
kind_text transaction = "stellar/TransactionHandler"
kind_text soroban_transaction = "soroban/TransactionHandler"
kind_text operation = "stellar/OperationHandler"
kind_text effects = "stellar/EffectHandler"
kind_text event = "soroban/EventHandler"

-- `Object.values(StellarHandlerKind)`, as members
abbrev pub handler_kinds : List StellarHandlerKind
handler_kinds = block ∷ transaction ∷ soroban_transaction ∷ operation ∷ effects ∷ event ∷ []

-- `switch (kind)` over the members: the first whose value is the text.
unfoldable pub find_kind : String → List StellarHandlerKind → Option StellarHandlerKind
find_kind t [] = none
find_kind t (k ∷ ks) = if kind_text k === t then some k else find_kind t ks

unfoldable pub switch_kind : String → Option StellarHandlerKind
unfolding find_kind
switch_kind t = find_kind t handler_kinds

pub record SubqlHandlerFilter : Type 0 where
  pub modulo : Option ℕ
  pub timestamp : Option String
  pub account : Option String
  pub source_account : Option String
  pub type : Option String
  pub contract_id : Option String
  pub topics : Option (List (Option String))

-- The casts `handler.filter as …`.
abbrev pub as_transaction_filter : SubqlHandlerFilter → StellarTransactionFilter
as_transaction_filter f = record { account = f.account }

abbrev pub as_operation_filter : SubqlHandlerFilter → StellarOperationFilter
as_operation_filter f = record { type = f.type; source_account = f.source_account }

abbrev pub as_effect_filter : SubqlHandlerFilter → StellarEffectFilter
as_effect_filter f = record { type = f.type; account = f.account }

abbrev pub as_event_filter : SubqlHandlerFilter → SorobanEventFilter
as_event_filter f = record { contract_id = f.contract_id; topics = f.topics }

abbrev pub as_block_filter : SubqlHandlerFilter → StellarBlockFilter
as_block_filter f = record { modulo = f.modulo; timestamp = f.timestamp }

-- `SubqlHandler`: a runtime handler or a custom one, told apart by the kind alone.
pub record SubqlHandler : Type 0 where
  pub handler : String
  pub kind : String
  pub filter : Option SubqlHandlerFilter

pub record SubqlMapping : Type 0 where
  pub file : String
  pub handlers : List SubqlHandler

-- An options object: `options?.address` reads its field `address`.
abbrev pub SubqlStellarProcessorOptions : Type 0
SubqlStellarProcessorOptions = List (String × String)

pub record Processor : Type 0 where
  pub file : String
  pub options : SubqlStellarProcessorOptions

-- `SubqlDatasource`, the union of the runtime and the custom datasource, told apart at run time.
pub record SubqlDatasource : Type 0 where
  pub kind : String
  pub mapping : SubqlMapping
  pub options : Option SubqlStellarProcessorOptions
  pub processor : Option Processor

-- `options.address`
unfoldable pub lookup_address : SubqlStellarProcessorOptions → Option String
unfolding lookup
lookup_address options = lookup "address" options

-- `ds.options?.address`
unfoldable pub address : SubqlDatasource → Option String
address ds = and_then ds.options lookup_address
