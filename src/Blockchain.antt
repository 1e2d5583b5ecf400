-- ===== src/Blockchain.antt =====
-- packages/node/src/blockchain.service.ts, `BlockchainService`: headers by hash and by height, the
-- interval of the chain, and the update of a dynamic datasource. The validation by class-validator
-- is the parameter `validate_sync`, the texts of the errors that it finds.
pub mod Headers
pub mod Dynamic
mod Tests
use subql_stellar.Prelude.{
  ℕ, ◌*◌, ◌/◌, String, Option, none, some, or_default, List, [], ◌∷◌, Bool, true, false,
  if◌then◌else◌, ltb, JsNumber, parse_int, Result, ok, throw, JsError, new_error, ◌>>=◌, spread,
  option_map, ◌<+>◌,
}
use subql_stellar.Types.{
  LedgerRecord, StellarBlockWrapper, SubqlDatasource, SubqlStellarProcessorOptions, Processor,
}
use subql_stellar.Project.{is_custom_ds, is_runtime_ds}
use subql_stellar.Stellar.Utils.{Header, IBlock, stellar_block_to_header, calc_interval}
use subql_stellar.Stellar.Api.{Horizon, get_finalized_block, get_best_block_height, type_error}
use subql_stellar.Indexer.{get_block_size}

abbrev pub block_time_variance : ℕ
block_time_variance = 5000

unfoldable pub get_header_for_height : Horizon → JsNumber → Result Header
unfolding stellar_block_to_header
get_header_for_height horizon height = do
  res ← horizon.ledger height
  ok (stellar_block_to_header res)

unfoldable pub get_header_for_hash : Horizon → String → Result Header
unfolding get_header_for_height parse_int
get_header_for_hash horizon hash = get_header_for_height horizon (parse_int hash)

unfoldable pub get_finalized_header : Horizon → Result Header
unfolding get_finalized_block stellar_block_to_header
get_finalized_header horizon = do
  block ← get_finalized_block horizon
  elim block [
    | none ↦ throw (type_error "Cannot read properties of undefined (reading 'sequence')")
    | some l ↦ ok (stellar_block_to_header l)
  ]

abbrev pub get_best_height : Horizon → Result ℕ
get_best_height horizon = get_best_block_height horizon

-- `INTERVAL_PERCENT` is 0.9; the product is a whole number.
unfoldable pub get_chain_interval : ℕ
get_chain_interval =
    let chain_interval = calc_interval * 9 / 10 in
    if ltb chain_interval block_time_variance then chain_interval else block_time_variance

-- The time at which the ledger closed, as its text.
unfoldable pub get_block_timestamp : Horizon → ℕ → Result String
get_block_timestamp horizon height = do
  block ← horizon.ledger (JsNumber.pos height)
  ok block.closed_at

abbrev pub join_lines : List String → String
join_lines [] = ""
join_lines (e ∷ []) = e
join_lines (e ∷ f ∷ es) = e <+> "\n" <+> join_lines (f ∷ es)

-- `{...options, ...params.args}`
abbrev pub with_args :
    Option SubqlStellarProcessorOptions
    → SubqlStellarProcessorOptions
    → SubqlStellarProcessorOptions
with_args options args = spread (or_default options []) args

abbrev pub with_processor_args : SubqlStellarProcessorOptions → Processor → Processor
with_processor_args args p = record p { options = spread p.options args }

abbrev pub dynamic_error : List String → Result (Unit {0})
dynamic_error [] = ok tt
dynamic_error (e ∷ es) = throw (new_error ("Dynamic ds is invalid\n" <+> join_lines (e ∷ es)))

-- The datasource as it is left, also where the validation throws.
unfoldable pub update_dynamic_ds :
    (SubqlDatasource → List String)
    → SubqlStellarProcessorOptions
    → SubqlDatasource
    → SubqlDatasource × Result (Unit {0})
unfolding is_custom_ds is_runtime_ds spread
update_dynamic_ds validate_sync args ds =
    if is_custom_ds ds
    then (record ds { processor = option_map (with_processor_args args) ds.processor }, ok tt)
    else if is_runtime_ds ds
    then (let ds' = record ds { options = some (with_args ds.options args) } in
        (ds', dynamic_error (validate_sync ds')))
    else (ds, ok tt)

-- The methods that hand on: to the API service, whose `fetchBlocks` and `safeApi` are arguments, and to a worker.
abbrev pub service_fetch_blocks : (List ℕ → Result (List IBlock)) → List ℕ → Result (List IBlock)
service_fetch_blocks fetch_blocks block_nums = fetch_blocks block_nums

abbrev pub fetch_block_worker : (ℕ → ℕ → Result Header) → ℕ → Result Header
fetch_block_worker fetch_block block_num = fetch_block block_num 0

abbrev pub service_block_size : IBlock → ℕ
service_block_size block = get_block_size block.block

abbrev pub service_safe_api {ℓ} : {A : Type ℓ} → (ℕ → A) → StellarBlockWrapper → A
service_safe_api safe_api block = safe_api block.block.raw.sequence

abbrev pub on_project_change {ℓ} : {P : Type ℓ} → P → Unit {0}
on_project_change project = tt
