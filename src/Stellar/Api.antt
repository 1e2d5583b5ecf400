-- ===== src/Stellar/Api.antt =====
-- packages/node/src/stellar/api.stellar.ts, `StellarApi`, and stellar.server.ts: its construction
-- and what it answers about the network. The Horizon server is the parameter `Horizon`; the host's
-- URL parser is `protocol_of`, a URL's protocol with its colon.
pub mod Paging
pub mod Wrapping
pub mod Ledger
pub mod Outline
pub mod Links
pub mod Blocks
pub mod Ends
pub mod Returns
pub mod Parts
pub mod Refs
pub mod Shares
pub mod Example
mod Tests
mod FetchTests
use subql_stellar.Prelude.{
  ℕ, ◌+◌, String, Option, none, some, List, [], ◌∷◌, Bool, true, false, not, ◌==◌, ◌===◌, ◌||◌,
  if◌then◌else◌, or_default, and_then, Result, ok, throw, JsError, new_error, ◌>>=◌, truthy,
  JsNumber, ◌<+>◌, to_decimal, includes,
}
use Prim.Native.String
use Prim.Native.String.{[] as empty_text, ◌∷◌ as cons_text}
use Prim.Native.Char.{code}
use subql_stellar.Types.{LedgerRecord, TransactionRecord, OperationRecord, EffectRecord}
use subql_stellar.Stellar.Soroban.{EventsCache, default_page_size}

-- What the Horizon server answers: a page of the records of a ledger by the number of the page, a
-- ledger, the ledgers from the newest, and the network's passphrase.
pub record Horizon : Type 0 where
  pub transactions : ℕ → ℕ → ℕ → Result (List TransactionRecord)
  pub operations : ℕ → ℕ → ℕ → Result (List OperationRecord)
  pub effects : ℕ → ℕ → ℕ → Result (List EffectRecord)
  pub ledger : JsNumber → Result LedgerRecord
  pub newest_ledgers : Result (List LedgerRecord)
  pub network_passphrase : Result String

-- `IStellarEndpointConfig`, the part that the code reads.
pub record StellarEndpointConfig : Type 0 where
  pub page_limit : Option ℕ

-- `soroban_client` is the event cache of the Soroban client, where there is one.
pub record StellarApi : Type 0 where
  pub endpoint : String
  pub soroban_client : Option EventsCache
  pub chain_id : Option String
  pub page_limit : ℕ
  pub allow_http : Bool

-- `config?.pageLimit || DEFAULT_PAGE_SIZE`
unfoldable pub page_limit_of : Option StellarEndpointConfig → ℕ
page_limit_of config = elim (and_then config (λ (c : StellarEndpointConfig). c.page_limit)) [
  | none ↦ default_page_size
  | some n ↦ if n == 0 then default_page_size else n
]

-- `s.replace(':', '')`
unfoldable pub replace_colon : String → String
replace_colon empty_text = ""
replace_colon (cons_text c s) = if code c == b':' then s else cons_text c (replace_colon s)

module _ (protocol_of : String → Result String) where
  unfoldable pub new_stellar_api :
      String → Option EventsCache → Option StellarEndpointConfig → Result StellarApi
  new_stellar_api endpoint soroban config = do
    protocol ← protocol_of endpoint
    let protocol_str = replace_colon protocol
    (if (protocol_str === "https") || (protocol_str === "http")
        then ok (record {
          endpoint = endpoint;
          soroban_client = soroban;
          chain_id = none;
          page_limit = page_limit_of config;
          allow_http = protocol_str === "http";
        })
        else throw (new_error ("Unsupported protocol: " <+> protocol)))

unfoldable pub init : Horizon → StellarApi → Result StellarApi
init horizon api = do
  passphrase ← horizon.network_passphrase
  ok (record api { chain_id = some passphrase })

abbrev pub assertion_error : String → JsError
assertion_error m = record { name = "AssertionError"; message = m }

-- The getter `sorobanClient`.
unfoldable pub soroban_client : StellarApi → Result EventsCache
soroban_client api = elim api.soroban_client [
  | none ↦ throw (assertion_error "Soraban client is not initialized")
  | some cache ↦ ok cache
]

unfoldable pub get_finalized_block : Horizon → Result (Option LedgerRecord)
get_finalized_block horizon = do
  records ← horizon.newest_ledgers
  ok (elim records [ [] ↦ none | l ∷ ls ↦ some l ])

-- Reading a field of `undefined` is a TypeError.
abbrev pub type_error : String → JsError
type_error m = record { name = "TypeError"; message = m }

unfoldable pub get_finalized_block_height : Horizon → Result ℕ
unfolding get_finalized_block
get_finalized_block_height horizon = do
  block ← get_finalized_block horizon
  elim block [
    | none ↦ throw (type_error "Cannot read properties of undefined (reading 'sequence')")
    | some l ↦ ok l.sequence
  ]

unfoldable pub get_best_block_height : Horizon → Result ℕ
unfolding get_finalized_block_height
get_best_block_height horizon = do height ← get_finalized_block_height horizon; ok (height + 1)

-- `getRuntimeChain`, `getChainId` and `getGenesisHash` have one body.
unfoldable pub get_chain_id : StellarApi → Result String
get_chain_id api = elim api.chain_id [
  | none ↦ throw (assertion_error "Api has not been initialised")
  | some id ↦ if id === "" then throw (assertion_error "Api has not been initialised") else ok id
]

abbrev pub get_runtime_chain : StellarApi → Result String
get_runtime_chain = get_chain_id

abbrev pub get_genesis_hash : StellarApi → Result String
get_genesis_hash = get_chain_id

abbrev pub get_spec_name : String
get_spec_name = "Stellar"

abbrev pub connect : Result (Unit {0})
connect = throw (new_error "Not implemented")

abbrev pub disconnect : Result (Unit {0})
disconnect = throw (new_error "Not implemented")

abbrev pub not_available_on_blockchain_node : ℕ → String
not_available_on_blockchain_node height =
    "The requested ledger number "
    <+> to_decimal height
    <+> " is not available on the current blockchain node.\n      This is because you're trying to access a ledger that is older than the oldest ledger stored in this node.\n      To resolve this issue, you can either:\n      1. Increase the start ledger to a more recent one, or\n      2. Connect to a different node that might have a longer history of ledgers."

unfoldable pub handle_error : JsError → ℕ → JsError
handle_error e height =
    if e.message === "start is before oldest ledger"
    then new_error (not_available_on_blockchain_node height)
    else e
