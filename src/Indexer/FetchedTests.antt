-- ===== src/Indexer/FetchedTests.antt =====
-- A ledger with a contract call and a payment, fetched and then indexed.
use subql_stellar.Prelude.{
  ℕ, zero, suc, String, Option, none, some, List, [], ◌∷◌, false, Result, ok, throw, new_error, map,
  ◌≡◌, refl, read_digits, before_dash, big_int, lookup, insert, push_group, group_from,
  try_group_from, to_decimal,
}
use subql_stellar.Types.{SorobanEvent}
use subql_stellar.Stellar.Soroban.{
  EventsCache, GetEventsRequest, GetEventsResponse, get_events, begin_get_events, get, remove,
}
use subql_stellar.Stellar.Utils.{IBlock, format_block_util, stellar_block_to_header}
use subql_stellar.Stellar.Api.{Horizon, StellarApi, soroban_client}
use subql_stellar.Stellar.Api.Paging.{
  fetch_pages, fetch_transactions_for_ledger, fetch_operations_for_ledger, fetch_effects_for_ledger,
}
use subql_stellar.Stellar.Api.Wrapping.{
  write_all, wrap_effect, wrap_operation, wrap_operations_for_tx, effect_key, set_transaction,
  wrap_transaction, wrap_transactions_for_ledger,
}
use subql_stellar.Stellar.Api.Ledger.{
  wrap_event, set_ledger, set_transaction_ledger, assemble, LedgerData, fetch_ledger_data,
  get_and_wrap_events, fetch_ledger_events, fetch_and_wrap_ledger,
}
use subql_stellar.Stellar.Api.Outline.{expected}
use subql_stellar.Stellar.Api.Example.{ledger_of, ledger_answer, txs, ops, effs, transfer_event}
use subql_stellar.Indexer.{index_block_data}
use subql_stellar.Indexer.Example.{log_kind, runtime_ds}
use subql_stellar.Indexer.Order.{Call, run}
use subql_stellar.Indexer.RawCalls.{raw_call, block_raw_calls}
use subql_stellar.Indexer.Fetched.{fetch_and_wrap_ledger-index_block_data}

abbrev one_page {ℓ} : {A : Type ℓ} → List A → ℕ → Result (List A)
one_page xs zero = ok xs
one_page xs (suc page) = ok []

abbrev one_ledger : Horizon
one_ledger = record {
  transactions = λ sequence limit. one_page txs;
  operations = λ sequence limit. one_page ops;
  effects = λ sequence limit. one_page effs;
  ledger = ledger_answer;
  newest_ledgers = ok (ledger_of 9 ∷ []);
  network_passphrase = ok "Test SDF Network ; September 2015";
}

abbrev unreachable : ℕ → GetEventsRequest → Result GetEventsResponse
unreachable now q = throw (new_error "Service Unavailable")

abbrev api : StellarApi
api = record {
  endpoint = "https://horizon";
  soroban_client = some [];
  chain_id = none;
  page_limit = 150;
  allow_http = false;
}

-- The events of the ledger are cached.
abbrev cached : EventsCache
cached = (7, record { events = transfer_event ∷ []; latest_ledger = 9 }) ∷ []

abbrev no_block : IBlock
no_block = record {
  block = record {
    block = record {
      raw = ledger_of 0;
      effects = [];
      operations = [];
      transactions = [];
      events = [];
    };
    transactions = [];
    operations = [];
    effects = [];
    events = [];
  };
  header = record { block_height = 0; block_hash = ""; parent_hash = ""; timestamp = "" };
}

abbrev block_of : Option (Result IBlock × EventsCache) → IBlock
block_of none = no_block
block_of (some (throw e, cache)) = no_block
block_of (some (ok block, cache)) = block

the_ledger : IBlock
unfolding fetch_and_wrap_ledger
the_ledger = block_of (fetch_and_wrap_ledger unreachable (ok 9) one_ledger 2 0 api cached 7)

the_ledger-fetched :
    fetch_and_wrap_ledger unreachable (ok 9) one_ledger 2 0 api cached 7 ≡ some (ok the_ledger, [])
unfolding the_ledger fetch_and_wrap_ledger fetch_ledger_data fetch_ledger_events get_and_wrap_events
    get_events begin_get_events get remove wrap_event soroban_client assemble
    wrap_transactions_for_ledger wrap_transaction wrap_operations_for_tx wrap_operation wrap_effect
    effect_key set_transaction set_ledger set_transaction_ledger fetch_transactions_for_ledger
    fetch_operations_for_ledger fetch_effects_for_ledger fetch_pages format_block_util
    stellar_block_to_header write_all big_int before_dash read_digits to_decimal lookup insert
    push_group group_from try_group_from
the_ledger-fetched = refl

fetch_and_wrap_ledger-index_block_data_example :
    (d : LedgerData) × (events : List SorobanEvent) × (calls : List Call) × (fetch_ledger_data
        unreachable
        (ok 9)
        one_ledger
        2
        0
        api
        7
      ≡ some (ok d))
    × (fetch_ledger_events unreachable (ok 9) one_ledger 2 0 api cached 7 d.operations
        ≡ some (ok events, []))
    × ((s : List String)
        → index_block_data log_kind (runtime_ds ∷ []) the_ledger.block s ≡ run log_kind calls s)
    × (map raw_call calls
        ≡ block_raw_calls (runtime_ds ∷ []) d.ledger (
            map
              (expected d.operations d.effects (map (λ (e : SorobanEvent). e.raw) events))
              d.transactions))
fetch_and_wrap_ledger-index_block_data_example =
    fetch_and_wrap_ledger-index_block_data log_kind unreachable (ok 9) one_ledger 2 0 api cached []
      7 the_ledger (runtime_ds ∷ []) the_ledger-fetched
