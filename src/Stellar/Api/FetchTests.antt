-- ===== src/Stellar/Api/FetchTests.antt =====
-- Fetching from a Horizon server with empty ledgers, and the theorems at it.
use subql_stellar.Prelude.{
  ℕ, Option, none, some, List, [], ◌∷◌, false, Result, ok, throw, new_error, map, ◌≡◌, ◌≢◌, refl,
  ap, JsNumber, arith, zero, suc, sym,
}
use subql_stellar.Types.{LedgerRecord, TransactionRecord, SorobanEvent}
use subql_stellar.Stellar.Soroban.{EventsCache, GetEventsRequest, GetEventsResponse}
use subql_stellar.Stellar.Utils.{IBlock, format_block_util, stellar_block_to_header}
use subql_stellar.Stellar.Api.{Horizon, StellarApi, soroban_client}
use subql_stellar.Stellar.Api.Paging.{
  fetch_pages, fetch_transactions_for_ledger, fetch_operations_for_ledger, fetch_effects_for_ledger,
  Pages, fetch_pages_lem,
}
use subql_stellar.Stellar.Api.Wrapping.{write_all, wrap_transactions_for_ledger}
use subql_stellar.Stellar.Api.Ledger.{
  assemble, fetch_ledger_data, fetch_ledger_events, fetch_and_wrap_ledger, fetch_blocks,
}
use subql_stellar.Stellar.Soroban.{get}
use subql_stellar.Stellar.Soroban.Complete.{IsComplete}
use subql_stellar.Stellar.Soroban.Example.{
  two_ledgers, after, serve, serve-Serves, serve-HonoursLimit, serve-IsClosed,
}
use subql_stellar.Stellar.Api.Ends.{HasPages, ReturnsComplete}
use subql_stellar.Stellar.Api.Returns.{
  IsLedgerEvents, fetch_blocks-ReturnsComplete, fetch_ledger_events-IsLedgerEvents,
}
use subql_stellar.Stellar.Api.Blocks.{fetch_blocks-no_client, fetch_blocks-heights}
use subql_stellar.Stellar.Api.Example.{ledger_of, ledger_answer, txs, ops}

-- A Horizon server with empty ledgers.
abbrev horizon : Horizon
horizon = record {
  transactions = λ sequence limit page. ok [];
  operations = λ sequence limit page. ok [];
  effects = λ sequence limit page. ok [];
  ledger = ledger_answer;
  newest_ledgers = ok (ledger_of 9 ∷ []);
  network_passphrase = ok "Test SDF Network ; September 2015";
}

abbrev no_events : ℕ → GetEventsRequest → Result GetEventsResponse
no_events now q = throw (new_error "start is after newest ledger")

abbrev api_with : Option EventsCache → StellarApi
api_with client = record {
  endpoint = "https://horizon";
  soroban_client = client;
  chain_id = none;
  page_limit = 150;
  allow_http = false;
}

abbrev blocks_of : Option (Result (List IBlock) × EventsCache) → List IBlock
blocks_of none = []
blocks_of (some (throw e, cache)) = []
blocks_of (some (ok blocks, cache)) = blocks

two_blocks : List IBlock
unfolding fetch_blocks
two_blocks =
    blocks_of (fetch_blocks no_events (ok 9) horizon 1 0 (api_with (some [])) [] (7 ∷ 8 ∷ []))

two_blocks-fetched :
    fetch_blocks no_events (ok 9) horizon 1 0 (api_with (some [])) [] (7 ∷ 8 ∷ [])
    ≡ some (ok two_blocks, [])
unfolding two_blocks fetch_blocks fetch_and_wrap_ledger fetch_ledger_data fetch_ledger_events
    soroban_client assemble wrap_transactions_for_ledger fetch_transactions_for_ledger
    fetch_operations_for_ledger fetch_effects_for_ledger fetch_pages format_block_util
    stellar_block_to_header write_all
two_blocks-fetched = refl

horizon-names : (s : ℕ) (l : LedgerRecord) → horizon.ledger (JsNumber.pos s) ≡ ok l → l.sequence ≡ s
horizon-names s l h = ap (λ (r : Result LedgerRecord). sequence_of r) (sym h)
  where
    sequence_of : Result LedgerRecord → ℕ
    sequence_of (ok l) = l.sequence
    sequence_of (throw e) = 0

fetch_blocks-heights_example : map (λ (b : IBlock). b.header.block_height) two_blocks ≡ 7 ∷ 8 ∷ []
fetch_blocks-heights_example =
    fetch_blocks-heights no_events (ok 9) horizon 1 0 (api_with (some [])) horizon-names [] []
      (7 ∷ 8 ∷ []) two_blocks two_blocks-fetched

fetch_blocks-no_client_example :
    fetch_blocks no_events (ok 9) horizon 1 0 (api_with none) [] (7 ∷ 8 ∷ [])
    ≢ some (ok two_blocks, [])
fetch_blocks-no_client_example =
    fetch_blocks-no_client no_events (ok 9) horizon 1 0 (api_with none) [] [] 7 (8 ∷ []) two_blocks
      refl

-- Two pages of transactions, and an empty one.
abbrev tx_pages : ℕ → Result (List TransactionRecord)
tx_pages zero = ok (record { hash = "t1"; source_account = "GA" } ∷ [])
tx_pages (suc zero) = ok (record { hash = "t2"; source_account = "GB" } ∷ [])
tx_pages (suc (suc i)) = ok []

tx_pages-Pages : Pages tx_pages 0 (ok txs)
tx_pages-Pages = Pages.more 0 _ _ refl refl (Pages.more 1 _ [] refl refl (Pages.end 2 refl))

fetch_pages_lem_example : fetch_pages 3 tx_pages 0 [] ≡ some (ok txs)
unfolding tx_pages-Pages
fetch_pages_lem_example = fetch_pages_lem tx_pages 3 (ok txs) tx_pages-Pages (omega arith)

empty_pages : {A : Type 0} → HasPages {A = A} 3 (λ page. ok [])
empty_pages = (ok [], Pages.end 0 refl, omega arith)

nothing_cached : IsComplete two_ledgers []
unfolding get
nothing_cached ledger c h = cc h

fetch_blocks-ReturnsComplete_example :
    ReturnsComplete two_ledgers
      (fetch_blocks serve (ok 9) horizon 3 0 (api_with (some [])) [] (5 ∷ 6 ∷ []))
fetch_blocks-ReturnsComplete_example =
    fetch_blocks-ReturnsComplete two_ledgers after serve serve-Serves serve-HonoursLimit (ok 9)
      horizon 3 0 (api_with (some [])) (omega arith) (λ s. empty_pages) (λ s. empty_pages)
      (λ s. empty_pages) [] (5 ∷ 6 ∷ [])
      (serve-IsClosed 5 (omega arith), (serve-IsClosed 6 (omega arith), tt)) nothing_cached

fetch_ledger_events-IsLedgerEvents_example :
    (res : Result (List SorobanEvent)) × (cache' : EventsCache) × (fetch_ledger_events serve
        (ok 9)
        horizon
        3
        0
        (api_with (some []))
        []
        5
        ops
      ≡ some (res, cache'))
    × IsLedgerEvents two_ledgers after serve serve-Serves serve-HonoursLimit
        (ok 9)
        horizon
        3
        0
        (api_with (some []))
        (omega arith)
        5
        ops
        res
    × IsComplete two_ledgers cache'
fetch_ledger_events-IsLedgerEvents_example =
    fetch_ledger_events-IsLedgerEvents two_ledgers after serve serve-Serves serve-HonoursLimit
      (ok 9) horizon 3 0 (api_with (some [])) (omega arith) [] 5 ops
      (serve-IsClosed 5 (omega arith)) nothing_cached
