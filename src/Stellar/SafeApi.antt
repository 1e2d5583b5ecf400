-- ===== src/Stellar/SafeApi.antt =====
-- packages/node/src/stellar/safe-api.ts: the provider that handlers may use, tied to one height, and
-- `getSafeApi` of packages/node/src/stellar/api.stellar.ts. Its base is the Soroban client.
use subql_stellar.Prelude.{
  ℕ, String, Option, none, some, Result, ok, throw, new_error, ◌>>=◌, ◌<+>◌,
}
use subql_stellar.Stellar.Soroban.{
  EventsCache, GetEventsRequest, GetEventsResponse, CachedEventsResponse, get_events,
}
use subql_stellar.Stellar.Api.{StellarApi, soroban_client}

-- The base API is the client of the `StellarApi`, whose event cache it shares; the SDK's constructor is
-- taken to succeed.
pub record SafeStellarProvider : Type 0 where
  pub block_height : ℕ

-- The methods without an implementation.
pub data SafeMethod : Type 0 where
  get_account get_health get_contract_data get_ledger_entries get_transaction : SafeMethod
  get_network get_latest_ledger simulate_transaction prepare_transaction : SafeMethod
  send_transaction request_airdrop : SafeMethod

abbrev pub method_name : SafeMethod → String
method_name get_account = "getAccount"
method_name get_health = "getHealth"
method_name get_contract_data = "getContractData"
method_name get_ledger_entries = "getLedgerEntries"
method_name get_transaction = "getTransaction"
method_name get_network = "getNetwork"
method_name get_latest_ledger = "getLatestLedger"
method_name simulate_transaction = "simulateTransaction"
method_name prepare_transaction = "prepareTransaction"
method_name send_transaction = "sendTransaction"
method_name request_airdrop = "requestAirdrop"

unfoldable pub call_method {ℓ} : {A : Type ℓ} → SafeMethod → Result A
call_method m = throw (new_error ("Method " <+> method_name m <+> " is not implemented."))

unfoldable pub get_safe_api : StellarApi → ℕ → Result SafeStellarProvider
unfolding soroban_client
get_safe_api api block_height = do
  base ← soroban_client api
  ok (record { block_height = block_height })

module _ (rpc : ℕ → GetEventsRequest → Result GetEventsResponse) (fuel now : ℕ) where
  -- `getEvents`; the request that is given is not looked at.
  unfoldable pub safe_get_events :
      EventsCache
      → SafeStellarProvider
      → GetEventsRequest
      → Option (Result CachedEventsResponse × EventsCache)
  safe_get_events cache provider request = get_events rpc fuel now cache (record {
    start_ledger = some provider.block_height;
    end_ledger = none;
    cursor = none;
    limit = none;
  })
