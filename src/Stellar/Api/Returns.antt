-- ===== src/Stellar/Api/Returns.antt =====
-- packages/node/src/stellar/api.stellar.ts: the end of `fetchBlocks`, and the events that a ledger is given.
use subql_stellar.Prelude.{
  ℕ, ◌<◌, String, Option, none, some, List, [], ◌∷◌, true, if◌then◌else◌, Result, ok, throw, map,
  filter, length, All, ◌≡◌, refl, ap, ◌∙◌, Bool-cases, Result-cases, inl, inr, map-map, map_self,
}
use subql_stellar.Types.{EventResponse, OperationRecord, SorobanEvent}
use subql_stellar.Stellar.Soroban.{
  EventsCache, GetEventsRequest, GetEventsResponse, CachedEventsResponse, get_events, is_at,
}
use subql_stellar.Stellar.Soroban.Server.{Serves, HonoursLimit, IsClosed}
use subql_stellar.Stellar.Soroban.Complete.{IsComplete}
use subql_stellar.Stellar.Soroban.Events.{IsReply, get_events-IsReply}
use subql_stellar.Stellar.Api.{Horizon, StellarApi, soroban_client}
use subql_stellar.Stellar.Api.Paging.{
  fetch_transactions_for_ledger, fetch_operations_for_ledger, fetch_effects_for_ledger,
}
use subql_stellar.Stellar.Api.Ledger.{
  wrap_event, has_invoke_host_function, beside, soroban_error, LedgerData, assemble,
  fetch_ledger_data, get_and_wrap_events, recover, fetch_ledger_events, fetch_and_wrap_ledger,
  fetch_blocks,
}
use subql_stellar.Stellar.Api.Ends.{
  HasPages, Returns, fetch_pages-Returns, then_result-Returns, ReturnsComplete,
  then_cached-ReturnsComplete,
}

abbrev wrapped_reply : Result CachedEventsResponse → Result (List SorobanEvent)
wrapped_reply (ok c) = ok (map wrap_event c.events)
wrapped_reply (throw e) = throw e

module _ (log : List EventResponse) (after : String → List EventResponse)
    (rpc : ℕ → GetEventsRequest → Result GetEventsResponse) (serves : Serves log after rpc)
    (honours : HonoursLimit after rpc) (latest_ledger : Result ℕ) (horizon : Horizon) (fuel now : ℕ)
    (api : StellarApi) (enough : length log < fuel) where
  -- The events of the ledger in the log where an operation invokes a host function, else none.
  abbrev pub IsLedgerEvents : ℕ → List OperationRecord → Result (List SorobanEvent) → Type 0
  IsLedgerEvents sequence operations (ok events) =
      map (λ (e : SorobanEvent). e.raw) events
      ≡ (if has_invoke_host_function operations then filter (is_at sequence) log else [])
  IsLedgerEvents sequence operations (throw e) = Unit

  abbrev request_for : ℕ → GetEventsRequest
  request_for sequence = record {
    start_ledger = some sequence;
    end_ledger = none;
    cursor = none;
    limit = some api.page_limit;
  }

  get_and_wrap_events-reply :
      (cache cache' : EventsCache) (sequence : ℕ) (r : Result CachedEventsResponse)
      → get_events rpc fuel now cache (request_for sequence) ≡ some (r, cache')
      → get_and_wrap_events rpc latest_ledger horizon fuel now api cache sequence
        ≡ some (wrapped_reply r, cache')
  unfolding get_and_wrap_events
  get_and_wrap_events-reply cache cache' sequence (ok c) runs = rw runs refl
  get_and_wrap_events-reply cache cache' sequence (throw e) runs = rw runs refl

  raw-wrap_event :
      (es : List EventResponse) → map (λ (e : SorobanEvent). e.raw) (map wrap_event es) ≡ es
  unfolding wrap_event
  raw-wrap_event es = map-map _ _ es ∙ map_self es

  abbrev AreAt : ℕ → Result (List SorobanEvent) → Type 0
  AreAt sequence (ok events) =
      map (λ (e : SorobanEvent). e.raw) events ≡ filter (is_at sequence) log
  AreAt sequence (throw e) = Unit

  recover-AreAt :
      (cache : EventsCache) (sequence : ℕ) (r : Result CachedEventsResponse)
      → IsReply log after rpc serves honours sequence r
      → (res : Result (List SorobanEvent)) × (recover rpc latest_ledger horizon fuel now api
            sequence
            (some (wrapped_reply r, cache))
          ≡ some (res, cache))
        × AreAt sequence res
  recover-AreAt cache sequence (ok c) reply =
      (ok (map wrap_event c.events), refl, raw-wrap_event c.events ∙ reply)
  recover-AreAt cache sequence (throw e) reply =
      (throw (soroban_error latest_ledger sequence e), refl, tt)

  AreAt-IsLedgerEvents :
      (sequence : ℕ) (operations : List OperationRecord) (res : Result (List SorobanEvent))
      → has_invoke_host_function operations ≡ true
      → AreAt sequence res
      → IsLedgerEvents sequence operations res
  AreAt-IsLedgerEvents sequence operations (ok events) h at = rw h at
  AreAt-IsLedgerEvents sequence operations (throw e) h at = tt

  -- Of an RPC server that does what `Serves` and `HonoursLimit` say, from a complete cache and with fuel
  -- for the log: asking for the events of a closed ledger ends. Where it succeeds, the events
  -- are all those of the ledger in the RPC server's log, in its order, where an operation invokes
  -- a host function, and none otherwise; the cache stays complete.
  pub fetch_ledger_events-IsLedgerEvents :
      (cache : EventsCache) (sequence : ℕ) (operations : List OperationRecord)
      → IsClosed rpc sequence
      → IsComplete log cache
      → (res : Result (List SorobanEvent)) × (cache' : EventsCache) × (fetch_ledger_events rpc
            latest_ledger horizon fuel now api cache sequence operations
          ≡ some (res, cache'))
        × IsLedgerEvents sequence operations res
        × IsComplete log cache'
  unfolding fetch_ledger_events
  fetch_ledger_events-IsLedgerEvents cache sequence operations closed complete =
      elim (Result-cases (soroban_client api)) [
        | inr (e, refused) ↦ (throw e, cache, rw (refused, fetch_ledger_events) refl, tt, complete)
        | inl (client, given) ↦ elim (Bool-cases (has_invoke_host_function operations)) [
          | inr idle ↦
              (ok [], cache, rw (given, fetch_ledger_events) (rw idle refl), rw idle refl, complete)
          | inl called ↦
              let (r, cache', runs, reply, complete') =
                get_events-IsReply log after rpc serves honours fuel now sequence cache
                  (request_for sequence) refl refl tt closed enough complete in
              let (res, recovers, at) = recover-AreAt cache' sequence r reply in
              (
                res,
                cache',
                rw (given, fetch_ledger_events)
                    (rw called (
                      ap (recover rpc latest_ledger horizon fuel now api sequence)
                        (get_and_wrap_events-reply cache cache' sequence r runs)
                      ∙ recovers)),
                AreAt-IsLedgerEvents sequence operations res called at,
                complete',
              )
        ]
      ]

  module _ (transactions : (s : ℕ) → HasPages fuel (horizon.transactions s api.page_limit))
      (operations : (s : ℕ) → HasPages fuel (horizon.operations s api.page_limit))
      (effects : (s : ℕ) → HasPages fuel (horizon.effects s api.page_limit)) where
    fetch_ledger_data-Returns :
        (sequence : ℕ) → Returns (fetch_ledger_data rpc latest_ledger horizon fuel now api sequence)
    unfolding fetch_ledger_data fetch_transactions_for_ledger fetch_operations_for_ledger
        fetch_effects_for_ledger
    fetch_ledger_data-Returns sequence =
        then_result-Returns (some (horizon.ledger _)) _ (_, refl)
          λ ledger.
            then_result-Returns (fetch_transactions_for_ledger horizon api fuel sequence) _
              (fetch_pages-Returns fuel (horizon.transactions sequence api.page_limit)
                (transactions sequence))
              λ txs.
                then_result-Returns (fetch_operations_for_ledger horizon api fuel sequence) _
                  (fetch_pages-Returns fuel (horizon.operations sequence api.page_limit)
                    (operations sequence))
                  λ ops.
                    then_result-Returns (fetch_effects_for_ledger horizon api fuel sequence) _
                      (fetch_pages-Returns fuel (horizon.effects sequence api.page_limit)
                        (effects sequence))
                      λ effs. (_, refl)

    beside-ReturnsComplete :
        (cache : EventsCache) (m : Option (Result LedgerData))
        → Returns m
        → IsComplete log cache
        → ReturnsComplete log (beside cache m)
    beside-ReturnsComplete cache none h complete = cc (h.1)
    beside-ReturnsComplete cache (some r) h complete = (r, cache, refl, complete)

    fetch_and_wrap_ledger-ReturnsComplete :
        (cache : EventsCache) (sequence : ℕ)
        → IsClosed rpc sequence
        → IsComplete log cache
        → ReturnsComplete log
            (fetch_and_wrap_ledger rpc latest_ledger horizon fuel now api cache sequence)
    unfolding fetch_and_wrap_ledger
    fetch_and_wrap_ledger-ReturnsComplete cache sequence closed complete =
        then_cached-ReturnsComplete log
          (beside cache (fetch_ledger_data rpc latest_ledger horizon fuel now api sequence)) _
          (beside-ReturnsComplete cache _ (fetch_ledger_data-Returns sequence) complete)
          λ d c1 complete1.
            then_cached-ReturnsComplete log
              (fetch_ledger_events rpc latest_ledger horizon fuel now api c1 sequence d.operations)
              _
              (let (r, c2, e, events, complete2) =
                  fetch_ledger_events-IsLedgerEvents c1 sequence d.operations closed complete1 in
                (r, c2, e, complete2))
              λ events c2 complete2.
                then_cached-ReturnsComplete log
                  (some (assemble d.ledger d.transactions d.operations d.effects events, c2)) _
                  (_, c2, refl, complete2) λ block c3 complete3. (_, c3, refl, complete3)

    -- Of an RPC server that does what `Serves` and `HonoursLimit` say, from a complete cache and with
    -- fuel for the log and for Horizon's pages: fetching a batch of closed ledgers
    -- ends with blocks or an error, whatever the servers answer, and leaves the event cache complete.
    pub fetch_blocks-ReturnsComplete :
        (cache : EventsCache) (heights : List ℕ)
        → All (IsClosed rpc) heights
        → IsComplete log cache
        → ReturnsComplete log (fetch_blocks rpc latest_ledger horizon fuel now api cache heights)
    unfolding fetch_blocks
    fetch_blocks-ReturnsComplete cache [] closed complete = (ok [], cache, refl, complete)
    fetch_blocks-ReturnsComplete cache (s ∷ ss) closed complete =
        then_cached-ReturnsComplete log
          (fetch_and_wrap_ledger rpc latest_ledger horizon fuel now api cache s) _
          (fetch_and_wrap_ledger-ReturnsComplete cache s closed.0 complete)
          λ block c1 complete1.
            then_cached-ReturnsComplete log
              (fetch_blocks rpc latest_ledger horizon fuel now api c1 ss) _
              (fetch_blocks-ReturnsComplete c1 ss closed.1 complete1)
              λ blocks c2 complete2. (_, c2, refl, complete2)
