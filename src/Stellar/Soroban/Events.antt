-- ===== src/Stellar/Soroban/Events.antt =====
-- packages/node/src/stellar/soroban.server.ts, `getEvents`: its answers, fetched and cached.
use subql_stellar.Prelude.{
  ℕ, ◌+◌, ◌<◌, ◌≤◌, String, none, some, List, [], filter, length, ◌≡◌, refl, inl, inr, arith,
  or_default, Option-cases, ◌∙◌, Result, ok, throw, JsError, dec_lt, filter_sound,
}
use subql_stellar.Types.{EventResponse}
use subql_stellar.Stellar.Soroban.{
  GetEventsRequest, GetEventsResponse, CachedEventsResponse, FetchedEvents, EventsCache, is_at, get,
  remove, update_event_cache, fetch_events_for_sequence, begin_get_events, finish_get_events,
  get_events,
}
use subql_stellar.Stellar.Soroban.Server.{
  Within, Serves, HonoursLimit, IsClosed, is_from, IsOrdered-filter,
}
use subql_stellar.Stellar.Soroban.Fetch.{IsFetched, fetch-IsFetched}
use subql_stellar.Stellar.Soroban.Whole.{CachesWhole, fetch-CachesWhole}
use subql_stellar.Stellar.Soroban.Complete.{
  IsComplete, IsWhole, update_event_cache-IsComplete, remove-IsComplete, filter-at-from,
  filter-at-from_before, length-filter-le, Within-default,
}

module _ (log : List EventResponse) (after : String → List EventResponse)
    (rpc : ℕ → GetEventsRequest → Result GetEventsResponse) (serves : Serves log after rpc)
    (honours : HonoursLimit after rpc) where
  -- An error that the server gave.
  abbrev pub IsServerError : JsError → Type 0
  IsServerError e = (when : ℕ) × (q : GetEventsRequest) × (rpc when q ≡ throw e)

  -- All events of the ledger to return, whole other ledgers to cache; or an error of the server's.
  abbrev pub IsGood : ℕ → Result FetchedEvents → Type 0
  IsGood sequence (ok f) =
      (f.events.events ≡ filter (is_at sequence) log)
      × IsWhole log f.events_to_cache.events
      × (filter (is_at sequence) f.events_to_cache.events ≡ [])
  IsGood sequence (throw e) = IsServerError e

  IsWhole-from :
      (sequence : ℕ) (f : FetchedEvents)
      → CachesWhole log after rpc serves honours sequence (filter (is_from sequence) log) f
      → IsWhole log f.events_to_cache.events
  IsWhole-from sequence f h ledger = elim (h ledger) [
    | inl nothing ↦ inl nothing
    | inr (_, all) ↦ elim (dec_lt ledger sequence) [
      | yes before ↦ inl (all ∙ filter-at-from_before sequence ledger log before)
      | no from ↦ inr (all ∙ filter-at-from sequence ledger log (omega (arith, from)))
    ]
  ]

  none_self :
      (sequence : ℕ) (f : FetchedEvents)
      → CachesWhole log after rpc serves honours sequence (filter (is_from sequence) log) f
      → filter (is_at sequence) f.events_to_cache.events ≡ []
  none_self sequence f h = elim (h sequence) [
    | inl nothing ↦ nothing
    | inr (other, _) ↦ absurd (other refl)
  ]

  module _ (sequence : ℕ) (closed : IsClosed rpc sequence) (fuel now : ℕ) (q : GetEventsRequest)
      (start : q.start_ledger ≡ some sequence) (fresh : q.cursor ≡ none)
      (within : Within q.end_ledger sequence) (enough : length log < fuel) where
    IsGood-of_fetched :
        (res : Result FetchedEvents)
        → fetch_events_for_sequence rpc fuel now sequence q [] ≡ some res
        → IsFetched log after rpc serves sequence closed [] (filter (is_from sequence) log) res
        → IsGood sequence res
    IsGood-of_fetched (throw e) runs h = h
    IsGood-of_fetched (ok f) runs h =
        let whole =
          fetch-CachesWhole log after rpc serves honours sequence fuel now q [] _ f
            (λ r came. serves.opens now sequence q r fresh start came)
            (IsOrdered-filter (is_from sequence) log serves.ordered) runs in
        (
          h ∙ filter-at-from sequence sequence log (omega arith),
          IsWhole-from sequence f whole,
          none_self sequence f whole,
        )

    pub fetch-IsGood :
        (res : Result FetchedEvents) × (fetch_events_for_sequence rpc fuel now sequence q []
          ≡ some res)
        × IsGood sequence res
    fetch-IsGood =
        let (res, runs, h) =
          fetch-IsFetched log after rpc serves sequence closed fuel now q []
            (filter (is_from sequence) log)
            (λ r came. serves.opens now sequence q r fresh start came) within
            (IsOrdered-filter (is_from sequence) log serves.ordered)
            (filter_sound (is_from sequence) (λ e. sequence ≤ e.ledger) (λ e from. ground arith)
              log)
            (omega (arith, length-filter-le (is_from sequence) log)) in
        (res, runs, IsGood-of_fetched res runs h)

  -- What `getEvents` owes its caller.
  abbrev pub IsReply : ℕ → Result CachedEventsResponse → Type 0
  IsReply sequence (ok c) = c.events ≡ filter (is_at sequence) log
  IsReply sequence (throw e) = IsServerError e

  after_fetch : EventsCache → ℕ → Result FetchedEvents → Result CachedEventsResponse × EventsCache
  after_fetch cache sequence (ok f) =
      (ok f.events, update_event_cache f.events_to_cache (some sequence) cache)
  after_fetch cache sequence (throw e) = (throw e, cache)

  after_fetch_good :
      (cache : EventsCache) (sequence : ℕ) (res : Result FetchedEvents)
      → IsComplete log cache
      → IsGood sequence res
      → IsReply sequence (after_fetch cache sequence res).0
        × IsComplete log (after_fetch cache sequence res).1
  unfolding after_fetch
  after_fetch_good cache sequence (ok f) complete (events, whole, gone) = (
    events,
    update_event_cache-IsComplete log cache sequence f.events_to_cache serves.distinct complete
        whole gone,
  )
  after_fetch_good cache sequence (throw e) complete h = (h, complete)

  module _ (fuel now sequence : ℕ) (cache : EventsCache) (q : GetEventsRequest)
      (start : q.start_ledger ≡ some sequence) where
    get_events-hit :
        (c : CachedEventsResponse)
        → get sequence cache ≡ some c
        → get_events rpc fuel now cache q ≡ some (ok c, remove sequence cache)
    unfolding get_events begin_get_events
    get_events-hit c found = ground arith

    get_events-miss :
        (res : Result FetchedEvents)
        → get sequence cache ≡ none
        → fetch_events_for_sequence rpc fuel now sequence
            (record q { end_ledger = some (or_default q.end_ledger (sequence + 1)) })
            []
          ≡ some res
        → get_events rpc fuel now cache q ≡ some (after_fetch cache sequence res)
    unfolding get_events begin_get_events finish_get_events after_fetch
    get_events-miss (ok f) absent runs = ground arith
    get_events-miss (throw e) absent runs = ground arith

  -- Of an RPC server that does what `Serves` and `HonoursLimit` say, from a complete cache and with
  -- fuel for the log: `getEvents` of a closed ledger ends; it returns all events of the ledger
  -- in the order of the log, and no other, be they cached or fetched, or fails with an error of the
  -- server's; and the cache stays complete.
  pub get_events-IsReply :
      (fuel now sequence : ℕ) (cache : EventsCache) (q : GetEventsRequest)
      → q.start_ledger ≡ some sequence
      → q.cursor ≡ none
      → Within q.end_ledger sequence
      → IsClosed rpc sequence
      → length log < fuel
      → IsComplete log cache
      → (res : Result CachedEventsResponse) × (cache' : EventsCache) × (get_events rpc fuel now
            cache q
          ≡ some (res, cache'))
        × IsReply sequence res
        × IsComplete log cache'
  get_events-IsReply fuel now sequence cache q start fresh within closed enough complete =
      elim (Option-cases (get sequence cache)) [
        | inr (c, found) ↦ (
          ok c,
          remove sequence cache,
          get_events-hit fuel now sequence cache q start c found,
          complete sequence c found,
          remove-IsComplete log cache sequence complete,
        )
        | inl absent ↦
            let q' = record q { end_ledger = some (or_default q.end_ledger (sequence + 1)) } in
            let (res, runs, good) =
              fetch-IsGood sequence closed fuel now q' start fresh
                (Within-default sequence q.end_ledger within) enough in
            let (reply, kept) = after_fetch_good cache sequence res complete good in
            (
              (after_fetch cache sequence res).0,
              (after_fetch cache sequence res).1,
              get_events-miss fuel now sequence cache q start res absent runs,
              reply,
              kept,
            )
      ]
