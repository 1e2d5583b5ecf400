-- ===== src/Stellar/Soroban.antt =====
-- packages/node/src/stellar/soroban.server.ts: the RPC client with its cache of events by ledger.
-- The SDK's `rpc.Server.getEvents` is the parameter `rpc`: what the server answers to a request as
-- the given number of requests has been made before. The recursion of `fetchEventsForSequence`
-- takes fuel; `none` means that the fuel ran out.
pub mod Cache
pub mod Server
pub mod Pages
pub mod Fetch
pub mod LastLedger
pub mod Whole
pub mod ShortPages
pub mod Complete
pub mod Events
pub mod Interleaving
pub mod Ledgers
pub mod Example
mod Tests
use subql_stellar.Prelude.{
  ℕ, zero, suc, ◌+◌, String, Option, none, some, List, [], ◌∷◌, ◌++◌, Bool, true, false, not, ◌&&◌,
  ◌==◌, ◌===◌, if◌then◌else◌, or_default, filter, any, last, length, is_empty, Result, ok, throw,
  JsError, new_error,
}
use subql_stellar.Types.{EventResponse}

-- packages/node/src/stellar/utils.stellar.ts, `DEFAULT_PAGE_SIZE`
abbrev pub default_page_size : ℕ
default_page_size = 150

pub record GetEventsRequest : Type 0 where
  pub start_ledger : Option ℕ
  pub end_ledger : Option ℕ
  pub cursor : Option String
  pub limit : Option ℕ

pub record GetEventsResponse : Type 0 where
  pub events : List EventResponse
  pub latest_ledger : ℕ
  pub cursor : String

pub record CachedEventsResponse : Type 0 where
  pub events : List EventResponse
  pub latest_ledger : ℕ

-- The result of `fetchEventsForSequence`.
pub record FetchedEvents : Type 0 where
  pub events : CachedEventsResponse
  pub events_to_cache : CachedEventsResponse

abbrev pub is_at : ℕ → EventResponse → Bool
is_at sequence e = e.ledger == sequence

abbrev pub is_elsewhere : ℕ → EventResponse → Bool
is_elsewhere sequence e = not (e.ledger == sequence)

-- The events of a full page's last ledger are left out of the cache.
unfoldable pub exclude_last : ℕ → List EventResponse → List EventResponse → List EventResponse
exclude_last page_limit events to_cache =
    if length events == page_limit
    then (elim (last events) [ none ↦ to_cache | some e ↦ filter (is_elsewhere e.ledger) to_cache ])
    else to_cache

-- One response: the result, or `none` where the next page is asked for.
unfoldable pub page_result : ℕ → ℕ → List EventResponse → GetEventsResponse → Option FetchedEvents
page_result sequence page_limit new_events r =
    let to_cache = filter (is_elsewhere sequence) r.events in
    if not (is_empty to_cache)
    then some (record {
      events = record { events = new_events; latest_ledger = r.latest_ledger };
      events_to_cache = record {
        events = exclude_last page_limit r.events to_cache;
        latest_ledger = r.latest_ledger;
      };
    })
    else if is_empty r.events
    then some (record {
      events = record { events = new_events; latest_ledger = r.latest_ledger };
      events_to_cache = record { events = []; latest_ledger = r.latest_ledger };
    })
    else none

unfoldable pub next_request : GetEventsRequest → String → GetEventsRequest
next_request request cursor = record request {
  cursor = some cursor;
  start_ledger = none;
  end_ledger = none;
}

module _ (rpc : ℕ → GetEventsRequest → Result GetEventsResponse) where
  unfoldable pub fetch_events_for_sequence :
      ℕ → ℕ → ℕ → GetEventsRequest → List EventResponse → Option (Result FetchedEvents)
  fetch_events_for_sequence zero now sequence request acc_events = none
  fetch_events_for_sequence (suc fuel) now sequence request acc_events = elim (rpc now request) [
    | throw e ↦ some (throw e)
    | ok response ↦
        elim (page_result sequence (or_default request.limit default_page_size)
          (acc_events ++ filter (is_at sequence) response.events) response) [
            | some fetched ↦ some (ok fetched)
            | none ↦
                fetch_events_for_sequence fuel (suc now) sequence
                  (next_request request response.cursor)
                  (acc_events ++ filter (is_at sequence) response.events)
          ]
  ]

-- `this.eventsCache`
abbrev pub EventsCache : Type 0
EventsCache = List (ℕ × CachedEventsResponse)

unfoldable pub get : ℕ → EventsCache → Option CachedEventsResponse
get k [] = none
get k ((j, v) ∷ m) = if j == k then some v else get k m

unfoldable pub put : ℕ → CachedEventsResponse → EventsCache → EventsCache
put k v [] = (k, v) ∷ []
put k v ((j, w) ∷ m) = if j == k then (k, v) ∷ m else (j, w) ∷ put k v m

-- `delete this.eventsCache[k]`
unfoldable pub remove : ℕ → EventsCache → EventsCache
remove k [] = []
remove k ((j, w) ∷ m) = if j == k then remove k m else (j, w) ∷ remove k m

-- `ignoreHeight && ignoreHeight === event.ledger`
abbrev pub is_ignored : Option ℕ → ℕ → Bool
is_ignored none ledger = false
is_ignored (some h) ledger = not (h == 0) && (h == ledger)

abbrev pub has_id : String → List EventResponse → Bool
has_id id events = any (λ existing. existing.id === id) events

-- `push` unless an event with the id is there
unfoldable pub push_new : EventResponse → List EventResponse → List EventResponse
push_new event events = if has_id event.id events then events else events ++ event ∷ []

-- The body of the loop of `updateEventCache`.
unfoldable pub cache_event : ℕ → Option ℕ → EventResponse → EventsCache → EventsCache
cache_event latest_ledger ignore_height event cache =
    let empty : CachedEventsResponse = record { events = []; latest_ledger = latest_ledger } in
    let entry = or_default (get event.ledger cache) empty in
    if is_ignored ignore_height event.ledger
    then cache
    else put event.ledger (record entry { events = push_new event entry.events }) cache

unfoldable pub cache_events : ℕ → Option ℕ → List EventResponse → EventsCache → EventsCache
cache_events latest_ledger ignore_height [] cache = cache
cache_events latest_ledger ignore_height (e ∷ es) cache =
    cache_events latest_ledger ignore_height es (cache_event latest_ledger ignore_height e cache)

unfoldable pub update_event_cache : CachedEventsResponse → Option ℕ → EventsCache → EventsCache
unfolding cache_events
update_event_cache response ignore_height cache =
    cache_events response.latest_ledger ignore_height response.events cache

-- What `getEvents` does before it waits for the server: it fails, answers from the cache, or goes
-- on to fetch the sequence by a request.
pub data Begun : Type 0 where
  failed : JsError → Begun
  hit : CachedEventsResponse → EventsCache → Begun
  miss : ℕ → GetEventsRequest → Begun

unfoldable pub begin_get_events : EventsCache → GetEventsRequest → Begun
begin_get_events cache request = elim request.start_ledger [
  | none ↦ failed (new_error "Get soraban event failed, block sequence is missing")
  | some sequence ↦ elim (get sequence cache) [
    | some cached ↦ hit cached (remove sequence cache)
    | none ↦
        miss sequence
          (record request { end_ledger = some (or_default request.end_ledger (sequence + 1)) })
  ]
]

-- What it does when the events are there.
unfoldable pub finish_get_events :
    EventsCache → ℕ → FetchedEvents → CachedEventsResponse × EventsCache
finish_get_events cache sequence fetched =
    (fetched.events, update_event_cache fetched.events_to_cache (some sequence) cache)

module _ (rpc : ℕ → GetEventsRequest → Result GetEventsResponse) where
  -- `getEvents` with nothing in between; the cache is kept where it throws.
  unfoldable pub get_events :
      ℕ → ℕ → EventsCache → GetEventsRequest → Option (Result CachedEventsResponse × EventsCache)
  get_events fuel now cache request = elim (begin_get_events cache request) [
    | failed e ↦ some (throw e, cache)
    | hit cached cache' ↦ some (ok cached, cache')
    | miss sequence request' ↦ elim (fetch_events_for_sequence rpc fuel now sequence request' []) [
      | none ↦ none
      | some (throw e) ↦ some (throw e, cache)
      | some (ok fetched) ↦
          let (events, cache') = finish_get_events cache sequence fetched in
          some (ok events, cache')
    ]
  ]
