-- ===== src/Stellar/Soroban/Tests.antt =====
-- The theorems at the small server.
use subql_stellar.Prelude.{
  ℕ, some, [], ◌∷◌, ◌++◌, false, ◌==◌, filter, is_empty, ◌⊎◌, ◌≡◌, refl, ◌≢◌, arith, Result, ok,
  All, inl, inr, Bool-cases,
}
use subql_stellar.Stellar.Soroban.{
  GetEventsRequest, GetEventsResponse, CachedEventsResponse, FetchedEvents, EventsCache, get,
  get_events, is_at, begin_get_events, finish_get_events, update_event_cache,
  fetch_events_for_sequence, page_result, exclude_last, next_request, put, remove, cache_event,
  push_new,
}
use subql_stellar.Stellar.Soroban.Interleaving.{
  System, Step, Reach, start, begin, next, IsExact, Reach-IsExact,
}
use subql_stellar.Stellar.Soroban.Ledgers.{view, view_result, get_events_spec, view-get_events}
use subql_stellar.Stellar.Soroban.ShortPages.{page-partial}
use subql_stellar.Stellar.Soroban.Complete.{IsComplete, update_event_cache-IsComplete}
use subql_stellar.Stellar.Soroban.Events.{IsReply, get_events-IsReply}
use subql_stellar.Stellar.Soroban.Example.{
  event_at, two_ledgers, after, page, serve, serve-Answer, Answer-opens, serve-Serves,
  serve-HonoursLimit, serve-IsClosed, ask_for,
}

-- Ledger 5 is fetched, and ledger 6, that came with it, is cached.
abbrev six_cached : EventsCache
six_cached = (6, record { events = event_at "b" 6 ∷ []; latest_ledger = 9 }) ∷ []

get_events_test :
    get_events serve 3 0 [] (ask_for 5)
    ≡ some (ok (record { events = event_at "a" 5 ∷ []; latest_ledger = 9 }), six_cached)
unfolding get_events begin_get_events finish_get_events update_event_cache fetch_events_for_sequence
    page_result exclude_last next_request serve get put cache_event push_new
get_events_test = refl

get_events_cached_test :
    get_events serve 3 7 six_cached (ask_for 6)
    ≡ some (ok (record { events = event_at "b" 6 ∷ []; latest_ledger = 9 }), [])
unfolding get_events begin_get_events get remove
get_events_cached_test = refl

get_events-IsReply_example :
    (res : Result CachedEventsResponse) × (cache' : EventsCache) × (get_events serve 3 0 []
        (ask_for 5)
      ≡ some (res, cache'))
    × IsReply two_ledgers after serve serve-Serves serve-HonoursLimit 5 res
    × IsComplete two_ledgers cache'
unfolding get
get_events-IsReply_example =
    get_events-IsReply two_ledgers after serve serve-Serves serve-HonoursLimit 3 0 5 [] (ask_for 5)
      refl refl tt (serve-IsClosed 5 (omega arith)) (omega arith) (λ ledger c h. cc)

view-get_events_example :
    view_result (get_events serve 3 0 [] (ask_for 5))
    ≡ get_events_spec serve 3 0 (ask_for 5) (view [])
view-get_events_example = view-get_events serve 3 0 [] (ask_for 5)

-- Ledgers 5 and 6 asked for at once; the second call is answered first.
abbrev both_asked : System
both_asked = record {
  cache = [];
  pending =
      record { sequence = 6; request = record (ask_for 6) { end_ledger = some 7 } }
      ∷ record { sequence = 5; request = record (ask_for 5) { end_ledger = some 6 } }
      ∷ [];
  delivered = [];
}

abbrev six_done : System
six_done = record {
  cache = [];
  pending = record { sequence = 5; request = record (ask_for 5) { end_ledger = some 6 } } ∷ [];
  delivered = record { sequence = 6; events = event_at "b" 6 ∷ [] } ∷ [];
}

both_asked-Reach : Reach serve 3 both_asked
unfolding begin_get_events get
both_asked-Reach =
    next
      (next begin (
        Step.ask (start serve 3) (ask_for 5) (record (ask_for 5) { end_ledger = some 6 }) 5 refl tt
          (serve-IsClosed 5 (omega arith)) refl))
      (Step.ask _ (ask_for 6) (record (ask_for 6) { end_ledger = some 7 }) 6 refl tt
        (serve-IsClosed 6 (omega arith)) refl)

six_done-Reach : Reach serve 3 six_done
unfolding finish_get_events update_event_cache fetch_events_for_sequence page_result exclude_last
    next_request serve
six_done-Reach = next both_asked-Reach (
    Step.receive both_asked [] _
      (record { sequence = 6; request = record (ask_for 6) { end_ledger = some 7 } }) 0
      (record {
        events = record { events = event_at "b" 6 ∷ []; latest_ledger = 9 };
        events_to_cache = record { events = []; latest_ledger = 9 };
      })
      refl refl)

Reach-IsExact_example :
    All
      (IsExact two_ledgers after serve serve-Serves serve-HonoursLimit 3 (omega arith))
      six_done.delivered
Reach-IsExact_example =
    Reach-IsExact two_ledgers after serve serve-Serves serve-HonoursLimit 3 (omega arith) six_done
      six_done-Reach

-- A server that sends one event at a time, where 150 were asked for.
page-partial_example :
    (f : FetchedEvents) × (page_result 5 150 [] (page (event_at "b" 6 ∷ []) "1") ≡ some f)
    × (filter (is_at 6) f.events_to_cache.events ≡ filter (is_at 6) (event_at "b" 6 ∷ []))
    × (is_empty (filter (is_at 6) f.events_to_cache.events) ≡ false)
    × (filter (is_at 6) f.events_to_cache.events
        ≢ filter (is_at 6) (event_at "b" 6 ∷ event_at "c" 6 ∷ []))
page-partial_example =
    page-partial 5 150 [] (page (event_at "b" 6 ∷ []) "1") (event_at "c" 6 ∷ []) (event_at "b" 6)
      refl refl (omega arith) (λ e. cc)

abbrev five_only : GetEventsRequest
five_only = record (ask_for 5) { end_ledger = some 6 }

serve-five_only :
    (r : GetEventsResponse) → serve 0 five_only ≡ ok r → r.events ++ after r.cursor ≡ two_ledgers
serve-five_only r came = Answer-opens five_only r 5 refl refl (serve-Answer 0 five_only r came)

abbrev five_fetched : FetchedEvents
five_fetched = record {
  events = record { events = event_at "a" 5 ∷ []; latest_ledger = 9 };
  events_to_cache = record { events = event_at "b" 6 ∷ []; latest_ledger = 9 };
}

five_fetched-runs : fetch_events_for_sequence serve 3 0 5 five_only [] ≡ some (ok five_fetched)
unfolding fetch_events_for_sequence page_result exclude_last next_request serve
five_fetched-runs = refl

abbrev six_response : CachedEventsResponse
six_response = record { events = event_at "b" 6 ∷ []; latest_ledger = 9 }

six_response-IsWhole :
    (ledger : ℕ)
    → (filter (is_at ledger) six_response.events ≡ [])
      ⊎ (filter (is_at ledger) six_response.events ≡ filter (is_at ledger) two_ledgers)
six_response-IsWhole ledger = elim (Bool-cases (6 == ledger)) [
  | inr other ↦ inl (rw other refl)
  | inl same ↦ inr (let p : (5 == ledger) ≡ false = ground arith in rw (same, p) refl)
]

update_event_cache-IsComplete_example :
    IsComplete two_ledgers (update_event_cache six_response (some 5) [])
unfolding get
update_event_cache-IsComplete_example =
    update_event_cache-IsComplete two_ledgers [] 5 six_response ((refl, tt), (tt, tt))
      (λ ledger c h. cc) six_response-IsWhole refl
