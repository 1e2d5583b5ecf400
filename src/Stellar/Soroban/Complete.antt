-- ===== src/Stellar/Soroban/Complete.antt =====
-- packages/node/src/stellar/soroban.server.ts, `updateEventCache`: a cache that holds whole ledgers.
use subql_stellar.Prelude.{
  ℕ, ◌+◌, ◌<◌, ◌≤◌, Option, none, some, List, [], ◌∷◌, Bool, false, ◌==◌, filter, length, All, ap₂,
  ◌≡◌, refl, ◌⊎◌, inl, inr, arith, Bool-cases, or_default, Option-cases, ap, ◌∙◌, sym, All-filter,
}
use subql_stellar.Types.{EventResponse}
use subql_stellar.Stellar.Soroban.{
  CachedEventsResponse, EventsCache, is_at, get, remove, is_ignored, cache_events,
  update_event_cache,
}
use subql_stellar.Stellar.Soroban.Cache.{
  HasDistinctIds, events_of, push_all, events_of-cache_events, get-cache_events_none, push_all_new,
  push_all_self, get-remove,
}
use subql_stellar.Stellar.Soroban.Server.{Within, is_from}

-- Each entry of the cache has all the events of its ledger.
abbrev pub IsComplete : List EventResponse → EventsCache → Type 0
IsComplete log cache =
    (ledger : ℕ) (c : CachedEventsResponse)
    → get ledger cache ≡ some c
    → c.events ≡ filter (is_at ledger) log

pub HasDistinctIds-filter :
    (p : EventResponse → Bool) (xs : List EventResponse)
    → HasDistinctIds xs
    → HasDistinctIds (filter p xs)
HasDistinctIds-filter p [] h = tt
HasDistinctIds-filter p (x ∷ xs) h = elim (Bool-cases (p x)) [
  | inl keep ↦ rw keep (All-filter p _ xs h.0, HasDistinctIds-filter p xs h.1)
  | inr drop ↦ rw drop (HasDistinctIds-filter p xs h.1)
]

pub not-ignored :
    (sequence : ℕ) (es : List EventResponse)
    → filter (is_at sequence) es ≡ []
    → All (λ e. is_ignored (some sequence) e.ledger ≡ false) es
not-ignored sequence [] h = tt
not-ignored sequence (e ∷ es) h = (ground arith, not-ignored sequence es (ground arith))

-- Of each ledger the list has none of the log's events or all.
abbrev pub IsWhole : List EventResponse → List EventResponse → Type 0
IsWhole log es =
    (ledger : ℕ)
    → (filter (is_at ledger) es ≡ []) ⊎ (filter (is_at ledger) es ≡ filter (is_at ledger) log)

-- Events that have of each ledger none of the log's or all, and none of the ledger that was asked
-- for, keep the cache complete: whatever ledger is cached, it is cached with exactly its events in the
-- log, where the log's ids are distinct.
pub update_event_cache-IsComplete :
    (log : List EventResponse) (cache : EventsCache) (sequence : ℕ)
    (response : CachedEventsResponse)
    → HasDistinctIds log
    → IsComplete log cache
    → IsWhole log response.events
    → filter (is_at sequence) response.events ≡ []
    → IsComplete log (update_event_cache response (some sequence) cache)
unfolding update_event_cache
update_event_cache-IsComplete log cache sequence response distinct complete whole gone ledger c
      found =
    let es = response.events in
    let after = cache_events response.latest_ledger (some sequence) es cache in
    let here : c.events ≡ events_of (get ledger after) = ap events_of (sym found) in
    let pushed =
      here
      ∙ events_of-cache_events response.latest_ledger (some sequence) ledger es cache
          (not-ignored sequence es gone) in
    elim (whole ledger) [
      | inl absent ↦ complete ledger c (
          sym (get-cache_events_none response.latest_ledger (some sequence) ledger es cache absent)
          ∙ found)
      | inr all ↦ elim (Option-cases (get ledger cache)) [
        | inl new ↦
            pushed
            ∙ ap (λ o. push_all (events_of o) (filter (is_at ledger) es)) new
            ∙ ap (push_all []) all
            ∙ push_all_new [] _ (HasDistinctIds-filter (is_at ledger) log distinct)
        | inr (old, known) ↦
            pushed
            ∙ ap₂ push_all (ap events_of known ∙ complete ledger old known) all
            ∙ push_all_self _
      ]
    ]

pub remove-IsComplete :
    (log : List EventResponse) (cache : EventsCache) (k : ℕ)
    → IsComplete log cache
    → IsComplete log (remove k cache)
remove-IsComplete log cache k complete ledger c found = elim (Bool-cases (k == ledger)) [
  | inl same ↦ absurd (cc (rw (get-remove, same) at found))
  | inr other ↦ complete ledger c (rw (get-remove, other) at found)
]

-- The events of a ledger are among those from it on.
pub filter-at-from :
    (start ledger : ℕ) (log : List EventResponse)
    → start ≤ ledger
    → filter (is_at ledger) (filter (is_from start) log) ≡ filter (is_at ledger) log
filter-at-from start ledger [] h = refl
filter-at-from start ledger (x ∷ log) h = ground (arith, filter-at-from start ledger log h)

pub filter-at-from_before :
    (start ledger : ℕ) (log : List EventResponse)
    → ledger < start
    → filter (is_at ledger) (filter (is_from start) log) ≡ []
filter-at-from_before start ledger [] h = refl
filter-at-from_before start ledger (x ∷ log) h =
    ground (arith, filter-at-from_before start ledger log h)

pub length-filter-le :
    (p : EventResponse → Bool) (log : List EventResponse) → length (filter p log) ≤ length log
length-filter-le p [] = omega arith
length-filter-le p (x ∷ log) = ground (arith, length-filter-le p log)

pub Within-default :
    (sequence : ℕ) (end : Option ℕ)
    → Within end sequence
    → Within (some (or_default end (sequence + 1))) sequence
Within-default sequence none h = omega arith
Within-default sequence (some e) h = h
