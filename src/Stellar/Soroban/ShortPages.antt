-- ===== src/Stellar/Soroban/ShortPages.antt =====
-- packages/node/src/stellar/soroban.server.ts, `fetchEventsForSequence`, of a server with a lower limit.
use subql_stellar.Prelude.{
  ℕ, some, List, [], ◌∷◌, ◌++◌, false, ◌==◌, filter, length, last, is_empty, ◌≡◌, ◌≢◌, refl, sym,
  ap, ◌∙◌, some-injective, arith, filter-append, length-append,
}
use subql_stellar.Types.{EventResponse}
use subql_stellar.Stellar.Soroban.{
  GetEventsResponse, FetchedEvents, is_at, is_elsewhere, page_result,
}
use subql_stellar.Stellar.Soroban.Pages.{filter-at-elsewhere}
use subql_stellar.Stellar.Soroban.LastLedger.{exclude_last-short}
use subql_stellar.Stellar.Soroban.Fetch.{over, page-over}

last-elsewhere :
    (sequence : ℕ) (xs : List EventResponse) (e : EventResponse)
    → last xs ≡ some e
    → e.ledger ≢ sequence
    → is_empty (filter (is_elsewhere sequence) xs) ≡ false
last-elsewhere sequence [] e l n = cc
last-elsewhere sequence (x ∷ []) e l n = ground arith
last-elsewhere sequence (x ∷ y ∷ xs) e l n = ground (arith, last-elsewhere sequence (y ∷ xs) e l n)

append-ne_self : (xs ys : List EventResponse) → ys ≢ [] → xs ≢ xs ++ ys
append-ne_self xs [] n e = n refl
append-ne_self xs (y ∷ ys) n e = absurd (omega (arith, ap length e, length-append xs (y ∷ ys)))

last-at :
    (xs : List EventResponse) (e : EventResponse)
    → last xs ≡ some e
    → is_empty (filter (is_at e.ledger) xs) ≡ false
last-at [] e l = cc
last-at (x ∷ []) e l = ground (arith, ap (λ (e : EventResponse). e.ledger) (some-injective x e l))
last-at (x ∷ y ∷ xs) e l = ground (arith, last-at (y ∷ xs) e l)

-- Where a page goes over the ledger asked for, and ends in a ledger of which events are left for a
-- later page, while its length is not the client's limit, then a part of that ledger is cached: exactly
-- the page's events of it, which are some, but not all that the page and the later ones have.
pub page-partial :
    (sequence limit : ℕ) (new_events : List EventResponse) (r : GetEventsResponse)
    (later : List EventResponse) (e : EventResponse)
    → last r.events ≡ some e
    → (length r.events == limit) ≡ false
    → e.ledger ≢ sequence
    → filter (is_at e.ledger) later ≢ []
    → (f : FetchedEvents) × (page_result sequence limit new_events r ≡ some f)
      × (filter (is_at e.ledger) f.events_to_cache.events ≡ filter (is_at e.ledger) r.events)
      × (is_empty (filter (is_at e.ledger) f.events_to_cache.events) ≡ false)
      × (filter (is_at e.ledger) f.events_to_cache.events
          ≢ filter (is_at e.ledger) (r.events ++ later))
page-partial sequence limit new_events r later e l short n left =
    let cached = over sequence limit new_events r in
    let part : filter (is_at e.ledger) cached.events_to_cache.events
        ≡ filter (is_at e.ledger) r.events =
      rw (exclude_last-short limit r.events (filter (is_elsewhere sequence) r.events) short)
        (filter-at-elsewhere sequence e.ledger r.events n) in
    (
      cached,
      page-over sequence limit new_events r (last-elsewhere sequence r.events e l n),
      part,
      ap is_empty part ∙ last-at r.events e l,
      λ same.
          append-ne_self (filter (is_at e.ledger) r.events) (filter (is_at e.ledger) later) left
            (sym part ∙ same ∙ filter-append (is_at e.ledger) r.events later),
    )
