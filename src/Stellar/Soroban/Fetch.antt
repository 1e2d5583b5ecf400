-- ===== src/Stellar/Soroban/Fetch.antt =====
-- packages/node/src/stellar/soroban.server.ts, `fetchEventsForSequence`: the recursion over the pages, and
-- what it returns of the ledger asked for.
use subql_stellar.Prelude.{
  ℕ, zero, suc, ◌<◌, ◌≤◌, String, none, some, List, [], ◌∷◌, ◌++◌, true, false, filter, length, All,
  is_empty, ◌≡◌, refl, inl, inr, arith, Bool-cases, All-right, filter-append, append-nil,
  append_assoc, ap, ◌∙◌, sym, subst, Result, ok, throw, JsError, Result-cases, length-append,
}
use subql_stellar.Types.{EventResponse}
use subql_stellar.Stellar.Soroban.{
  GetEventsRequest, GetEventsResponse, FetchedEvents, is_at, is_elsewhere, exclude_last,
  page_result, next_request, fetch_events_for_sequence,
}
use subql_stellar.Stellar.Soroban.Server.{
  Within, IsOrdered, Serves, IsClosed, IsOrdered-right, limit_of,
}
use subql_stellar.Stellar.Soroban.Pages.{filter-at-later}

-- The three ways in which a page is used.
module _ (sequence limit : ℕ) (new_events : List EventResponse) (r : GetEventsResponse) where
  abbrev pub to_cache : List EventResponse
  to_cache = filter (is_elsewhere sequence) r.events

  abbrev pub over : FetchedEvents
  over = record {
    events = record { events = new_events; latest_ledger = r.latest_ledger };
    events_to_cache = record {
      events = exclude_last limit r.events to_cache;
      latest_ledger = r.latest_ledger;
    };
  }

  abbrev pub spent : FetchedEvents
  spent = record {
    events = record { events = new_events; latest_ledger = r.latest_ledger };
    events_to_cache = record { events = []; latest_ledger = r.latest_ledger };
  }

  pub page-over : is_empty to_cache ≡ false → page_result sequence limit new_events r ≡ some over
  unfolding page_result
  page-over h = rw h

  pub page-spent :
      is_empty to_cache ≡ true
      → is_empty r.events ≡ true
      → page_result sequence limit new_events r ≡ some spent
  unfolding page_result
  page-spent h e = rw (h, e)

  pub page-more :
      is_empty to_cache ≡ true
      → is_empty r.events ≡ false
      → page_result sequence limit new_events r ≡ none
  unfolding page_result
  page-more h e = rw (h, e)

module _ (rpc : ℕ → GetEventsRequest → Result GetEventsResponse) (fuel now sequence : ℕ)
    (q : GetEventsRequest) (acc : List EventResponse) where
  abbrev pub collected : GetEventsResponse → List EventResponse
  collected r = acc ++ filter (is_at sequence) r.events

  pub fetch-zero : fetch_events_for_sequence rpc zero now sequence q acc ≡ none
  unfolding fetch_events_for_sequence
  fetch-zero = refl

  pub fetch-throw :
      (e : JsError)
      → rpc now q ≡ throw e
      → fetch_events_for_sequence rpc (suc fuel) now sequence q acc ≡ some (throw e)
  unfolding fetch_events_for_sequence
  fetch-throw e h = ground arith

  pub fetch-done :
      (r : GetEventsResponse) (f : FetchedEvents)
      → rpc now q ≡ ok r
      → page_result sequence (limit_of q) (collected r) r ≡ some f
      → fetch_events_for_sequence rpc (suc fuel) now sequence q acc ≡ some (ok f)
  unfolding fetch_events_for_sequence
  fetch-done r f h p = ground arith

  pub fetch-more :
      (r : GetEventsResponse)
      → rpc now q ≡ ok r
      → page_result sequence (limit_of q) (collected r) r ≡ none
      → fetch_events_for_sequence rpc (suc fuel) now sequence q acc
        ≡ fetch_events_for_sequence rpc fuel
            (suc now)
            sequence
            (next_request q r.cursor)
            (collected r)
  unfolding fetch_events_for_sequence
  fetch-more r h p = ground arith

pub length-pos : (xs : List EventResponse) → is_empty xs ≡ false → 0 < length xs
length-pos [] h = cc
length-pos (x ∷ xs) h = omega arith

pub eq-nil : (xs : List EventResponse) → is_empty xs ≡ true → xs ≡ []
eq-nil [] h = refl
eq-nil (x ∷ xs) h = cc

-- What is collected from a page with nothing left behind it, and what is left to collect.
collected-whole :
    (sequence : ℕ) (acc page rest : List EventResponse) {rem : List EventResponse}
    → page ++ rest ≡ rem
    → filter (is_at sequence) rest ≡ []
    → acc ++ filter (is_at sequence) page ≡ acc ++ filter (is_at sequence) rem
collected-whole sequence acc page rest split none_left = ap (◌++◌ acc) (
    sym (append-nil _)
    ∙ ap (◌++◌ (filter (is_at sequence) page)) (sym none_left)
    ∙ sym (filter-append (is_at sequence) page rest)
    ∙ ap (filter (is_at sequence)) split)

collected-more :
    (sequence : ℕ) (acc page rest : List EventResponse) {rem : List EventResponse}
    → page ++ rest ≡ rem
    → (acc ++ filter (is_at sequence) page) ++ filter (is_at sequence) rest
      ≡ acc ++ filter (is_at sequence) rem
collected-more sequence acc page rest split =
    append_assoc acc _ _
    ∙ ap (◌++◌ acc)
        (sym (filter-append (is_at sequence) page rest) ∙ ap (filter (is_at sequence)) split)

module _ (log : List EventResponse) (after : String → List EventResponse)
    (rpc : ℕ → GetEventsRequest → Result GetEventsResponse) (serves : Serves log after rpc)
    (sequence : ℕ) (closed : IsClosed rpc sequence) where
  -- The events of the ledger among those left, or an error of the server's.
  abbrev pub IsFetched : List EventResponse → List EventResponse → Result FetchedEvents → Type 0
  IsFetched acc rem (ok f) = f.events.events ≡ acc ++ filter (is_at sequence) rem
  IsFetched acc rem (throw e) = (when : ℕ) × (q : GetEventsRequest) × (rpc when q ≡ throw e)

  IsFetched-more :
      (acc page rest : List EventResponse) {rem : List EventResponse}
      → page ++ rest ≡ rem
      → (res : Result FetchedEvents) → IsFetched (acc ++ filter (is_at sequence) page) rest res
      → IsFetched acc rem res
  IsFetched-more acc page rest split (ok f) h = h ∙ collected-more sequence acc page rest split
  IsFetched-more acc page rest split (throw e) h = h

  -- With fuel for the events that are left on the server, the loop of `fetchEventsForSequence` over a
  -- closed ledger ends, whatever the sizes of the pages; it returns what it was given and all events
  -- of the ledger among those left, in their order, or throws an error of the server's.
  pub fetch-IsFetched :
      (fuel now : ℕ) (q : GetEventsRequest) (acc rem : List EventResponse)
      → ((r : GetEventsResponse) → rpc now q ≡ ok r → r.events ++ after r.cursor ≡ rem)
      → Within q.end_ledger sequence
      → IsOrdered rem
      → All (λ e. sequence ≤ e.ledger) rem
      → length rem < fuel
      → (res : Result FetchedEvents) × (fetch_events_for_sequence rpc fuel now sequence q acc
          ≡ some res)
        × IsFetched acc rem res
  unfolding next_request
  fetch-IsFetched zero now q acc rem next within o low short = absurd (omega arith)
  fetch-IsFetched (suc fuel) now q acc rem next within o low short =
      elim (Result-cases (rpc now q)) [
        | inr (e, failed) ↦
            (throw e, fetch-throw rpc fuel now sequence q acc e failed, (now, q, failed))
        | inl (r, came) ↦
            let rest = after r.cursor in
            let split : r.events ++ rest ≡ rem = next r came in
            let o' : IsOrdered (r.events ++ rest) = subst IsOrdered (sym split) o in
            let low' : All (λ e. sequence ≤ e.ledger) (r.events ++ rest) =
              subst (All (λ e. sequence ≤ e.ledger)) (sym split) low in
            let news = collected rpc fuel now sequence q acc r in
            elim (Bool-cases (is_empty (filter (is_elsewhere sequence) r.events))) [
              | inr others ↦ (
                ok (over sequence (limit_of q) news r),
                fetch-done rpc fuel now sequence q acc r _ came
                    (page-over sequence (limit_of q) news r others),
                collected-whole sequence acc r.events rest split
                    (filter-at-later sequence r.events rest o' low' others),
              )
              | inl alone ↦ elim (Bool-cases (is_empty r.events)) [
                | inl empty ↦ (
                  ok (spent sequence (limit_of q) news r),
                  fetch-done rpc fuel now sequence q acc r _ came
                      (page-spent sequence (limit_of q) news r alone empty),
                  collected-whole sequence acc r.events rest split (
                      serves.drained now q r came (eq-nil _ empty) sequence within
                        (closed now q r came)),
                )
                | inr some_here ↦
                    let (res, runs, good) =
                      fetch-IsFetched fuel (suc now) (next_request q r.cursor) news rest
                        (λ r' h. serves.goes_on (suc now) r.cursor _ r' refl h) tt
                        (IsOrdered-right r.events rest o') (All-right _ r.events rest low')
                        (omega (
                          arith,
                          ap length split,
                          length-append r.events rest,
                          length-pos r.events some_here,
                        )) in
                    (
                      res,
                      fetch-more rpc fuel now sequence q acc r came
                            (page-more sequence (limit_of q) news r alone some_here)
                          ∙ runs,
                      IsFetched-more acc r.events rest split res good,
                    )
              ]
            ]
      ]
