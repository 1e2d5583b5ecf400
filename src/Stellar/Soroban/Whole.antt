-- ===== src/Stellar/Soroban/Whole.antt =====
-- packages/node/src/stellar/soroban.server.ts, `fetchEventsForSequence`: what it hands on for the cache.
use subql_stellar.Prelude.{
  ℕ, zero, suc, ◌≤◌, String, some, List, [], ◌∷◌, ◌++◌, Bool, true, false, ◌==◌, filter, length,
  last, is_empty, ◌≡◌, refl, ◌≢◌, ◌⊎◌, inl, inr, arith, Bool-cases, ==_iff, Option-cases,
  filter-append, append-nil, ap, ◌∙◌, sym, subst, subst₂, Result, ok, Result-cases,
}
use subql_stellar.Types.{EventResponse}
use subql_stellar.Stellar.Soroban.{
  GetEventsRequest, GetEventsResponse, FetchedEvents, is_at, is_elsewhere, exclude_last,
  next_request, fetch_events_for_sequence,
}
use subql_stellar.Stellar.Soroban.Server.{
  Within, IsOrdered, Serves, HonoursLimit, IsOrdered-right, limit_of,
}
use subql_stellar.Stellar.Soroban.Pages.{
  filter-at_of_empty, filter-at-elsewhere, filter-at-elsewhere_self,
}
use subql_stellar.Stellar.Soroban.Fetch.{
  over, page-over, page-spent, page-more, fetch-zero, fetch-throw, fetch-done, fetch-more,
  collected, eq-nil,
}
use subql_stellar.Stellar.Soroban.LastLedger.{
  All-at, exclude_last-short, IsWhole, exclude_last-IsWhole_full, some-elsewhere, ok-injective,
}

module _ (log : List EventResponse) (after : String → List EventResponse)
    (rpc : ℕ → GetEventsRequest → Result GetEventsResponse) (serves : Serves log after rpc)
    (honours : HonoursLimit after rpc) (sequence : ℕ) where
  page-IsWhole :
      (now ledger : ℕ) (q : GetEventsRequest) (r : GetEventsResponse)
      → rpc now q ≡ ok r
      → ledger ≢ sequence
      → IsOrdered (r.events ++ after r.cursor)
      → is_empty r.events ≡ false
      → IsWhole ledger
          (exclude_last (limit_of q) r.events (filter (is_elsewhere sequence) r.events))
          r.events
          (after r.cursor)
  page-IsWhole now ledger q r came n o some_here =
      elim (Bool-cases (length r.events == limit_of q)) [
        | inl full ↦
            exclude_last-IsWhole_full sequence (limit_of q) ledger r.events (after r.cursor) n o
              some_here full
        | inr short ↦
            rw
              (exclude_last-short (limit_of q) r.events (filter (is_elsewhere sequence) r.events)
                short)
              (elim (Bool-cases (is_empty (filter (is_at ledger) r.events))) [
                | inl absent ↦
                    inl (filter-at-elsewhere sequence ledger r.events n ∙ eq-nil _ absent)
                | inr present ↦ inr (
                  filter-at-elsewhere sequence ledger r.events n,
                  honours.short now q r came (ground (arith, honours.fits now q r came)) ledger
                      (All-at (Within q.end_ledger) ledger r.events (serves.bounded now q r came)
                        present)
                      (All-at (λ k. k ≤ r.latest_ledger) ledger r.events
                        (serves.settled now q r came) present),
                )
              ])
      ]

  -- None or all of the ledger's events among those left.
  abbrev pub CachesWhole : List EventResponse → FetchedEvents → Type 0
  CachesWhole rem f =
      (ledger : ℕ)
      → (filter (is_at ledger) f.events_to_cache.events ≡ [])
        ⊎ ((ledger ≢ sequence)
            × (filter (is_at ledger) f.events_to_cache.events ≡ filter (is_at ledger) rem))

  filter-at-filter :
      (p : EventResponse → Bool) (xs : List EventResponse)
      → filter (is_at sequence) xs ≡ []
      → filter (is_at sequence) (filter p xs) ≡ []
  filter-at-filter p [] h = refl
  filter-at-filter p (x ∷ xs) h = ground (arith, filter-at-filter p xs)

  exclude_last_self :
      (limit : ℕ) (page : List EventResponse)
      → filter (is_at sequence) (exclude_last limit page (filter (is_elsewhere sequence) page)) ≡ []
  unfolding exclude_last
  exclude_last_self limit page =
      let gone = filter-at-elsewhere_self sequence page in
      elim (Option-cases (last page)) [
        | inl none_last ↦ ground (arith, gone)
        | inr (e, l) ↦ ground (
          arith,
          gone,
          filter-at-filter (is_elsewhere e.ledger) (filter (is_elsewhere sequence) page),
        )
      ]

  over-CachesWhole :
      (now : ℕ) (q : GetEventsRequest) (r : GetEventsResponse) (news : List EventResponse)
      → rpc now q ≡ ok r
      → IsOrdered (r.events ++ after r.cursor)
      → is_empty r.events ≡ false
      → CachesWhole (r.events ++ after r.cursor) (over sequence (limit_of q) news r)
  over-CachesWhole now q r news came o some_here ledger = elim (Bool-cases (ledger == sequence)) [
    | inl same ↦ inl (
        subst
          (λ k.
            filter (is_at k)
              (exclude_last (limit_of q) r.events (filter (is_elsewhere sequence) r.events))
            ≡ [])
          (sym ((==_iff _ _).0 same)) (exclude_last_self (limit_of q) r.events))
    | inr other ↦
        let n : ledger ≢ sequence = ground arith in
        elim (page-IsWhole now ledger q r came n o some_here) [
          | inl nothing ↦ inl nothing
          | inr whole ↦ inr (
            n,
            whole.0
                ∙ sym (append-nil _)
                ∙ ap (◌++◌ (filter (is_at ledger) r.events)) (sym whole.1)
                ∙ sym (filter-append (is_at ledger) r.events (after r.cursor)),
          )
        ]
  ]

  CachesWhole-more :
      (page rest : List EventResponse) {rem : List EventResponse} (f : FetchedEvents)
      → page ++ rest ≡ rem
      → is_empty (filter (is_elsewhere sequence) page) ≡ true
      → CachesWhole rest f
      → CachesWhole rem f
  CachesWhole-more page rest f split alone h ledger = elim (h ledger) [
    | inl nothing ↦ inl nothing
    | inr (n, whole) ↦ inr (
      n,
      whole
          ∙ ap (λ l. l ++ filter (is_at ledger) rest)
              (sym (filter-at_of_empty sequence ledger page n alone))
          ∙ sym (filter-append (is_at ledger) page rest)
          ∙ ap (filter (is_at ledger)) split,
    )
  ]

  -- Where the server fills its pages up to the limit of the request, what the loop returns to be
  -- cached has of each ledger none of the events that were left on the server, or all; of the ledger
  -- that was asked for it has none.
  pub fetch-CachesWhole :
      (fuel now : ℕ) (q : GetEventsRequest) (acc rem : List EventResponse) (f : FetchedEvents)
      → ((r : GetEventsResponse) → rpc now q ≡ ok r → r.events ++ after r.cursor ≡ rem)
      → IsOrdered rem
      → fetch_events_for_sequence rpc fuel now sequence q acc ≡ some (ok f)
      → CachesWhole rem f
  unfolding next_request
  fetch-CachesWhole zero now q acc rem f next o runs =
      absurd (cc (fetch-zero rpc 0 now sequence q acc))
  fetch-CachesWhole (suc fuel) now q acc rem f next o runs = elim (Result-cases (rpc now q)) [
    | inr (e, failed) ↦ absurd (cc (fetch-throw rpc fuel now sequence q acc e failed))
    | inl (r, came) ↦
        let rest = after r.cursor in
        let split : r.events ++ rest ≡ rem = next r came in
        let o' : IsOrdered (r.events ++ rest) = subst IsOrdered (sym split) o in
        let news = collected rpc fuel now sequence q acc r in
        elim (Bool-cases (is_empty (filter (is_elsewhere sequence) r.events))) [
          | inr others ↦
              let done =
                fetch-done rpc fuel now sequence q acc r _ came
                  (page-over sequence (limit_of q) news r others) in
              subst₂ CachesWhole split (ok-injective (sym done ∙ runs))
                (over-CachesWhole now q r news came o' (some-elsewhere sequence r.events others))
          | inl alone ↦ elim (Bool-cases (is_empty r.events)) [
            | inl empty ↦
                let done =
                  fetch-done rpc fuel now sequence q acc r _ came
                    (page-spent sequence (limit_of q) news r alone empty) in
                subst (CachesWhole rem) (ok-injective (sym done ∙ runs)) (λ ledger. inl refl)
            | inr some_here ↦ CachesWhole-more r.events rest f split alone (
                fetch-CachesWhole fuel (suc now) (next_request q r.cursor) news rest f
                  (λ r' h. serves.goes_on (suc now) r.cursor _ r' refl h)
                  (IsOrdered-right r.events rest o')
                  (sym (
                      fetch-more rpc fuel now sequence q acc r came
                        (page-more sequence (limit_of q) news r alone some_here))
                    ∙ runs))
          ]
        ]
  ]
