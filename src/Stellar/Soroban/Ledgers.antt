-- ===== src/Stellar/Soroban/Ledgers.antt =====
-- packages/node/src/stellar/soroban.server.ts, `getEvents`: its cache as a map from ledgers, without the loops
-- over an association list.
use subql_stellar.Prelude.{
  ℕ, ◌+◌, Option, none, some, List, [], ◌∷◌, Bool, true, false, ◌==◌, if◌then◌else◌, or_default,
  filter, Result, ok, throw, new_error, ◌≡◌, refl, sym, ap, fun_ext, ◌∙◌, Bool-cases, inl, inr,
  ==_iff, Option-cases,
}
use subql_stellar.Types.{EventResponse}
use subql_stellar.Stellar.Soroban.{
  GetEventsRequest, GetEventsResponse, CachedEventsResponse, FetchedEvents, EventsCache, is_at, get,
  remove, is_ignored, push_new, cache_event, cache_events, update_event_cache,
  fetch_events_for_sequence, begin_get_events, finish_get_events, get_events,
}
use subql_stellar.Stellar.Soroban.Cache.{push_all, get-put, get-remove, get-cache_event_elsewhere}

abbrev pub Ledgers : Type 0
Ledgers = ℕ → Option CachedEventsResponse

abbrev pub view : EventsCache → Ledgers
view cache ledger = get ledger cache

abbrev pub without : ℕ → Ledgers → Ledgers
without sequence m ledger = if sequence == ledger then none else m ledger

-- The entry of a ledger, with events of the ledger added whose ids are new.
abbrev pub merged :
    ℕ → Option CachedEventsResponse → List EventResponse → Option CachedEventsResponse
merged latest entry [] = entry
merged latest none (e ∷ es) =
    some (record { events = push_all [] (e ∷ es); latest_ledger = latest })
merged latest (some c) (e ∷ es) = some (record c { events = push_all c.events (e ∷ es) })

abbrev pub add_events : CachedEventsResponse → ℕ → Ledgers → Ledgers
add_events response sequence m ledger =
    merged response.latest_ledger (m ledger)
      (if is_ignored (some sequence) ledger then [] else filter (is_at ledger) response.events)

abbrev pub after_fetch :
    ℕ → Ledgers → Option (Result FetchedEvents) → Option (Result CachedEventsResponse × Ledgers)
after_fetch sequence m none = none
after_fetch sequence m (some (throw e)) = some (throw e, m)
after_fetch sequence m (some (ok f)) = some (ok f.events, add_events f.events_to_cache sequence m)

module _ (rpc : ℕ → GetEventsRequest → Result GetEventsResponse) (fuel now : ℕ)
    (request : GetEventsRequest) where
  abbrev pub at_entry :
      ℕ → Ledgers → Option CachedEventsResponse → Option (Result CachedEventsResponse × Ledgers)
  at_entry sequence m (some cached) = some (ok cached, without sequence m)
  at_entry sequence m none = after_fetch sequence m (
      fetch_events_for_sequence rpc fuel now sequence
        (record request { end_ledger = some (or_default request.end_ledger (sequence + 1)) }) [])

  abbrev pub at_start : Option ℕ → Ledgers → Option (Result CachedEventsResponse × Ledgers)
  at_start none m =
      some (throw (new_error "Get soraban event failed, block sequence is missing"), m)
  at_start (some sequence) m = at_entry sequence m (m sequence)

  -- `getEvents` on a map.
  abbrev pub get_events_spec : Ledgers → Option (Result CachedEventsResponse × Ledgers)
  get_events_spec m = at_start request.start_ledger m

merged_one :
    (latest : ℕ) (entry : Option CachedEventsResponse) (e : EventResponse)
    → some (record (or_default entry (record { events = []; latest_ledger = latest })) {
      events =
          push_new e (or_default entry (record { events = []; latest_ledger = latest })).events;
    })
      ≡ merged latest entry (e ∷ [])
unfolding push_all
merged_one latest none e = refl
merged_one latest (some c) e = refl

merged-cons :
    (latest : ℕ) (entry : Option CachedEventsResponse) (e : EventResponse) (es : List EventResponse)
    → merged latest (merged latest entry (e ∷ [])) es ≡ merged latest entry (e ∷ es)
unfolding push_all
merged-cons latest none e [] = refl
merged-cons latest none e (x ∷ es) = refl
merged-cons latest (some c) e [] = refl
merged-cons latest (some c) e (x ∷ es) = refl

module _ (latest : ℕ) (ignore : Option ℕ) (ledger : ℕ) where
  abbrev kept : List EventResponse → List EventResponse
  kept es = if is_ignored ignore ledger then [] else filter (is_at ledger) es

  nothing_kept :
      (b : Bool) {entry : Option CachedEventsResponse}
      → entry ≡ merged latest entry (if b then [] else [])
  nothing_kept true = refl
  nothing_kept false = refl

  get-cache_event :
      (e : EventResponse) (cache : EventsCache)
      → get ledger (cache_event latest ignore e cache)
        ≡ merged latest (get ledger cache) (kept (e ∷ []))
  unfolding cache_event push_all
  get-cache_event e cache = elim (Bool-cases (is_at ledger e)) [
    | inr off ↦
        get-cache_event_elsewhere latest ignore ledger e cache off
        ∙ rw off (nothing_kept (is_ignored ignore ledger))
    | inl at ↦
        let same = (==_iff e.ledger ledger).0 at in
        let ignored = ap (is_ignored ignore) same in
        elim (Bool-cases (is_ignored ignore e.ledger)) [
          | inl out ↦ rw (out, sym ignored ∙ out) refl
          | inr in_it ↦
              rw (in_it, sym ignored ∙ in_it, at)
                (rw (get-put, at)
                  (ap
                      (λ n.
                        some
                          (record (or_default (get n cache)
                            (record { events = []; latest_ledger = latest })) {
                              events =
                                  push_new e
                                    (or_default (get n cache)
                                      (record { events = []; latest_ledger = latest })).events;
                            }))
                      same
                    ∙ merged_one latest (get ledger cache) e))
        ]
  ]

  merged-merged :
      (entry : Option CachedEventsResponse) (e : EventResponse) (es : List EventResponse)
      → merged latest (merged latest entry (kept (e ∷ []))) (kept es)
        ≡ merged latest entry (kept (e ∷ es))
  unfolding push_all
  merged-merged entry e es = elim (Bool-cases (is_ignored ignore ledger)) [
    | inl out ↦ rw out refl
    | inr in_it ↦ elim (Bool-cases (is_at ledger e)) [
      | inl at ↦ rw (in_it, at) (merged-cons latest entry e (filter (is_at ledger) es))
      | inr off ↦ rw (in_it, off) refl
    ]
  ]

  get-cache_events :
      (es : List EventResponse) (cache : EventsCache)
      → get ledger (cache_events latest ignore es cache)
        ≡ merged latest (get ledger cache) (kept es)
  unfolding cache_events
  get-cache_events [] cache = nothing_kept (is_ignored ignore ledger)
  get-cache_events (e ∷ es) cache =
      get-cache_events es (cache_event latest ignore e cache)
      ∙ ap (λ entry. merged latest entry (kept es)) (get-cache_event e cache)
      ∙ merged-merged (get ledger cache) e es

view-update_event_cache :
    (response : CachedEventsResponse) (sequence : ℕ) (cache : EventsCache)
    → view (update_event_cache response (some sequence) cache)
      ≡ add_events response sequence (view cache)
unfolding update_event_cache
view-update_event_cache response sequence cache =
    fun_ext (λ ledger.
      get-cache_events response.latest_ledger (some sequence) ledger response.events cache)

view-remove :
    (sequence : ℕ) (cache : EventsCache)
    → view (remove sequence cache) ≡ without sequence (view cache)
view-remove sequence cache = fun_ext (λ ledger. get-remove sequence ledger cache)

-- A result with the cache as a map.
abbrev pub view_result :
    Option (Result CachedEventsResponse × EventsCache)
    → Option (Result CachedEventsResponse × Ledgers)
view_result none = none
view_result (some (r, cache)) = some (r, view cache)

-- `getEvents` over the association list does what the specification does on the map that the list stands for,
-- to the answer and to the map that is left, also where it throws or the fuel runs out.
pub view-get_events :
    (rpc : ℕ → GetEventsRequest → Result GetEventsResponse) (fuel now : ℕ) (cache : EventsCache)
    (request : GetEventsRequest)
    → view_result (get_events rpc fuel now cache request)
      ≡ get_events_spec rpc fuel now request (view cache)
unfolding get_events begin_get_events finish_get_events
view-get_events rpc fuel now cache request = elim (Option-cases request.start_ledger) [
  | inl absent ↦ rw (absent, get_events, begin_get_events) refl
  | inr (sequence, start) ↦ elim (Option-cases (get sequence cache)) [
    | inr (c, found) ↦
        rw (start, get_events, begin_get_events)
          (rw (found, get_events, begin_get_events)
            (ap (λ m. some (ok c, m)) (view-remove sequence cache)))
    | inl missing ↦
        simp (start, get_events, begin_get_events)
          (simp (missing, get_events, begin_get_events)
            (fetched sequence (
              fetch_events_for_sequence rpc fuel now sequence
                (record request {
                  end_ledger = some (or_default request.end_ledger (sequence + 1));
                })
                [])))
  ]
]
  where
    fetched :
        (sequence : ℕ) (answer : Option (Result FetchedEvents))
        → view_result (elim answer [
          | none ↦ none
          | some (throw e) ↦ some (throw e, cache)
          | some (ok f) ↦
              let (events, cache') = finish_get_events cache sequence f in some (ok events, cache')
        ])
          ≡ after_fetch sequence (view cache) answer
    fetched sequence none = refl
    fetched sequence (some (throw e)) = refl
    fetched sequence (some (ok f)) =
        ap (λ m. some (ok f.events, m)) (view-update_event_cache f.events_to_cache sequence cache)
