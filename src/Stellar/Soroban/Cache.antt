-- ===== src/Stellar/Soroban/Cache.antt =====
-- What the cache holds after events are added to it and taken from it.
use subql_stellar.Prelude.{
  ℕ, String, Option, none, some, List, [], ◌∷◌, ◌++◌, true, false, ◌==◌, ◌===◌, if◌then◌else◌,
  filter, All, or_default, ◌≡◌, refl, sym, subst, All-middle, ◌∙◌, ap, inl, inr, arith, Bool-cases,
  ==_iff, eq_iff, eq_refl, append-nil, append_assoc,
}
use subql_stellar.Types.{EventResponse}
use subql_stellar.Stellar.Soroban.{
  CachedEventsResponse, EventsCache, get, put, remove, is_ignored, has_id, push_new, cache_event,
  cache_events, is_at,
}

pub get-put :
    (k j : ℕ) (v : CachedEventsResponse) (m : EventsCache)
    → get j (put k v m) ≡ (if k == j then some v else get j m)
unfolding get put
get-put k j v [] = refl
get-put k j v ((i, w) ∷ m) = ground (arith, get-put k j v m)

pub get-remove :
    (k j : ℕ) (m : EventsCache) → get j (remove k m) ≡ (if k == j then none else get j m)
unfolding get remove
get-remove k j [] = ground arith
get-remove k j ((i, w) ∷ m) = ground (arith, get-remove k j m)

-- The events that the cache holds of a ledger.
abbrev pub events_of : Option CachedEventsResponse → List EventResponse
events_of none = []
events_of (some c) = c.events

-- Pushing a list of events, each unless its id is there.
unfoldable pub push_all : List EventResponse → List EventResponse → List EventResponse
push_all ys [] = ys
push_all ys (x ∷ xs) = push_all (push_new x ys) xs

-- The ids of a list are distinct.
abbrev pub HasDistinctIds : List EventResponse → Type 0
HasDistinctIds [] = Unit
HasDistinctIds (e ∷ es) = All (λ x. (x.id === e.id) ≡ false) es × HasDistinctIds es

events-or_default :
    (latest : ℕ) (o : Option CachedEventsResponse)
    → (or_default o (record { events = []; latest_ledger = latest })).events ≡ events_of o
events-or_default latest none = refl
events-or_default latest (some c) = refl

module _ (latest : ℕ) (ignore : Option ℕ) where
  get-cache_event_at :
      (k : ℕ) (e : EventResponse) (m : EventsCache)
      → is_ignored ignore e.ledger ≡ false
      → is_at k e ≡ true
      → events_of (get k (cache_event latest ignore e m)) ≡ push_new e (events_of (get k m))
  unfolding cache_event
  get-cache_event_at k e m h at = rw h (
      rw (get-put, at)
        (ap (push_new e) (
          events-or_default latest (get e.ledger m)
          ∙ ap (λ j. events_of (get j m)) ((==_iff _ _).0 at))))

  pub get-cache_event_elsewhere :
      (k : ℕ) (e : EventResponse) (m : EventsCache)
      → is_at k e ≡ false
      → get k (cache_event latest ignore e m) ≡ get k m
  unfolding cache_event
  get-cache_event_elsewhere k e m at = elim (Bool-cases (is_ignored ignore e.ledger)) [
    | inl out ↦ rw out
    | inr kept ↦ rw kept (rw (get-put, at))
  ]

  -- The events of a ledger after the loop.
  pub events_of-cache_events :
      (k : ℕ) (es : List EventResponse) (m : EventsCache)
      → All (λ e. is_ignored ignore e.ledger ≡ false) es
      → events_of (get k (cache_events latest ignore es m))
        ≡ push_all (events_of (get k m)) (filter (is_at k) es)
  unfolding cache_events push_all
  events_of-cache_events k [] m h = refl
  events_of-cache_events k (e ∷ es) m h =
      let ih = events_of-cache_events k es (cache_event latest ignore e m) h.1 in
      elim (Bool-cases (is_at k e)) [
        | inl at ↦
            rw at
              (ih ∙ ap (λ y. push_all y (filter (is_at k) es)) (get-cache_event_at k e m h.0 at))
        | inr off ↦ rw off (
            ih
            ∙ ap (λ y. push_all (events_of y) (filter (is_at k) es))
                (get-cache_event_elsewhere k e m off))
      ]

  -- A ledger with no event among those added has the entry it had.
  pub get-cache_events_none :
      (k : ℕ) (es : List EventResponse) (m : EventsCache)
      → filter (is_at k) es ≡ []
      → get k (cache_events latest ignore es m) ≡ get k m
  unfolding cache_events
  get-cache_events_none k [] m h = refl
  get-cache_events_none k (e ∷ es) m h = elim (Bool-cases (is_at k e)) [
    | inl at ↦ absurd (ground arith)
    | inr off ↦
        get-cache_events_none k es (cache_event latest ignore e m) (rw off at h)
        ∙ get-cache_event_elsewhere k e m off
  ]

HasDistinctIds-fresh :
    (ys : List EventResponse) (x : EventResponse) (xs : List EventResponse)
    → HasDistinctIds (ys ++ x ∷ xs)
    → has_id x.id ys ≡ false
HasDistinctIds-fresh [] x xs h = refl
HasDistinctIds-fresh (y ∷ ys) x xs h =
    let other = All-middle (λ z. (z.id === y.id) ≡ false) ys x xs h.0 in
    ground (arith, other, eq_iff x.id y.id, eq_iff y.id x.id, HasDistinctIds-fresh ys x xs h.1)

-- Events whose ids are new are all pushed.
pub push_all_new :
    (ys xs : List EventResponse) → HasDistinctIds (ys ++ xs) → push_all ys xs ≡ ys ++ xs
unfolding push_all push_new
push_all_new ys [] h = sym (append-nil ys)
push_all_new ys (x ∷ xs) h = rw (HasDistinctIds-fresh ys x xs h) (
    push_all_new (ys ++ x ∷ []) xs (subst HasDistinctIds (sym (append_assoc ys (x ∷ []) xs)) h)
    ∙ append_assoc ys (x ∷ []) xs)

-- Events that are there already are not pushed again.
pub push_all_old :
    (ys xs : List EventResponse) → All (λ x. has_id x.id ys ≡ true) xs → push_all ys xs ≡ ys
unfolding push_all push_new
push_all_old ys [] h = refl
push_all_old ys (x ∷ xs) h = rw h.0 (push_all_old ys xs h.1)

has_id-append_left :
    (id : String) (xs ys : List EventResponse) → has_id id ys ≡ true → has_id id (xs ++ ys) ≡ true
has_id-append_left id [] ys h = h
has_id-append_left id (x ∷ xs) ys h = ground (arith, has_id-append_left id xs ys h)

All-has_id : (pre xs : List EventResponse) → All (λ x. has_id x.id (pre ++ xs) ≡ true) xs
All-has_id pre [] = tt
All-has_id pre (x ∷ xs) = (
  has_id-append_left x.id pre (x ∷ xs) (rw (eq_refl x.id)),
  subst (λ l. All (λ z. has_id z.id l ≡ true) xs) (append_assoc pre (x ∷ []) xs)
      (All-has_id (pre ++ x ∷ []) xs),
)

pub push_all_self : (xs : List EventResponse) → push_all xs xs ≡ xs
push_all_self xs = push_all_old xs xs (All-has_id [] xs)
