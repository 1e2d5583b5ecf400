-- ===== src/Stellar/Soroban/Server.antt =====
-- What the Soroban RPC server's documentation promises of `getEvents`, as hypotheses: it pages
-- through one log of events in ledger order, a cursor stands for a place in the log, the first
-- request names a ledger to start from and may name one to stop before.
use subql_stellar.Prelude.{
  ℕ, ◌<◌, ◌≤◌, String, Option, none, some, List, [], ◌∷◌, ◌++◌, Bool, Result, ok, filter, length,
  All, leb, or_default, ◌≡◌, arith, last, Bool-cases, inl, inr, All-filter, subst, some-injective,
}
use subql_stellar.Types.{EventResponse}
use subql_stellar.Stellar.Soroban.{GetEventsRequest, GetEventsResponse, default_page_size, is_at}
use subql_stellar.Stellar.Soroban.Cache.{HasDistinctIds}

abbrev pub limit_of : GetEventsRequest → ℕ
limit_of q = or_default q.limit default_page_size

-- A ledger before the one that a request stops at.
abbrev pub Within : Option ℕ → ℕ → Type 0
Within none ledger = Unit
Within (some end) ledger = ledger < end

-- No event of a ledger that the request covers, and that was closed at the response, is left.
abbrev pub IsDrained : GetEventsRequest → GetEventsResponse → List EventResponse → Type 0
IsDrained q r later =
    (ledger : ℕ)
    → Within q.end_ledger ledger
    → ledger ≤ r.latest_ledger
    → filter (is_at ledger) later ≡ []

abbrev pub IsOrdered : List EventResponse → Type 0
IsOrdered [] = Unit
IsOrdered (e ∷ es) = All (λ x. e.ledger ≤ x.ledger) es × IsOrdered es

abbrev pub is_from : ℕ → EventResponse → Bool
is_from start e = leb start e.ledger

pub record Serves (log : List EventResponse) (after : String → List EventResponse)
    (rpc : ℕ → GetEventsRequest → Result GetEventsResponse) : Type 0 where
  pub ordered : IsOrdered log
  pub distinct : HasDistinctIds log
  pub opens :
      (now start : ℕ) (q : GetEventsRequest) (r : GetEventsResponse)
      → q.cursor ≡ none
      → q.start_ledger ≡ some start
      → rpc now q ≡ ok r
      → r.events ++ after r.cursor ≡ filter (is_from start) log
  pub goes_on :
      (now : ℕ) (c : String) (q : GetEventsRequest) (r : GetEventsResponse)
      → q.cursor ≡ some c
      → rpc now q ≡ ok r
      → r.events ++ after r.cursor ≡ after c
  pub settled :
      (now : ℕ) (q : GetEventsRequest) (r : GetEventsResponse)
      → rpc now q ≡ ok r
      → All (λ e. e.ledger ≤ r.latest_ledger) r.events
  pub bounded :
      (now : ℕ) (q : GetEventsRequest) (r : GetEventsResponse)
      → rpc now q ≡ ok r
      → All (λ e. Within q.end_ledger e.ledger) r.events
  pub drained :
      (now : ℕ) (q : GetEventsRequest) (r : GetEventsResponse)
      → rpc now q ≡ ok r
      → r.events ≡ []
      → IsDrained q r (after r.cursor)

-- A server that takes the client's limit: it sends no more, and sends less only where there is no
-- more. One with a smaller limit of its own does not.
pub record HonoursLimit (after : String → List EventResponse)
    (rpc : ℕ → GetEventsRequest → Result GetEventsResponse) : Type 0 where
  pub fits :
      (now : ℕ) (q : GetEventsRequest) (r : GetEventsResponse)
      → rpc now q ≡ ok r
      → length r.events ≤ limit_of q
  pub short :
      (now : ℕ) (q : GetEventsRequest) (r : GetEventsResponse)
      → rpc now q ≡ ok r
      → length r.events < limit_of q
      → IsDrained q r (after r.cursor)

-- The ledger is closed at each response.
abbrev pub IsClosed : (ℕ → GetEventsRequest → Result GetEventsResponse) → ℕ → Type 0
IsClosed rpc ledger =
    (now : ℕ) (q : GetEventsRequest) (r : GetEventsResponse)
    → rpc now q ≡ ok r
    → ledger ≤ r.latest_ledger

pub IsOrdered-right : (xs ys : List EventResponse) → IsOrdered (xs ++ ys) → IsOrdered ys
IsOrdered-right [] ys h = h
IsOrdered-right (x ∷ xs) ys h = IsOrdered-right xs ys h.1

pub IsOrdered-filter :
    (p : EventResponse → Bool) (xs : List EventResponse) → IsOrdered xs → IsOrdered (filter p xs)
IsOrdered-filter p [] h = tt
IsOrdered-filter p (x ∷ xs) h = elim (Bool-cases (p x)) [
  | inl keep ↦ rw keep (All-filter p _ xs h.0, IsOrdered-filter p xs h.1)
  | inr drop ↦ rw drop (IsOrdered-filter p xs h.1)
]

-- What follows a list in order is not before its last event.
pub last-le-later :
    (xs ys : List EventResponse) (e : EventResponse)
    → IsOrdered (xs ++ ys)
    → last xs ≡ some e
    → All (λ y. e.ledger ≤ y.ledger) ys
last-le-later [] ys e h l = absurd (ground arith)
last-le-later (x ∷ []) ys e h l =
    subst (λ (y : EventResponse). All (λ z. y.ledger ≤ z.ledger) ys) (some-injective x e l) h.0
last-le-later (x ∷ y ∷ xs) ys e h l = last-le-later (y ∷ xs) ys e h.1 l

-- Nor is any event of the list after its last.
pub le-last :
    (xs : List EventResponse) (e : EventResponse)
    → IsOrdered xs
    → last xs ≡ some e
    → All (λ x. x.ledger ≤ e.ledger) xs
le-last [] e h l = tt
le-last (x ∷ []) e h l =
    subst (λ (y : EventResponse). All (λ z. z.ledger ≤ y.ledger) (x ∷ [])) (some-injective x e l)
      (omega arith, tt)
le-last (x ∷ y ∷ xs) e h l =
    let later = le-last (y ∷ xs) e h.1 l in (omega (arith, h.0.0, later.0), later)
