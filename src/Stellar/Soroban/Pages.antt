-- ===== src/Stellar/Soroban/Pages.antt =====
-- One page of events: which of them belong to a ledger, and what that says of the later ones.
use subql_stellar.Prelude.{
  ℕ, ◌<◌, ◌≤◌, List, [], ◌∷◌, ◌++◌, true, false, filter, All, is_empty, ◌≡◌, refl, ◌≢◌, inl, inr,
  arith, Bool-cases, filter-eq-nil, All-mono, All-right,
}
use subql_stellar.Types.{EventResponse}
use subql_stellar.Stellar.Soroban.{is_at, is_elsewhere}
use subql_stellar.Stellar.Soroban.Server.{IsOrdered}

-- Events after a ledger are not at it.
pub filter-at_of_lt :
    (ledger : ℕ) (xs : List EventResponse)
    → All (λ x. ledger < x.ledger) xs
    → filter (is_at ledger) xs ≡ []
filter-at_of_lt ledger xs h =
    filter-eq-nil (is_at ledger) xs (All-mono (λ x (lt : ledger < x.ledger). ground arith) xs h)

-- A page with an event of another ledger has all that are left of the ledger asked for.
pub filter-at-later :
    (sequence : ℕ) (xs ys : List EventResponse)
    → IsOrdered (xs ++ ys)
    → All (λ x. sequence ≤ x.ledger) (xs ++ ys)
    → is_empty (filter (is_elsewhere sequence) xs) ≡ false
    → filter (is_at sequence) ys ≡ []
filter-at-later sequence [] ys o h e = cc
filter-at-later sequence (x ∷ xs) ys o h e = elim (Bool-cases (is_at sequence x)) [
  | inl at ↦ filter-at-later sequence xs ys o.1 h.1 (rw at at e)
  | inr off ↦
      let later : x.ledger ≢ sequence = ground arith in
      filter-at_of_lt sequence ys (
        All-mono (λ y (le : x.ledger ≤ y.ledger). omega (arith, later, h.0)) ys
          (All-right _ xs ys o.0))
]

-- A page of the ledger asked for alone has no event of another.
pub filter-at_of_empty :
    (sequence ledger : ℕ) (xs : List EventResponse)
    → ledger ≢ sequence
    → is_empty (filter (is_elsewhere sequence) xs) ≡ true
    → filter (is_at ledger) xs ≡ []
filter-at_of_empty sequence ledger [] n e = refl
filter-at_of_empty sequence ledger (x ∷ xs) n e = elim (Bool-cases (is_at sequence x)) [
  | inl at ↦ ground (arith, filter-at_of_empty sequence ledger xs n (rw at at e))
  | inr off ↦ ground arith
]

-- The events of one ledger among those of the others.
pub filter-at-elsewhere :
    (sequence ledger : ℕ) (xs : List EventResponse)
    → ledger ≢ sequence
    → filter (is_at ledger) (filter (is_elsewhere sequence) xs) ≡ filter (is_at ledger) xs
filter-at-elsewhere sequence ledger [] n = refl
filter-at-elsewhere sequence ledger (x ∷ xs) n =
    ground (arith, filter-at-elsewhere sequence ledger xs n)

pub filter-at-elsewhere_self :
    (ledger : ℕ) (xs : List EventResponse)
    → filter (is_at ledger) (filter (is_elsewhere ledger) xs) ≡ []
filter-at-elsewhere_self ledger [] = refl
filter-at-elsewhere_self ledger (x ∷ xs) = ground (arith, filter-at-elsewhere_self ledger xs)
