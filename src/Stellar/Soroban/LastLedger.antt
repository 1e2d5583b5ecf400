-- ===== src/Stellar/Soroban/LastLedger.antt =====
-- packages/node/src/stellar/soroban.server.ts, lines 39 to 46: what leaving out the last ledger of a
-- full page keeps.
use subql_stellar.Prelude.{
  ℕ, ◌<◌, ◌≤◌, Option, some, List, [], ◌∷◌, ◌++◌, true, false, ◌==◌, filter, length, All, last,
  is_empty, ◌≡◌, refl, ◌≢◌, ◌⊎◌, inl, inr, arith, Bool-cases, ==_iff, All-mono, ◌∙◌, sym, subst,
  All-left, dec_lt, Result, ok,
}
use subql_stellar.Types.{EventResponse}
use subql_stellar.Stellar.Soroban.{FetchedEvents, is_at, is_elsewhere, exclude_last}
use subql_stellar.Stellar.Soroban.Server.{IsOrdered, last-le-later, le-last}
use subql_stellar.Stellar.Soroban.Pages.{
  filter-at_of_lt, filter-at-elsewhere, filter-at-elsewhere_self,
}

-- What holds of the ledger of each event holds of one that has an event.
pub All-at :
    (Q : ℕ → Type 0) (ledger : ℕ) (xs : List EventResponse)
    → All (λ e. Q e.ledger) xs
    → is_empty (filter (is_at ledger) xs) ≡ false
    → Q ledger
All-at Q ledger [] h e = cc
All-at Q ledger (x ∷ xs) h e = elim (Bool-cases (is_at ledger x)) [
  | inl at ↦ subst Q ((==_iff _ _).0 at) h.0
  | inr off ↦ All-at Q ledger xs h.1 (rw off at e)
]

pub IsOrdered-left : (xs ys : List EventResponse) → IsOrdered (xs ++ ys) → IsOrdered xs
IsOrdered-left [] ys h = tt
IsOrdered-left (x ∷ xs) ys h = (All-left _ xs ys h.0, IsOrdered-left xs ys h.1)

pub filter-at_of_gt :
    (ledger : ℕ) (xs : List EventResponse)
    → All (λ x. x.ledger < ledger) xs
    → filter (is_at ledger) xs ≡ []
filter-at_of_gt ledger [] h = refl
filter-at_of_gt ledger (x ∷ xs) h = ground (arith, filter-at_of_gt ledger xs h.1)

pub last-cons :
    (xs : List EventResponse) → is_empty xs ≡ false → (e : EventResponse) × (last xs ≡ some e)
last-cons [] h = cc
last-cons (x ∷ []) h = (x, refl)
last-cons (x ∷ y ∷ xs) h = last-cons (y ∷ xs) refl

pub exclude_last-full :
    (limit : ℕ) (xs cached : List EventResponse) (e : EventResponse)
    → (length xs == limit) ≡ true
    → last xs ≡ some e
    → exclude_last limit xs cached ≡ filter (is_elsewhere e.ledger) cached
unfolding exclude_last
exclude_last-full limit xs cached e h l = rw h (ground arith)

pub exclude_last-short :
    (limit : ℕ) (xs cached : List EventResponse)
    → (length xs == limit) ≡ false
    → exclude_last limit xs cached ≡ cached
unfolding exclude_last
exclude_last-short limit xs cached h = rw h

-- All events of the ledger, or none, among those handed on; all of them where `rest` is what follows.
abbrev pub IsWhole : ℕ → List EventResponse → List EventResponse → List EventResponse → Type 0
IsWhole ledger cached page rest =
    (filter (is_at ledger) cached ≡ [])
    ⊎ ((filter (is_at ledger) cached ≡ filter (is_at ledger) page)
        × (filter (is_at ledger) rest ≡ []))

-- A full page: its last ledger is left out, the ledgers before are whole.
pub exclude_last-IsWhole_full :
    (sequence limit ledger : ℕ) (page rest : List EventResponse)
    → ledger ≢ sequence
    → IsOrdered (page ++ rest)
    → is_empty page ≡ false
    → (length page == limit) ≡ true
    → IsWhole ledger (exclude_last limit page (filter (is_elsewhere sequence) page)) page rest
exclude_last-IsWhole_full sequence limit ledger page rest n o some_here full =
    let (e, l) = last-cons page some_here in
    rw (exclude_last-full limit page _ e full l) (elim (Bool-cases (ledger == e.ledger)) [
      | inl same ↦ inl (
          subst
            (λ k.
              filter (is_at k)
                (filter (is_elsewhere e.ledger) (filter (is_elsewhere sequence) page))
              ≡ [])
            (sym ((==_iff _ _).0 same)) (filter-at-elsewhere_self e.ledger _))
      | inr other ↦
          let n' : ledger ≢ e.ledger = ground arith in
          let kept =
            filter-at-elsewhere e.ledger ledger (filter (is_elsewhere sequence) page) n'
            ∙ filter-at-elsewhere sequence ledger page n in
          elim (dec_lt ledger e.ledger) [
            | yes before ↦ inr (
              kept,
              filter-at_of_lt ledger rest (
                  All-mono (λ y (le : e.ledger ≤ y.ledger). omega (arith, before)) rest
                    (last-le-later page rest e o l)),
            )
            | no behind ↦ inl (
                kept
                ∙ filter-at_of_gt ledger page (
                    All-mono (λ y (le : y.ledger ≤ e.ledger). omega (arith, behind, n')) page
                      (le-last page e (IsOrdered-left page rest o) l)))
          ]
    ])

pub some-elsewhere :
    (sequence : ℕ) (page : List EventResponse)
    → is_empty (filter (is_elsewhere sequence) page) ≡ false
    → is_empty page ≡ false
some-elsewhere sequence [] h = h
some-elsewhere sequence (x ∷ page) h = refl

pub ok-injective :
    {f g : FetchedEvents}
    → ◌≡◌ {A = Option (Result FetchedEvents)} (some (ok f)) (some (ok g))
    → f ≡ g
ok-injective h = cc
