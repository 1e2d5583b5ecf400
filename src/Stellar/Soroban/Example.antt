-- ===== src/Stellar/Soroban/Example.antt =====
-- A small RPC server with two ledgers of events, which does what `Serves` and `HonoursLimit` say.
use native.Mathlib.Decide.{ℕ_discrete}
use subql_stellar.Prelude.{
  ℕ, ◌<◌, ◌≤◌, String, Option, none, some, List, [], ◌∷◌, ◌++◌, ◌&&◌, ◌==◌, ◌===◌, ltb,
  if◌then◌else◌, filter, length, ◌≡◌, refl, arith, Result, ok, throw, new_error, All, append-nil,
  inl, inr, Option-cases, Bool-cases, ap, sym, ◌∙◌, some-injective, subst,
}
use subql_stellar.Types.{EventResponse}
use subql_stellar.Stellar.Soroban.{GetEventsRequest, GetEventsResponse}
use subql_stellar.Stellar.Soroban.Server.{
  Within, IsDrained, Serves, HonoursLimit, IsClosed, limit_of, is_from,
}
use subql_stellar.Stellar.Soroban.Interleaving.{start}

abbrev pub event_at : String → ℕ → EventResponse
event_at id ledger = record {
  id = id;
  ledger = ledger;
  tx_hash = "tx";
  operation_index = some 0;
  contract_id = none;
  topic = [];
}

abbrev pub two_ledgers : List EventResponse
two_ledgers = event_at "a" 5 ∷ event_at "b" 6 ∷ []

abbrev pub after : String → List EventResponse
after c = if c === "0" then two_ledgers else if c === "1" then event_at "b" 6 ∷ [] else []

abbrev pub refuse : Result GetEventsResponse
refuse = throw (new_error "bad request")

abbrev pub page : List EventResponse → String → GetEventsResponse
page events cursor = record { events = events; latest_ledger = 9; cursor = cursor }

-- The server answers a request for ledger 5 or 6, and one that goes on from a cursor.
unfoldable pub serve : ℕ → GetEventsRequest → Result GetEventsResponse
serve now q = if ltb (limit_of q) 3 then refuse else (elim q.cursor [
  | some c ↦ elim q.end_ledger [ some end ↦ refuse | none ↦ ok (page (after c) "2") ]
  | none ↦ elim q.start_ledger [
    | none ↦ refuse
    | some s ↦ elim q.end_ledger [
      | none ↦ refuse
      | some end ↦
          if s == 5 && end == 6
          then ok (page (event_at "a" 5 ∷ []) "1")
          else if s == 6 && end == 7
          then ok (page (event_at "b" 6 ∷ []) "2")
          else refuse
    ]
  ]
])

-- The three answers.
pub data Answer (q : GetEventsRequest) (r : GetEventsResponse) : Type 0 where
  five :
      q.cursor ≡ none
      → q.start_ledger ≡ some 5
      → q.end_ledger ≡ some 6
      → r ≡ page (event_at "a" 5 ∷ []) "1"
      → Answer q r
  six :
      q.cursor ≡ none
      → q.start_ledger ≡ some 6
      → q.end_ledger ≡ some 7
      → r ≡ page (event_at "b" 6 ∷ []) "2"
      → Answer q r
  on : (c : String) → q.cursor ≡ some c → q.end_ledger ≡ none → r ≡ page (after c) "2" → Answer q r

pub serve-Answer :
    (now : ℕ) (q : GetEventsRequest) (r : GetEventsResponse) → serve now q ≡ ok r → Answer q r
unfolding serve
serve-Answer now q r came = elim (Option-cases q.cursor) [
  | inr (c, going) ↦ on c going (ground arith) (ground arith)
  | inl fresh ↦ elim (Option-cases q.start_ledger) [
    | inl missing ↦ absurd (ground arith)
    | inr (s, from) ↦ elim (Option-cases q.end_ledger) [
      | inl open_end ↦ absurd (ground arith)
      | inr (end, to) ↦ elim (ℕ_discrete s 5) [
        | yes p ↦ five fresh (ground arith) (ground arith) (ground arith)
        | no p ↦ six fresh (ground arith) (ground arith) (ground arith)
      ]
    ]
  ]
]

pub serve-limit :
    (now : ℕ) (q : GetEventsRequest) (r : GetEventsResponse) → serve now q ≡ ok r → 2 < limit_of q
unfolding serve
serve-limit now q r came = ground arith

module _ (q : GetEventsRequest) (r : GetEventsResponse) where
  pub Answer-opens :
      (start : ℕ)
      → q.cursor ≡ none
      → q.start_ledger ≡ some start
      → Answer q r
      → r.events ++ after r.cursor ≡ filter (is_from start) two_ledgers
  Answer-opens start fresh from (five c s e w) =
      rw w (let p : start ≡ 5 = ground arith in rw p refl)
  Answer-opens start fresh from (six c s e w) = rw w (let p : start ≡ 6 = ground arith in rw p refl)
  Answer-opens start fresh from (on c going e w) = absurd (ground arith)

  Answer-goes_on :
      (c : String) → q.cursor ≡ some c → Answer q r → r.events ++ after r.cursor ≡ after c
  Answer-goes_on c going (five f s e w) = absurd (ground arith)
  Answer-goes_on c going (six f s e w) = absurd (ground arith)
  Answer-goes_on c going (on d at e w) =
      rw w (append-nil (after d) ∙ ap after (some-injective d c (sym at ∙ going)))

  All-after :
      (P : EventResponse → Type 0) (c : String)
      → P (event_at "a" 5)
      → P (event_at "b" 6)
      → All P (after c)
  All-after P c a b = elim (Bool-cases (c === "0")) [
    | inl zeroth ↦ rw zeroth (a, (b, tt))
    | inr n ↦ elim (Bool-cases (c === "1")) [
      | inl first ↦ rw (n, first) (b, tt)
      | inr m ↦ rw (n, m) tt
    ]
  ]

  Answer-settled : Answer q r → All (λ e. e.ledger ≤ r.latest_ledger) r.events
  Answer-settled (five c s e w) = rw w (omega arith)
  Answer-settled (six c s e w) = rw w (omega arith)
  Answer-settled (on c g e w) = rw w (All-after (λ e. e.ledger ≤ 9) c (omega arith) (omega arith))

  Answer-bounded : Answer q r → All (λ e. Within q.end_ledger e.ledger) r.events
  Answer-bounded (five c s e w) = rw (w, e) (omega arith)
  Answer-bounded (six c s e w) = rw (w, e) (omega arith)
  Answer-bounded (on c g e w) = rw (w, e) (All-after (λ e. Unit) c tt tt)

  Answer-IsDrained : Answer q r → IsDrained q r (after r.cursor)
  Answer-IsDrained (five c s e w) ledger covered old =
      let below : ledger < 6 = subst (λ (o : Option ℕ). Within o ledger) e covered in
      rw w (ground arith)
  Answer-IsDrained (six c s e w) ledger covered old = rw w refl
  Answer-IsDrained (on c g e w) ledger covered old = rw w refl

  Answer-fits : 2 < limit_of q → Answer q r → length r.events ≤ limit_of q
  Answer-fits l (five c s e w) = rw w (omega arith)
  Answer-fits l (six c s e w) = rw w (omega arith)
  Answer-fits l (on c g e w) = rw w (ground arith)

pub serve-Serves : Serves two_ledgers after serve
serve-Serves = record {
  ordered = omega arith;
  distinct = ((refl, tt), (tt, tt));
  opens = λ now start q r fresh from came.
      Answer-opens q r start fresh from (serve-Answer now q r came);
  goes_on = λ now c q r going came. Answer-goes_on q r c going (serve-Answer now q r came);
  settled = λ now q r came. Answer-settled q r (serve-Answer now q r came);
  bounded = λ now q r came. Answer-bounded q r (serve-Answer now q r came);
  drained = λ now q r came empty. Answer-IsDrained q r (serve-Answer now q r came);
}

pub serve-HonoursLimit : HonoursLimit after serve
serve-HonoursLimit = record {
  fits = λ now q r came. Answer-fits q r (serve-limit now q r came) (serve-Answer now q r came);
  short = λ now q r came few. Answer-IsDrained q r (serve-Answer now q r came);
}

pub serve-IsClosed : (ledger : ℕ) → ledger ≤ 9 → IsClosed serve ledger
serve-IsClosed ledger h now q r came = latest (serve-Answer now q r came)
  where
    latest : Answer q r → ledger ≤ r.latest_ledger
    latest (five c s e w) = rw w h
    latest (six c s e w) = rw w h
    latest (on c g e w) = rw w h

abbrev pub ask_for : ℕ → GetEventsRequest
ask_for ledger = record {
  start_ledger = some ledger;
  end_ledger = none;
  cursor = none;
  limit = none;
}
