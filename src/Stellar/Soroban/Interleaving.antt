-- ===== src/Stellar/Soroban/Interleaving.antt =====
-- Several calls of `getEvents` at once, as `fetchBlocks` makes them: each runs up to its request,
-- waits, and goes on when its events are there, in any order. The calls share the cache.
use subql_stellar.Prelude.{
  ℕ, ◌<◌, String, none, some, List, [], ◌∷◌, ◌++◌, filter, length, All, ◌≡◌, arith, ◌∙◌, sym, subst,
  Result, ok, throw, JsError, or_default, All-left, All-right, All-middle, All-append, ◌+◌,
  some-injective,
}
use subql_stellar.Types.{EventResponse}
use subql_stellar.Stellar.Soroban.{
  GetEventsRequest, GetEventsResponse, CachedEventsResponse, FetchedEvents, EventsCache, is_at, get,
  remove, fetch_events_for_sequence, hit, miss, begin_get_events, finish_get_events,
}
use subql_stellar.Stellar.Soroban.Server.{Within, Serves, HonoursLimit, IsClosed}
use subql_stellar.Stellar.Soroban.Complete.{
  IsComplete, update_event_cache-IsComplete, remove-IsComplete, Within-default,
}
use subql_stellar.Stellar.Soroban.Events.{IsGood, fetch-IsGood}

-- A call that waits for the server: the ledger it is for, and its request.
pub record Pending : Type 0 where
  pub sequence : ℕ
  pub request : GetEventsRequest

-- A call that has returned: the ledger it was for, and the events.
pub record Delivered : Type 0 where
  pub sequence : ℕ
  pub events : List EventResponse

pub record System : Type 0 where
  pub cache : EventsCache
  pub pending : List Pending
  pub delivered : List Delivered

module _ (rpc : ℕ → GetEventsRequest → Result GetEventsResponse) (fuel : ℕ) where
  pub data Step : System → System → Type 0 where
    answer :
        (s : System) (q : GetEventsRequest) (sequence : ℕ) (c : CachedEventsResponse)
        (cache' : EventsCache)
        → q.start_ledger ≡ some sequence
        → begin_get_events s.cache q ≡ hit c cache'
        → Step s (record s {
          cache = cache';
          delivered = record { sequence = sequence; events = c.events } ∷ s.delivered;
        })
    ask :
        (s : System) (q q' : GetEventsRequest) (sequence : ℕ)
        → q.cursor ≡ none
        → Within q.end_ledger sequence
        → IsClosed rpc sequence
        → begin_get_events s.cache q ≡ miss sequence q'
        → Step s (record s { pending = record { sequence = sequence; request = q' } ∷ s.pending })
    receive :
        (s : System) (earlier later : List Pending) (p : Pending) (now : ℕ) (f : FetchedEvents)
        → s.pending ≡ earlier ++ p ∷ later
        → fetch_events_for_sequence rpc fuel now p.sequence p.request [] ≡ some (ok f)
        → Step s (record {
          cache = (finish_get_events s.cache p.sequence f).1;
          pending = earlier ++ later;
          delivered = record { sequence = p.sequence; events = f.events.events } ∷ s.delivered;
        })
    break :
        (s : System) (earlier later : List Pending) (p : Pending) (now : ℕ) (e : JsError)
        → s.pending ≡ earlier ++ p ∷ later
        → fetch_events_for_sequence rpc fuel now p.sequence p.request [] ≡ some (throw e)
        → Step s (record s { pending = earlier ++ later })

  abbrev pub start : System
  start = record { cache = []; pending = []; delivered = [] }

  pub data Reach : System → Type 0 where
    begin : Reach start
    next : {s t : System} → Reach s → Step s t → Reach t

begin-hit :
    (cache cache' : EventsCache) (q : GetEventsRequest) (sequence : ℕ) (c : CachedEventsResponse)
    → q.start_ledger ≡ some sequence
    → begin_get_events cache q ≡ hit c cache'
    → (get sequence cache ≡ some c) × (cache' ≡ remove sequence cache)
unfolding begin_get_events
begin-hit cache cache' q sequence c start h = ground arith

begin-miss :
    (cache : EventsCache) (q q' : GetEventsRequest) (sequence : ℕ)
    → begin_get_events cache q ≡ miss sequence q'
    → (q.start_ledger ≡ some sequence)
      × (q' ≡ record q { end_ledger = some (or_default q.end_ledger (sequence + 1)) })
unfolding begin_get_events
begin-miss cache q q' sequence h = ground arith

module _ (log : List EventResponse) (after : String → List EventResponse)
    (rpc : ℕ → GetEventsRequest → Result GetEventsResponse) (serves : Serves log after rpc)
    (honours : HonoursLimit after rpc) (fuel : ℕ) (enough : length log < fuel) where
  abbrev IsSound : Pending → Type 0
  IsSound p =
      (p.request.start_ledger ≡ some p.sequence)
      × (p.request.cursor ≡ none)
      × Within p.request.end_ledger p.sequence
      × IsClosed rpc p.sequence

  -- All events of its ledger, in the order of the log, and no other.
  abbrev pub IsExact : Delivered → Type 0
  IsExact d = d.events ≡ filter (is_at d.sequence) log

  record Inv (s : System) : Type 0 where
    complete : IsComplete log s.cache
    sound : All IsSound s.pending
    exact : All IsExact s.delivered

  IsGood-result :
      (p : Pending) (now : ℕ) (res : Result FetchedEvents)
      → IsSound p
      → fetch_events_for_sequence rpc fuel now p.sequence p.request [] ≡ some res
      → IsGood log after rpc serves honours p.sequence res
  IsGood-result p now res (start, fresh, within, closed) runs =
      let (res', runs', good) =
        fetch-IsGood log after rpc serves honours p.sequence closed fuel now p.request start fresh
          within enough in
      subst (IsGood log after rpc serves honours p.sequence)
        (some-injective res' res (sym runs' ∙ runs)) good

  others-IsSound :
      (earlier later : List Pending) (p : Pending) (pending : List Pending)
      → pending ≡ earlier ++ p ∷ later
      → All IsSound pending
      → IsSound p × All IsSound (earlier ++ later)
  others-IsSound earlier later p pending e h =
      let h' : All IsSound (earlier ++ p ∷ later) = subst (All IsSound) e h in
      (
        All-middle IsSound earlier p later h',
        All-append IsSound earlier later (All-left IsSound earlier (p ∷ later) h')
            (All-right IsSound earlier (p ∷ later) h').1,
      )

  Step-Inv : {s t : System} → Step rpc fuel s t → Inv s → Inv t
  unfolding finish_get_events
  Step-Inv (answer s q sequence c cache' start h) inv =
      let (found, gone) = begin-hit s.cache cache' q sequence c start h in
      record {
        complete =
            subst (IsComplete log) (sym gone) (remove-IsComplete log s.cache sequence inv.complete);
        sound = inv.sound;
        exact = (inv.complete sequence c found, inv.exact);
      }
  Step-Inv (ask s q q' sequence fresh within closed h) inv =
      let (start, same) = begin-miss s.cache q q' sequence h in
      record {
        complete = inv.complete;
        sound = (
          subst
              (λ (r : GetEventsRequest).
                (r.start_ledger ≡ some sequence)
                × (r.cursor ≡ none)
                × Within r.end_ledger sequence
                × IsClosed rpc sequence)
              (sym same) (start, fresh, Within-default sequence q.end_ledger within, closed),
          inv.sound,
        );
        exact = inv.exact;
      }
  Step-Inv (receive s earlier later p now f split runs) inv =
      let (here, others) = others-IsSound earlier later p s.pending split inv.sound in
      let (events, whole, gone) = IsGood-result p now (ok f) here runs in
      record {
        complete =
            update_event_cache-IsComplete log s.cache p.sequence f.events_to_cache serves.distinct
              inv.complete whole gone;
        sound = others;
        exact = (events, inv.exact);
      }
  Step-Inv (break s earlier later p now e split runs) inv = record {
    complete = inv.complete;
    sound = (others-IsSound earlier later p s.pending split inv.sound).1;
    exact = inv.exact;
  }

  Reach-Inv : {s : System} → Reach rpc fuel s → Inv s
  unfolding get
  Reach-Inv begin = record { complete = λ ledger c h. cc; sound = tt; exact = tt }
  Reach-Inv (next r st) = Step-Inv st (Reach-Inv r)

  -- Of an RPC server that does what `Serves` and `HonoursLimit` say, and with fuel: however calls for
  -- closed ledgers interleave over the one cache, each that returns has returned all events of its
  -- ledger, in the order of the log, and no other.
  pub Reach-IsExact : (s : System) → Reach rpc fuel s → All IsExact s.delivered
  Reach-IsExact s r = (Reach-Inv r).exact
