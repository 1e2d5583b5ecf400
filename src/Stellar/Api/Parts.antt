-- ===== src/Stellar/Api/Parts.antt =====
-- packages/node/src/stellar/api.stellar.ts: the steps that a ledger that was fetched and wrapped has gone
-- through.
use subql_stellar.Prelude.{
  ℕ, Option, none, some, List, Result, ok, throw, ok-injective, some-injective, ◌≡◌, refl, sym, ap,
  ◌∙◌,
}
use subql_stellar.Types.{SorobanEvent, StellarBlock, StellarBlockWrapper}
use subql_stellar.Stellar.Soroban.{EventsCache, GetEventsRequest, GetEventsResponse}
use subql_stellar.Stellar.Utils.{IBlock, format_block_util}
use subql_stellar.Stellar.Block.{stellar_block_wrapped}
use subql_stellar.Stellar.Api.{Horizon, StellarApi}
use subql_stellar.Stellar.Api.Ledger.{
  assemble, then_result, then_cached, beside, LedgerData, fetch_ledger_data, fetch_ledger_events,
  fetch_and_wrap_ledger,
}

-- What a settled step returned.
pub done-eq-ok {ℓ} :
    {A : Type ℓ} (r : Result A) (c c' : EventsCache) {a : A}
    → ◌≡◌ {A = Option (Result A × EventsCache)} (some (r, c)) (some (ok a, c'))
    → r ≡ ok a
done-eq-ok r c c' h = ap (λ (p : Result _ × EventsCache). p.0) (some-injective _ _ h)

pub then_result-eq-ok {ℓ κ} :
    {A : Type ℓ} {B : Type κ} (m : Option (Result A)) (f : A → Option (Result B)) {b : B}
    → then_result m f ≡ some (ok b)
    → (a : A) × (m ≡ some (ok a)) × (f a ≡ some (ok b))
then_result-eq-ok none f h = cc
then_result-eq-ok (some (throw e)) f h = cc
then_result-eq-ok (some (ok a)) f h = (a, refl, h)

pub then_cached-eq-ok {ℓ κ} :
    {A : Type ℓ} {B : Type κ} (m : Option (Result A × EventsCache))
    (f : A → EventsCache → Option (Result B × EventsCache)) {b : B} {c : EventsCache}
    → then_cached m f ≡ some (ok b, c)
    → (a : A) × (c' : EventsCache) × (m ≡ some (ok a, c')) × (f a c' ≡ some (ok b, c))
then_cached-eq-ok none f h = cc
then_cached-eq-ok (some (throw e, c')) f h = cc
then_cached-eq-ok (some (ok a, c')) f h = (a, c', refl, h)

pub beside-eq-ok {ℓ} :
    {A : Type ℓ} (cache cache' : EventsCache) (m : Option (Result A)) {a : A}
    → beside cache m ≡ some (ok a, cache')
    → m ≡ some (ok a)
beside-eq-ok cache cache' none h = cc
beside-eq-ok cache cache' (some r) h = cc

-- And the cache that it left.
done-cache {ℓ} :
    {A : Type ℓ} (r : Result A) (c c' : EventsCache) {a : A}
    → ◌≡◌ {A = Option (Result A × EventsCache)} (some (r, c)) (some (ok a, c'))
    → c ≡ c'
done-cache r c c' h = ap (λ (p : Result _ × EventsCache). p.1) (some-injective _ _ h)

beside-cache {ℓ} :
    {A : Type ℓ} (cache cache' : EventsCache) (m : Option (Result A)) {a : A}
    → beside cache m ≡ some (ok a, cache')
    → cache ≡ cache'
beside-cache cache cache' none h = cc h
beside-cache cache cache' (some r) h = done-cache r cache cache' h

-- The block as it is passed on.
abbrev pub wrapped : StellarBlock → StellarBlockWrapper
wrapped block =
    stellar_block_wrapped block block.transactions block.operations block.effects block.events

module _ (rpc : ℕ → GetEventsRequest → Result GetEventsResponse) (latest_ledger : Result ℕ)
    (horizon : Horizon) (fuel now : ℕ) (api : StellarApi) where
  -- The data were fetched, then the events with the cache, and the block is made of them.
  pub fetch_and_wrap_ledger-parts :
      (cache cache' : EventsCache) (sequence : ℕ) (block : IBlock)
      → fetch_and_wrap_ledger rpc latest_ledger horizon fuel now api cache sequence
        ≡ some (ok block, cache')
      → (d : LedgerData) × (events : List SorobanEvent) × (b : StellarBlock) × (fetch_ledger_data
            rpc latest_ledger horizon fuel now api sequence
          ≡ some (ok d))
        × (fetch_ledger_events rpc latest_ledger horizon fuel now api cache sequence d.operations
            ≡ some (ok events, cache'))
        × (assemble d.ledger d.transactions d.operations d.effects events ≡ ok b)
        × (block ≡ format_block_util (wrapped b))
  unfolding fetch_and_wrap_ledger
  fetch_and_wrap_ledger-parts cache cache' sequence block h =
      let fetch = fetch_ledger_events rpc latest_ledger horizon fuel now api in
      let (d, c1, e1, h1) =
        then_cached-eq-ok
          (beside cache (fetch_ledger_data rpc latest_ledger horizon fuel now api sequence)) _ h in
      let (events, c2, e2, h2) = then_cached-eq-ok (fetch c1 sequence d.operations) _ h1 in
      let (b, c3, e3, h3) =
        then_cached-eq-ok
          (some (assemble d.ledger d.transactions d.operations d.effects events, c2)) _ h2 in
      (
        d,
        events,
        b,
        beside-eq-ok cache c1 _ e1,
        ap (λ c. fetch c sequence d.operations) (beside-cache cache c1 _ e1)
            ∙ e2
            ∙ ap (λ c. some (ok events, c)) (done-cache _ c2 c3 e3 ∙ done-cache _ c3 cache' h3),
        done-eq-ok _ c2 c3 e3,
        sym (ok-injective (done-eq-ok _ c3 cache' h3)),
      )
