-- ===== src/Stellar/Api/Ends.antt =====
-- packages/node/src/stellar/api.stellar.ts: the ends of the requests that `fetchBlocks` chains.
use subql_stellar.Prelude.{
  ℕ, ◌≤◌, Option, none, some, some-injective, List, [], Result, ok, throw, ◌≡◌, refl, sym, ap,
  subst,
}
use subql_stellar.Types.{EventResponse}
use subql_stellar.Stellar.Soroban.{EventsCache}
use subql_stellar.Stellar.Soroban.Complete.{IsComplete}
use subql_stellar.Stellar.Api.Paging.{Pages, page_count, fetch_pages_lem, fetch_pages}
use subql_stellar.Stellar.Api.Ledger.{then_result, then_cached}

-- There is fuel for the pages up to the first without records.
abbrev pub HasPages {ℓ} : {A : Type ℓ} → ℕ → (ℕ → Result (List A)) → Type ℓ
HasPages {A = A} fuel page =
    (r : Result (List A)) × (ps : Pages page 0 r) × (page_count page 0 r ps ≤ fuel)

-- The loop or the request ends.
abbrev pub Returns {ℓ} : {A : Type ℓ} → Option (Result A) → Type ℓ
Returns {A = A} m = (r : Result A) × (m ≡ some r)

pub fetch_pages-Returns {ℓ} :
    {A : Type ℓ} (fuel : ℕ) (page : ℕ → Result (List A))
    → HasPages fuel page
    → Returns (fetch_pages fuel page 0 [])
fetch_pages-Returns fuel page (r, ps, enough) = (r, fetch_pages_lem page fuel r ps enough)

pub then_result-Returns {ℓ κ} :
    {A : Type ℓ} {B : Type κ} (m : Option (Result A)) (f : A → Option (Result B))
    → Returns m
    → ((a : A) → Returns (f a))
    → Returns (then_result m f)
then_result-Returns none f h g = cc (h.1)
then_result-Returns (some (throw e)) f h g = (throw e, refl)
then_result-Returns (some (ok a)) f h g = g a

module _ (log : List EventResponse) where
  -- It ends, and the cache is complete then.
  abbrev pub ReturnsComplete {ℓ} : {A : Type ℓ} → Option (Result A × EventsCache) → Type ℓ
  ReturnsComplete {A = A} m =
      (r : Result A) × (cache : EventsCache) × (m ≡ some (r, cache)) × IsComplete log cache

  IsComplete-ReturnsComplete {ℓ} :
      {A : Type ℓ} (r : Result A) (cache : EventsCache)
      → ReturnsComplete (some (r, cache))
      → IsComplete log cache
  IsComplete-ReturnsComplete r cache (r', cache', e, complete) =
      subst (IsComplete log)
        (ap (λ (p : Result _ × EventsCache). p.1) (sym (some-injective (r, cache) (r', cache') e)))
        complete

  pub then_cached-ReturnsComplete {ℓ κ} :
      {A : Type ℓ} {B : Type κ} (m : Option (Result A × EventsCache))
      (f : A → EventsCache → Option (Result B × EventsCache))
      → ReturnsComplete m
      → ((a : A) (cache : EventsCache) → IsComplete log cache → ReturnsComplete (f a cache))
      → ReturnsComplete (then_cached m f)
  then_cached-ReturnsComplete none f h g = cc (h.2)
  then_cached-ReturnsComplete (some (throw e, cache)) f h g =
      (throw e, cache, refl, IsComplete-ReturnsComplete (throw e) cache h)
  then_cached-ReturnsComplete (some (ok a, cache)) f h g =
      g a cache (IsComplete-ReturnsComplete (ok a) cache h)
