-- ===== src/Stellar/Api/Paging.antt =====
-- packages/node/src/stellar/api.stellar.ts: `fetchTransactionsForLedger`, `fetchOperationsForLedger`
-- and `fetchEffectsForLedger`. The loop takes fuel, a bound on the number of pages; `none` means
-- that it ran out.
use subql_stellar.Prelude.{
  ℕ, zero, suc, ◌<◌, ◌≤◌, Option, none, some, List, [], ◌++◌, true, false, Result, ok, throw,
  JsError, is_empty, ◌≡◌, ◌∙◌, ap, arith, append-nil, append_assoc,
}
use subql_stellar.Types.{TransactionRecord, OperationRecord, EffectRecord}
use subql_stellar.Stellar.Api.{StellarApi, Horizon, StellarEndpointConfig, page_limit_of}

-- `while (page.records.length !== 0) { all.push(...page.records); page = await page.next(); }`,
-- from the page `i` on
unfoldable pub fetch_pages {ℓ} :
    {A : Type ℓ} → ℕ → (ℕ → Result (List A)) → ℕ → List A → Option (Result (List A))
fetch_pages zero page i acc = none
fetch_pages (suc fuel) page i acc = elim (page i) [
  | throw e ↦ some (throw e)
  | ok records ↦ elim (is_empty records) [
    | true ↦ some (ok acc)
    | false ↦ fetch_pages fuel page (suc i) (acc ++ records)
  ]
]

module _ (horizon : Horizon) (api : StellarApi) (fuel sequence : ℕ) where
  unfoldable pub fetch_transactions_for_ledger : Option (Result (List TransactionRecord))
  unfolding fetch_pages
  fetch_transactions_for_ledger =
      fetch_pages fuel (horizon.transactions sequence api.page_limit) 0 []

  unfoldable pub fetch_operations_for_ledger : Option (Result (List OperationRecord))
  unfolding fetch_pages
  fetch_operations_for_ledger = fetch_pages fuel (horizon.operations sequence api.page_limit) 0 []

  unfoldable pub fetch_effects_for_ledger : Option (Result (List EffectRecord))
  unfolding fetch_pages
  fetch_effects_for_ledger = fetch_pages fuel (horizon.effects sequence api.page_limit) 0 []

module _ {ℓ} {A : Type ℓ} (page : ℕ → Result (List A)) where
  -- The server's pages from one on: some with records, one with none, or a failure before that.
  pub data Pages : ℕ → Result (List A) → Type ℓ where
    end : (i : ℕ) → page i ≡ ok [] → Pages i (ok [])
    fail : (i : ℕ) (e : JsError) → page i ≡ throw e → Pages i (throw e)
    more :
        (i : ℕ) (records rest : List A)
        → page i ≡ ok records
        → is_empty records ≡ false
        → Pages (suc i) (ok rest)
        → Pages i (ok (records ++ rest))
    more_fail :
        (i : ℕ) (records : List A) (e : JsError)
        → page i ≡ ok records
        → is_empty records ≡ false
        → Pages (suc i) (throw e)
        → Pages i (throw e)

  -- The number of pages that are asked for.
  abbrev pub page_count : (i : ℕ) (r : Result (List A)) → Pages i r → ℕ
  page_count i r (end _ p) = 1
  page_count i r (fail _ e p) = 1
  page_count i r (more _ records rest p n ps) = suc (page_count _ _ ps)
  page_count i r (more_fail _ records e p n ps) = suc (page_count _ _ ps)

  abbrev with_acc : List A → Result (List A) → Result (List A)
  with_acc acc (ok rest) = ok (acc ++ rest)
  with_acc acc (throw e) = throw e

  fetch_pages-end :
      (fuel i : ℕ) (acc : List A)
      → page i ≡ ok []
      → fetch_pages (suc fuel) page i acc ≡ some (ok (acc ++ []))
  unfolding fetch_pages
  fetch_pages-end fuel i acc p = rw (p, fetch_pages) (rw (append-nil acc))

  fetch_pages-fail :
      (fuel i : ℕ) (acc : List A) (e : JsError)
      → page i ≡ throw e
      → fetch_pages (suc fuel) page i acc ≡ some (throw e)
  unfolding fetch_pages
  fetch_pages-fail fuel i acc e p = rw (p, fetch_pages)

  fetch_pages-more :
      (fuel i : ℕ) (acc records : List A)
      → page i ≡ ok records
      → is_empty records ≡ false
      → fetch_pages (suc fuel) page i acc ≡ fetch_pages fuel page (suc i) (acc ++ records)
  unfolding fetch_pages
  fetch_pages-more fuel i acc records p n = rw (p, fetch_pages) (ground (arith, n))

  fetch_pages_from :
      (fuel i : ℕ) (acc : List A) (r : Result (List A)) (ps : Pages i r)
      → page_count i r ps ≤ fuel
      → fetch_pages fuel page i acc ≡ some (with_acc acc r)
  unfolding fetch_pages
  fetch_pages_from zero i acc r (end _ p) h = absurd (omega arith)
  fetch_pages_from zero i acc r (fail _ e p) h = absurd (omega arith)
  fetch_pages_from zero i acc r (more _ records rest p n ps) h = absurd (omega arith)
  fetch_pages_from zero i acc r (more_fail _ records e p n ps) h = absurd (omega arith)
  fetch_pages_from (suc fuel) i acc r (end _ p) h = fetch_pages-end fuel i acc p
  fetch_pages_from (suc fuel) i acc r (fail _ e p) h = fetch_pages-fail fuel i acc e p
  fetch_pages_from (suc fuel) i acc r (more _ records rest p n ps) h =
      fetch_pages-more fuel i acc records p n
      ∙ fetch_pages_from fuel (suc i) (acc ++ records) (ok rest) ps (omega arith)
      ∙ ap (λ l. some (ok l)) (append_assoc acc records rest)
  fetch_pages_from (suc fuel) i acc r (more_fail _ records e p n ps) h =
      fetch_pages-more fuel i acc records p n
      ∙ fetch_pages_from fuel (suc i) (acc ++ records) (throw e) ps (omega arith)

  -- With fuel for the pages up to the first without records, the loop ends and returns the records
  -- of all pages in their order; where a page fails before that one, it throws the page's error.
  pub fetch_pages_lem :
      (fuel : ℕ) (r : Result (List A)) (ps : Pages 0 r)
      → page_count 0 r ps ≤ fuel
      → fetch_pages fuel page 0 [] ≡ some r
  fetch_pages_lem fuel (ok all) ps h = fetch_pages_from fuel 0 [] (ok all) ps h
  fetch_pages_lem fuel (throw e) ps h = fetch_pages_from fuel 0 [] (throw e) ps h

-- The page size that is asked for is never 0, whatever is configured: 0 gives the default.
pub page_limit_of-pos : (config : Option StellarEndpointConfig) → 0 < page_limit_of config
unfolding page_limit_of
page_limit_of-pos none = omega arith
page_limit_of-pos (some c) = ground arith
