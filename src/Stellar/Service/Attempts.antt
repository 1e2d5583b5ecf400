-- ===== src/Stellar/Service/Attempts.antt =====
-- packages/node/src/stellar/api.service.stellar.ts, `safeApi`: how often its proxy tries.
use subql_stellar.Prelude.{
  ℕ, zero, suc, ◌+◌, ◌<◌, ◌≤◌, Option, none, some, Result, JsError, Result-cases, inl, inr, ◌≡◌,
  refl, sym, ◌∙◌, arith,
}
use subql_stellar.Stellar.SafeApi.{SafeStellarProvider}
use subql_stellar.Stellar.Service.{safe_loop, safe_call}

module _ {ℓ} {A : Type ℓ} (call call' : ℕ → SafeStellarProvider → Result A)
    (get_safe_api get_safe_api' : ℕ → Result SafeStellarProvider) where
  safe_loop-congr :
      (left i : ℕ) (p : SafeStellarProvider) (last : Option JsError)
      → ((j : ℕ) (q : SafeStellarProvider) → j < i + left → call j q ≡ call' j q)
      → ((j : ℕ) → j ≤ i + left → get_safe_api j ≡ get_safe_api' j)
      → safe_loop call get_safe_api left i p last ≡ safe_loop call' get_safe_api' left i p last
  unfolding safe_loop
  safe_loop-congr zero i p none same given = refl
  safe_loop-congr zero i p (some e) same given = refl
  safe_loop-congr (suc left) i p last same given = elim (Result-cases (call i p)) [
    | inl (a, succeeds) ↦ rw (succeeds, sym (same i p (omega arith)) ∙ succeeds, safe_loop) refl
    | inr (e, fails) ↦
        rw (fails, sym (same i p (omega arith)) ∙ fails, safe_loop)
          (elim (Result-cases (get_safe_api (suc i))) [
            | inl (q, found) ↦
                rw (found, sym (given (suc i) (omega arith)) ∙ found)
                  (safe_loop-congr left (suc i) q (some e) (λ j r lt. same j r (omega arith))
                    (λ j le. given j (omega arith)))
            | inr (e', refused) ↦ rw (refused, sym (given (suc i) (omega arith)) ∙ refused) refl
          ])
  ]

  -- A call by way of `safeApi` makes at most five attempts, and takes at most six providers: what later ones would
  -- give has no part in the result.
  pub safe_call_bound :
      ((j : ℕ) (q : SafeStellarProvider) → j < 5 → call j q ≡ call' j q)
      → ((j : ℕ) → j ≤ 5 → get_safe_api j ≡ get_safe_api' j)
      → safe_call call get_safe_api ≡ safe_call call' get_safe_api'
  unfolding safe_call
  safe_call_bound same given = elim (Result-cases (get_safe_api 0)) [
    | inl (q, found) ↦
        rw (found, sym (given 0 (omega arith)) ∙ found)
          (safe_loop-congr 5 0 q none (λ j r lt. same j r (omega arith))
            (λ j le. given j (omega arith)))
    | inr (e, refused) ↦ rw (refused, sym (given 0 (omega arith)) ∙ refused) refl
  ]
