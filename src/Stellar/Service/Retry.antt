-- ===== src/Stellar/Service/Retry.antt =====
-- packages/node/src/stellar/api.service.stellar.ts, `safeApi`: what a call by way of its proxy returns.
use subql_stellar.Prelude.{
  ℕ, zero, suc, ◌+◌, ◌<◌, ◌≤◌, Option, none, some, Result, ok, throw, JsError, ◌≡◌, refl, ◌∙◌,
  arith, subst,
}
use subql_stellar.Stellar.SafeApi.{SafeStellarProvider}
use subql_stellar.Stellar.Service.{safe_loop, safe_call}

module _ {ℓ} {A : Type ℓ} (call : ℕ → SafeStellarProvider → Result A)
    (get_safe_api : ℕ → Result SafeStellarProvider) (provider : ℕ → SafeStellarProvider)
    (given : (i : ℕ) → get_safe_api i ≡ ok (provider i)) where
  abbrev attempt : ℕ → Result A
  attempt i = call i (provider i)

  safe_loop-ok :
      (left i : ℕ) (last : Option JsError) (a : A)
      → attempt i ≡ ok a
      → safe_loop call get_safe_api (suc left) i (provider i) last ≡ ok a
  unfolding safe_loop
  safe_loop-ok left i last a h = rw (h, safe_loop) refl

  safe_loop-throw :
      (left i : ℕ) (last : Option JsError) (e : JsError)
      → attempt i ≡ throw e
      → safe_loop call get_safe_api (suc left) i (provider i) last
        ≡ safe_loop call get_safe_api left (suc i) (provider (suc i)) (some e)
  unfolding safe_loop
  safe_loop-throw left i last e h = rw (h, safe_loop) (rw (given (suc i)) refl)

  safe_loop-first :
      (left i k : ℕ) (last : Option JsError) (a : A) (error : ℕ → JsError)
      → k < left
      → ((j : ℕ) → j < k → attempt (i + j) ≡ throw (error j))
      → attempt (i + k) ≡ ok a
      → safe_loop call get_safe_api left i (provider i) last ≡ ok a
  safe_loop-first zero i k last a error lt fails h = absurd (omega arith)
  safe_loop-first (suc left) i zero last a error lt fails h =
      safe_loop-ok left i last a (subst (λ n. attempt n ≡ ok a) (omega arith) h)
  safe_loop-first (suc left) i (suc k) last a error lt fails h =
      safe_loop-throw left i last (error 0)
        (subst (λ n. attempt n ≡ throw (error 0)) (omega arith) (fails 0 (omega arith)))
      ∙ safe_loop-first left (suc i) k (some (error 0)) a (λ j. error (suc j)) (omega arith)
          (λ j lt.
            subst (λ n. attempt n ≡ throw (error (suc j))) (omega arith)
              (fails (suc j) (omega arith)))
          (subst (λ n. attempt n ≡ ok a) (omega arith) h)

  safe_loop-last :
      (left i : ℕ) (last : JsError) (error : ℕ → JsError)
      → ((j : ℕ) → j ≤ left → attempt (i + j) ≡ throw (error j))
      → safe_loop call get_safe_api (suc left) i (provider i) (some last) ≡ throw (error left)
  unfolding safe_loop
  safe_loop-last zero i last error fails =
      safe_loop-throw zero i (some last) (error 0)
        (subst (λ n. attempt n ≡ throw (error 0)) (omega arith) (fails 0 (omega arith)))
  safe_loop-last (suc left) i last error fails =
      safe_loop-throw (suc left) i (some last) (error 0)
        (subst (λ n. attempt n ≡ throw (error 0)) (omega arith) (fails 0 (omega arith)))
      ∙ safe_loop-last left (suc i) (error 0) (λ j. error (suc j))
          (λ j le.
            subst (λ n. attempt n ≡ throw (error (suc j))) (omega arith)
              (fails (suc j) (omega arith)))

  -- Where an API can be had for every attempt: the first of the five attempts to succeed gives the
  -- result, whatever errors came before it.
  pub safe_call-first :
      (k : ℕ) (a : A) (error : ℕ → JsError)
      → k < 5
      → ((j : ℕ) → j < k → attempt j ≡ throw (error j))
      → attempt k ≡ ok a
      → safe_call call get_safe_api ≡ ok a
  unfolding safe_call
  safe_call-first k a error lt fails h = rw (given 0) (
      safe_loop-first 5 0 k none a error lt
        (λ j lt. subst (λ n. attempt n ≡ throw (error j)) (omega arith) (fails j lt))
        (subst (λ n. attempt n ≡ ok a) (omega arith) h))

  -- Where an API can be had for every attempt and all five attempts fail, the error is that of the
  -- last one.
  pub safe_call-last :
      (error : ℕ → JsError)
      → ((j : ℕ) → j < 5 → attempt j ≡ throw (error j))
      → safe_call call get_safe_api ≡ throw (error 4)
  unfolding safe_call
  safe_call-last error fails = rw (given 0) (
      safe_loop-throw 4 0 none (error 0) (fails 0 (omega arith))
      ∙ safe_loop-last 3 1 (error 0) (λ j. error (suc j))
          (λ j le.
            subst (λ n. attempt n ≡ throw (error (suc j))) (omega arith)
              (fails (suc j) (omega arith))))
