-- ===== src/Stellar/Block/Topics.antt =====
-- packages/node/src/stellar/block.stellar.ts: the loop over an event filter's topics.
use subql_stellar.Prelude.{
  ℕ, zero, suc, ◌+◌, ◌≤◌, ◌<◌, String, Option, none, some, List, true, false, ◌===◌, truthy, ◌≡◌,
  refl, ◌⊎◌, ◌↔◌, inl, inr, arith, eq_iff, get_elem?, Bool-cases, and-eq-true, subst,
}
use native.Mathlib.Decide.{ℕ_discrete}
use subql_stellar.Types.{NativeValue}
use subql_stellar.Stellar.Block.{native_is, topic_passes, topic_at, topics_pass}

module _ (sc_val_to_native : String → NativeValue) where
  -- A topic that is not set, or that is the native value of the event's topic at its place.
  abbrev pub TopicAdmits : Option String → Option String → Type 0
  TopicAdmits topic given =
      (truthy topic ≡ false)
      ⊎ ((t : String) × (g : String) × (topic ≡ some t)
          × (given ≡ some g)
          × (sc_val_to_native g ≡ NativeValue.text t))

  native_is_iff : (v : NativeValue) (t : String) → (native_is v t ≡ true) ↔ (v ≡ NativeValue.text t)
  native_is_iff (NativeValue.text s) t = (λ e. cc ((eq_iff t s).0 e), λ e. (eq_iff t s).1 (cc))
  native_is_iff (NativeValue.other s) t = (λ e. cc, λ e. cc)

  pub topic_passes_iff :
      (topic given : Option String)
      → (topic_passes sc_val_to_native topic given ≡ true) ↔ TopicAdmits topic given
  topic_passes_iff none given = (λ h. inl refl, λ h. refl)
  topic_passes_iff (some t) none =
      (λ h. inl (rw h), λ h. elim h [ inl e ↦ ground (arith) | inr (u, g, p, q, r) ↦ absurd (cc) ])
  topic_passes_iff (some t) (some g) =
      let (to, from) = native_is_iff (sc_val_to_native g) t in
      elim (Bool-cases (t === "")) [
        | inl unset ↦ rw unset (λ h. inl refl, λ h. refl)
        | inr set ↦ rw set (
          λ h. inr (t, g, refl, refl, to h),
          λ h. elim h [ inl e ↦ cc | inr (u, k, p, q, r) ↦ from (cc) ],
        )
      ]

  -- The loop accepts exactly if each of its rounds does.
  pub topics_pass_iff :
      (rounds i : ℕ) (topics : List (Option String)) (given : List String)
      → (topics_pass sc_val_to_native rounds i topics given ≡ true)
        ↔ ((j : ℕ) → i ≤ j → j < i + rounds → TopicAdmits (topic_at topics j) (get_elem? given j))
  unfolding topics_pass
  topics_pass_iff zero i topics given = (λ h j low high. absurd (omega arith), λ h. refl)
  topics_pass_iff (suc n) i topics given =
      let (to, from) = topics_pass_iff n (suc i) topics given in
      let (pass, admit) = topic_passes_iff (topic_at topics i) (get_elem? given i) in
      (
        λ h j low high.
            let (here, later) = and-eq-true _ _ h in
            (elim (ℕ_discrete i j) [
              | yes same ↦
                  subst (λ k. TopicAdmits (topic_at topics k) (get_elem? given k)) same (pass here)
              | no other ↦ to later j (omega (arith, other)) (omega arith)
            ]),
        λ h. rw (
          admit (h i (omega arith) (omega arith)),
          from (λ j low high. h j (omega arith) (omega arith)),
        ),
      )
