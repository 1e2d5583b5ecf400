-- ===== src/Stellar/Service/Clients.antt =====
-- packages/node/src/stellar/api.service.stellar.ts, `create`: the Soroban client that an endpoint gets.
use subql_stellar.Prelude.{
  String, Option, none, some, Bool, true, false, truthy, ok, >>=-eq-ok, ok-injective, ◌===◌, ◌≡◌,
  ◌↔◌, refl, sym, ap, subst, some-injective, Bool-cases, inl, inr,
}
use subql_stellar.Stellar.Service.{SorobanClient, ServiceHost, new_soroban_client}

-- None where there is no endpoint, or an empty one; otherwise one of its URL, of which the SDK makes a client.
abbrev pub IsClient : ServiceHost → Option String → Bool → Option SorobanClient → Type 0
IsClient host endpoint allow_http none = truthy endpoint ≡ false
IsClient host endpoint allow_http (some client) =
    (truthy endpoint ≡ true)
    × (endpoint ≡ some client.url)
    × (client.allow_http ≡ allow_http)
    × (host.new_server client.url allow_http ≡ ok tt)

made-IsClient :
    (host : ServiceHost) (url : String) (allow_http : Bool) (client : SorobanClient)
    → (url === "") ≡ false
    → (new_soroban_client host (some url) allow_http ≡ ok (some client))
      ↔ IsClient host (some url) allow_http (some client)
unfolding new_soroban_client
made-IsClient host url allow_http client full = rw full (
  λ h.
      let (done, made, same) = >>=-eq-ok (host.new_server url allow_http) _ h in
      let is_client = some-injective _ _ (ok-injective same) in
      let is_url = ap (λ (c : SorobanClient). c.url) is_client in
      (
        refl,
        ap some is_url,
        sym (ap (λ (c : SorobanClient). c.allow_http) is_client),
        subst (λ u. host.new_server u allow_http ≡ ok tt) is_url made,
      ),
  λ (set, named, allowed, made).
      let is_url = some-injective _ _ named in
      rw (subst (λ u. host.new_server u allow_http ≡ ok tt) (sym is_url) made)
        (λ i. ok (some (record { url = is_url i; allow_http = sym allowed i }))),
)

pub new_soroban_client_iff :
    (host : ServiceHost) (endpoint : Option String) (allow_http : Bool)
    (client : Option SorobanClient)
    → (new_soroban_client host endpoint allow_http ≡ ok client)
      ↔ IsClient host endpoint allow_http client
unfolding new_soroban_client
new_soroban_client_iff host none allow_http none = (λ h. refl, λ h. refl)
new_soroban_client_iff host none allow_http (some client) = (λ h. cc h, λ h. cc (h.0))
new_soroban_client_iff host (some url) allow_http none = elim (Bool-cases (url === "")) [
  | inl empty ↦ rw empty (λ h. refl, λ h. refl)
  | inr full ↦ rw full (
    λ h. let (done, made, same) = >>=-eq-ok (host.new_server url allow_http) _ h in cc same,
    λ h. cc h,
  )
]
new_soroban_client_iff host (some url) allow_http (some client) = elim (Bool-cases (url === "")) [
  | inl empty ↦ rw empty (λ h. cc h, λ h. cc (h.0))
  | inr full ↦ made-IsClient host url allow_http client full
]
