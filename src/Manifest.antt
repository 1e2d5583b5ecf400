-- ===== src/Manifest.antt =====
-- packages/common-stellar/src/project/models.ts, the transform of a mapping's handlers, and
-- versioned/v1_0_0/model.ts, that of a deployment's network. class-transformer's `plainToClass` copies
-- the fields of an object into an instance of a class: the result is the class and the object.
pub mod Values
pub mod Decorators
pub mod Models
pub mod Versioned
pub mod Validation
pub mod Handlers
pub mod Datasources
pub mod Deployed
pub mod Deployments
pub mod Instances
pub mod Load
pub mod Versions
pub mod Ranks
pub mod Agreement
pub mod Validator
mod DeploymentTests
mod ValidatorTests
use subql_stellar.Prelude.{
  String, Option, none, some, List, [], ◌∷◌, Bool, true, false, ◌&&◌, ◌||◌, not, is_some, truthy,
  if◌then◌else◌, Result, ok, throw, JsError, new_error, ◌>>=◌, map_result, ◌<+>◌, All, ◌≡◌, ◌↔◌,
  refl, sym, ◌∙◌, Bool-cases, inl, inr, >>=-eq-ok, arith,
}
use subql_stellar.Types.{SubqlHandler, StellarHandlerKind, switch_kind}
use subql_stellar.Project.{is_base_handler, is_base_handler_lem}

pub data HandlerClass : Type 0 where
  block_handler transaction_handler soroban_transaction_handler : HandlerClass
  operation_handler effect_handler event_handler : HandlerClass

abbrev pub handler_class : StellarHandlerKind → HandlerClass
handler_class StellarHandlerKind.block = block_handler
handler_class StellarHandlerKind.transaction = transaction_handler
handler_class StellarHandlerKind.soroban_transaction = soroban_transaction_handler
handler_class StellarHandlerKind.operation = operation_handler
handler_class StellarHandlerKind.effects = effect_handler
handler_class StellarHandlerKind.event = event_handler

-- The `switch`, by the case that it takes.
abbrev pub switch_handler :
    SubqlHandler → Option StellarHandlerKind → Result (HandlerClass × SubqlHandler)
switch_handler handler none = throw (new_error ("handler " <+> handler.kind <+> " not supported"))
switch_handler handler (some kind) = ok (handler_class kind, handler)

unfoldable pub transform_handler : SubqlHandler → Result (HandlerClass × SubqlHandler)
transform_handler handler = switch_handler handler (switch_kind handler.kind)

-- The `@Transform` of `StellarMapping.handlers`.
unfoldable pub transform_handlers : List SubqlHandler → Result (List (HandlerClass × SubqlHandler))
unfolding transform_handler
transform_handlers handlers = map_result transform_handler handlers

-- The network of a deployment, before and after its `@Transform`.
pub record NetworkDeployment : Type 0 where
  pub chain_id : Option String
  pub genesis_hash : Option String

unfoldable pub transform_network : NetworkDeployment → NetworkDeployment
transform_network network =
    if truthy network.genesis_hash && not (truthy network.chain_id)
    then record network { chain_id = network.genesis_hash }
    else network

map_result_iff {ℓ κ} :
    {A : Type ℓ} {B : Type κ} (f : A → Result B) (test : A → Bool)
    → ((a : A) → ((b : B) × (f a ≡ ok b)) ↔ (test a ≡ true))
    → (xs : List A) → ((bs : List B) × (map_result f xs ≡ ok bs)) ↔ All (λ a. test a ≡ true) xs
map_result_iff f test each [] = (λ h. tt, λ h. ([], refl))
map_result_iff f test each (x ∷ xs) =
    let (to, from) = map_result_iff f test each xs in
    (
      λ h.
          let (b, e, h') = >>=-eq-ok (f x) _ (h.1) in
          let (bs, e', h'') = >>=-eq-ok (map_result f xs) _ h' in ((each x).0 (b, e), to (bs, e')),
      λ h. let (b, e) = (each x).1 h.0 in let (bs, e') = from h.1 in (b ∷ bs, rw (e, e') refl),
    )

switch_handler_iff :
    (handler : SubqlHandler) (kind : Option StellarHandlerKind)
    → ((r : HandlerClass × SubqlHandler) × (switch_handler handler kind ≡ ok r))
      ↔ (is_some kind ≡ true)
switch_handler_iff handler none = (λ h. cc (h.1), λ h. cc h)
switch_handler_iff handler (some kind) = (λ h. refl, λ h. ((handler_class kind, handler), refl))

transform_handler_iff :
    (handler : SubqlHandler)
    → ((r : HandlerClass × SubqlHandler) × (transform_handler handler ≡ ok r))
      ↔ (is_base_handler handler ≡ true)
unfolding transform_handler
transform_handler_iff handler =
    let (to, from) = switch_handler_iff handler (switch_kind handler.kind) in
    let same = (is_base_handler_lem handler).0 in (λ h. same ∙ to h, λ h. from (sym same ∙ h))

-- The handlers of a runtime datasource are accepted exactly where each of them is a base handler: one
-- custom handler makes the manifest fail.
pub transform_handlers_iff :
    (handlers : List SubqlHandler)
    → ((r : List (HandlerClass × SubqlHandler)) × (transform_handlers handlers ≡ ok r))
      ↔ All (λ h. is_base_handler h ≡ true) handlers
unfolding transform_handlers
transform_handlers_iff handlers =
    map_result_iff transform_handler is_base_handler transform_handler_iff handlers

-- A deployment's network is left with a chain id exactly where it comes with one or with a genesis
-- hash, and a chain id that it comes with is kept.
pub transform_network_lem :
    (network : NetworkDeployment)
    → (truthy (transform_network network).chain_id
        ≡ (truthy network.chain_id || truthy network.genesis_hash))
      × ((if truthy network.chain_id then (transform_network network).chain_id else none)
          ≡ (if truthy network.chain_id then network.chain_id else none))
unfolding transform_network
transform_network_lem network = (ground arith, ground arith)
