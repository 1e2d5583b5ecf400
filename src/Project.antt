-- ===== src/Project.antt =====
-- packages/common-stellar/src/project/utils.ts, packages/node/src/utils/project.ts and
-- `dsHasSorobanEventHandler` of packages/node/src/configure/SubqueryProject.ts: what kind of
-- datasource or handler a project names.
mod Tests
use subql_stellar.Prelude.{
  ℕ, String, Option, none, some, List, [], ◌∷◌, Bool, true, false, not, ◌&&◌, ◌===◌, is_some, any,
  contains, map, All, ◌≡◌, ◌≢◌, ◌↔◌, refl, sym, ap, ◌∙◌, inl, inr, Bool-cases, eq_iff, eq_refl,
  if◌then◌else◌, arith,
}
use subql_stellar.Types.{
  StellarHandlerKind, kind_text, handler_kinds, find_kind, switch_kind, StellarDatasourceKind,
  datasource_kind_text, SubqlDatasource, SubqlHandler,
}

unfoldable pub is_runtime_ds : SubqlDatasource → Bool
is_runtime_ds ds = ds.kind === datasource_kind_text StellarDatasourceKind.runtime

unfoldable pub is_custom_ds : SubqlDatasource → Bool
is_custom_ds ds =
    not (ds.kind === datasource_kind_text StellarDatasourceKind.runtime) && is_some ds.processor

-- A second-layer processor of handlers, by its base kind.
pub record SecondLayerHandlerProcessor : Type 0 where
  pub base_handler_kind : String

abbrev has_base_kind : StellarHandlerKind → SecondLayerHandlerProcessor → Bool
has_base_kind kind hp = hp.base_handler_kind === kind_text kind

abbrev pub is_block_handler_processor : SecondLayerHandlerProcessor → Bool
is_block_handler_processor = has_base_kind StellarHandlerKind.block

abbrev pub is_transaction_handler_processor : SecondLayerHandlerProcessor → Bool
is_transaction_handler_processor = has_base_kind StellarHandlerKind.transaction

abbrev pub is_soroban_transaction_handler_processor : SecondLayerHandlerProcessor → Bool
is_soroban_transaction_handler_processor = has_base_kind StellarHandlerKind.soroban_transaction

abbrev pub is_operation_handler_processor : SecondLayerHandlerProcessor → Bool
is_operation_handler_processor = has_base_kind StellarHandlerKind.operation

abbrev pub is_effect_handler_processor : SecondLayerHandlerProcessor → Bool
is_effect_handler_processor = has_base_kind StellarHandlerKind.effects

abbrev pub is_event_handler_processor : SecondLayerHandlerProcessor → Bool
is_event_handler_processor = has_base_kind StellarHandlerKind.event

unfoldable pub is_base_handler : SubqlHandler → Bool
is_base_handler handler = contains (map kind_text handler_kinds) handler.kind

unfoldable pub is_custom_handler : SubqlHandler → Bool
unfolding is_base_handler
is_custom_handler handler = not (is_base_handler handler)

abbrev is_event_handler : SubqlHandler → Bool
is_event_handler handler = handler.kind === kind_text StellarHandlerKind.event

unfoldable pub ds_has_soroban_event_handler : List SubqlDatasource → Bool
unfolding is_runtime_ds
ds_has_soroban_event_handler data_sources =
    any (λ (ds : SubqlDatasource). is_runtime_ds ds && any is_event_handler ds.mapping.handlers)
      data_sources

-- `!!errors.find((t) => t === e?.reason)`, by the error's reason; the first error that is the reason is that text.
abbrev pub is_handled_error : List String → Option String → Bool
is_handled_error errors none = false
is_handled_error errors (some reason) = contains errors reason && not (reason === "")

abbrev pub handled_errors : List String
handled_errors = "timeout" ∷ []

-- `retryOnFail` of node-core is an argument; its test is of an error's reason.
abbrev pub retry_on_fail_eth {ℓ} :
    {R : Type ℓ} → (R → (Option String → Bool) → R) → R → List String → R
retry_on_fail_eth retry_on_fail request errors = retry_on_fail request (is_handled_error errors)

-- A kind that a `switch` over the members finds is the text of the member.
find_kind_sound :
    (t : String) (k : StellarHandlerKind) (ks : List StellarHandlerKind)
    → find_kind t ks ≡ some k
    → kind_text k ≡ t
unfolding find_kind
find_kind_sound t k [] h = cc
find_kind_sound t k (j ∷ ks) h = elim (Bool-cases (kind_text j === t)) [
  | inl same ↦ ground (arith, eq_iff (kind_text j) t, h, same)
  | inr other ↦ ground (arith, find_kind_sound t k ks, h, other)
]

pub switch_kind_sound :
    (t : String) (k : StellarHandlerKind) → switch_kind t ≡ some k → kind_text k ≡ t
unfolding switch_kind
switch_kind_sound t k h = find_kind_sound t k handler_kinds h

find_kind-contains :
    (t : String) (ks : List StellarHandlerKind)
    → is_some (find_kind t ks) ≡ contains (map kind_text ks) t
unfolding find_kind
find_kind-contains t [] = refl
find_kind-contains t (k ∷ ks) = ground (arith, find_kind-contains t ks)

-- A handler is a base handler exactly where a `switch` over its kind has a case for it; all other
-- handlers are custom ones.
pub is_base_handler_lem :
    (handler : SubqlHandler)
    → (is_base_handler handler ≡ is_some (switch_kind handler.kind))
      × (is_custom_handler handler ≡ not (is_some (switch_kind handler.kind)))
unfolding is_base_handler is_custom_handler switch_kind
is_base_handler_lem handler = (
  sym (find_kind-contains handler.kind handler_kinds),
  ap not (sym (find_kind-contains handler.kind handler_kinds)),
)

-- No datasource is both a custom and a runtime one; it is neither exactly where it has another kind
-- and no processor.
pub is_custom_ds_lem :
    (ds : SubqlDatasource)
    → (is_custom_ds ds && is_runtime_ds ds ≡ false)
      × (not (is_custom_ds ds) && not (is_runtime_ds ds)
          ≡ not (ds.kind === datasource_kind_text StellarDatasourceKind.runtime)
            && not (is_some ds.processor))
unfolding is_custom_ds is_runtime_ds
is_custom_ds_lem ds = (ground arith, ground arith)
