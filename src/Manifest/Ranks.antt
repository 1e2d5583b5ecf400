-- ===== src/Manifest/Ranks.antt =====
-- packages/common-stellar/src/project/models.ts and versioned/v1_0_0/model.ts: how the classes of a manifest nest.
-- The tests of the decorators are given where the classes of @subql/common declare no properties.
use subql_stellar.Prelude.{
  ℕ, ◌<◌, String, Option, some, List, [], Bool, true, false, not, ◌||◌, ◌===◌, contains, All, refl,
  arith,
}
use subql_stellar.Manifest.{HandlerClass}
use subql_stellar.Manifest.Values.{
  YamlValue, keys_within, is_missing, text_with, is_text, is_plain_object, is_list, is_whole,
}
use subql_stellar.Manifest.Values.YamlValue.{object}
use subql_stellar.Manifest.Decorators.{Decorator, ClassName, PropertyType, Property}
use subql_stellar.Manifest.Versioned.{properties}
use subql_stellar.Manifest.Validation.{TestsAsDocumented}

abbrev pub no_properties : String → List Property
no_properties name = []

abbrev only_keys : List String → Option YamlValue → Bool
only_keys names (some (object o)) = keys_within names o
only_keys names v = false

unfoldable pub accepts : Decorator → Option YamlValue → Bool
accepts Decorator.is_optional v = true
accepts Decorator.is_string v = is_text v
accepts Decorator.is_int v = is_whole v
accepts Decorator.is_array v = is_list v
accepts Decorator.is_object v = is_plain_object v
accepts Decorator.is_not_empty v = not (is_missing v || text_with (λ t. t === "") v)
accepts Decorator.validate_nested v = is_missing v
accepts (Decorator.is_enum members) v = text_with (contains members) v
accepts (Decorator.is_in members) v = text_with (contains members) v
accepts (Decorator.forbid_non_whitelisted names) v = only_keys names v
accepts (Decorator.equals t) v = text_with (λ s. s === t) v

pub accepts-TestsAsDocumented : TestsAsDocumented accepts
unfolding accepts
accepts-TestsAsDocumented = record {
  on_string = λ v. refl;
  on_int = λ v. refl;
  on_array = λ v. refl;
  on_object = λ v. refl;
  on_enum = λ members v. refl;
  on_in = λ members v. refl;
  on_equals = λ t v. refl;
  on_forbid = λ names fs. refl;
}

abbrev pub rank : ClassName → ℕ
rank ClassName.block_filter = 0
rank ClassName.transaction_filter = 0
rank ClassName.operation_filter = 0
rank ClassName.effect_filter = 0
rank ClassName.event_filter = 0
rank (ClassName.handler_of c) = 1
rank ClassName.custom_handler = 0
rank ClassName.stellar_mapping = 2
rank ClassName.custom_mapping = 1
rank ClassName.processor_options = 0
rank ClassName.runtime_datasource = 3
rank ClassName.custom_datasource = 3
rank ClassName.runtime_template = 3
rank ClassName.custom_template = 3
rank ClassName.file_reference = 0
rank ClassName.runner_node = 0
rank ClassName.runner_specs = 1
rank ClassName.network_deployment = 0
rank ClassName.project_network = 0
rank ClassName.deployment = 4
rank ClassName.project_manifest = 4
rank (ClassName.external name) = 0

abbrev pub TypeBelow : ℕ → PropertyType → Type 0
TypeBelow n PropertyType.untyped = Unit
TypeBelow n (PropertyType.of_class c) = rank c < n
TypeBelow n (PropertyType.map_of c) = rank c < n
TypeBelow n (PropertyType.by_datasource_kind c d) = (rank c < n) × (rank d < n)
TypeBelow n PropertyType.by_handler_kind = 1 < n

pub properties-TypeBelow :
    (c : ClassName) → All (λ (p : Property). TypeBelow (rank c) p.type) (properties no_properties c)
properties-TypeBelow ClassName.block_filter = omega arith
properties-TypeBelow ClassName.transaction_filter = omega arith
properties-TypeBelow ClassName.operation_filter = omega arith
properties-TypeBelow ClassName.effect_filter = omega arith
properties-TypeBelow ClassName.event_filter = omega arith
properties-TypeBelow ClassName.custom_handler = omega arith
properties-TypeBelow ClassName.stellar_mapping = omega arith
properties-TypeBelow ClassName.custom_mapping = omega arith
properties-TypeBelow ClassName.processor_options = omega arith
properties-TypeBelow ClassName.runtime_datasource = omega arith
properties-TypeBelow ClassName.custom_datasource = omega arith
properties-TypeBelow ClassName.runtime_template = omega arith
properties-TypeBelow ClassName.custom_template = omega arith
properties-TypeBelow ClassName.file_reference = omega arith
properties-TypeBelow ClassName.runner_node = omega arith
properties-TypeBelow ClassName.runner_specs = omega arith
properties-TypeBelow ClassName.network_deployment = omega arith
properties-TypeBelow ClassName.project_network = omega arith
properties-TypeBelow ClassName.deployment = omega arith
properties-TypeBelow ClassName.project_manifest = omega arith
properties-TypeBelow (ClassName.handler_of HandlerClass.block_handler) = omega arith
properties-TypeBelow (ClassName.handler_of HandlerClass.transaction_handler) = omega arith
properties-TypeBelow (ClassName.handler_of HandlerClass.soroban_transaction_handler) = omega arith
properties-TypeBelow (ClassName.handler_of HandlerClass.operation_handler) = omega arith
properties-TypeBelow (ClassName.handler_of HandlerClass.effect_handler) = omega arith
properties-TypeBelow (ClassName.handler_of HandlerClass.event_handler) = omega arith
properties-TypeBelow (ClassName.external name) = tt
