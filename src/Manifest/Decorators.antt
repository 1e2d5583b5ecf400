-- ===== src/Manifest/Decorators.antt =====
-- packages/common-stellar/src/project/models.ts: the decorators of class-validator and class-transformer
-- that the classes of a manifest are declared with.
use subql_stellar.Prelude.{String, List}
use subql_stellar.Manifest.{HandlerClass}

-- class-validator's, and `forbidNonWhitelisted` of @subql/common with the keys of its object.
pub data Decorator : Type 0 where
  is_optional is_string is_int is_array is_object is_not_empty validate_nested : Decorator
  is_enum is_in forbid_non_whitelisted : List String → Decorator
  equals : String → Decorator

-- The classes, with those of @subql/common by their names.
pub data ClassName : Type 0 where
  block_filter transaction_filter operation_filter effect_filter event_filter : ClassName
  handler_of : HandlerClass → ClassName
  custom_handler stellar_mapping custom_mapping processor_options : ClassName
  runtime_datasource custom_datasource runtime_template custom_template : ClassName
  file_reference runner_node runner_specs : ClassName
  network_deployment project_network deployment project_manifest : ClassName
  external : String → ClassName

-- What class the objects of a property become instances of: none, that of `@Type`
-- (for a `Map`, that of its values), one of two by a
-- discriminator (the first for `stellar/Runtime`), or that which the `@Transform` of `handlers` gives them.
pub data PropertyType : Type 0 where
  untyped : PropertyType
  of_class : ClassName → PropertyType
  map_of : ClassName → PropertyType
  by_datasource_kind : ClassName → ClassName → PropertyType
  by_handler_kind : PropertyType

pub record Property : Type 0 where
  pub name : String
  pub type : PropertyType
  pub decorators : List Decorator
