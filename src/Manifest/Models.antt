-- ===== src/Manifest/Models.antt =====
-- packages/common-stellar/src/project/models.ts: the declarations of the classes of filters, handlers,
-- mappings and datasources.
use subql_stellar.Prelude.{String, List, [], ◌∷◌, map}
use subql_stellar.Types.{kind_text, handler_kinds, StellarDatasourceKind, datasource_kind_text}
use subql_stellar.Manifest.Decorators.{Decorator, PropertyType, Property}
use subql_stellar.Manifest.Decorators.Decorator.{
  is_optional, is_string, is_int, is_array, is_object, validate_nested, is_enum,
  forbid_non_whitelisted,
}
use subql_stellar.Manifest.Decorators.ClassName.{
  block_filter, transaction_filter, operation_filter, effect_filter, event_filter, custom_handler,
  stellar_mapping, custom_mapping, processor_options, file_reference, external,
}
use subql_stellar.Manifest.Decorators.PropertyType.{untyped, of_class, map_of, by_handler_kind}

abbrev declare : String → PropertyType → List Decorator → Property
declare name type decorators = record { name = name; type = type; decorators = decorators }

abbrev optional_text : String → Property
optional_text name = declare name untyped (is_optional ∷ is_string ∷ [])

abbrev pub block_filter_properties : List Property
block_filter_properties =
    declare "modulo" untyped (is_optional ∷ is_int ∷ []) ∷ optional_text "timestamp" ∷ []

abbrev pub transaction_filter_properties : List Property
transaction_filter_properties = optional_text "account" ∷ []

abbrev pub operation_filter_properties : List Property
operation_filter_properties =
    declare "type" untyped (is_optional ∷ []) ∷ optional_text "sourceAccount" ∷ []

abbrev pub effect_filter_properties : List Property
effect_filter_properties = optional_text "type" ∷ optional_text "account" ∷ []

-- The properties `kind` and `handler` of the classes of handlers. The groups of `@IsEnum` select nothing
-- where a validation names no group.
abbrev kind_and_handler : List Property
kind_and_handler =
    declare "kind" untyped (is_enum (map kind_text handler_kinds) ∷ [])
    ∷ declare "handler" untyped (is_string ∷ [])
    ∷ []

abbrev pub block_handler_properties : List Property
block_handler_properties =
    declare "filter" (of_class block_filter) (is_object ∷ is_optional ∷ []) ∷ kind_and_handler

abbrev pub transaction_handler_properties : List Property
transaction_handler_properties =
    declare "filter" (of_class transaction_filter)
      (forbid_non_whitelisted ("account" ∷ []) ∷ is_object ∷ is_optional ∷ [])
    ∷ kind_and_handler

abbrev pub soroban_transaction_handler_properties : List Property
soroban_transaction_handler_properties =
    declare "filter" (of_class transaction_filter)
      (forbid_non_whitelisted ("account" ∷ []) ∷ is_object ∷ is_optional ∷ [])
    ∷ kind_and_handler

abbrev pub operation_handler_properties : List Property
operation_handler_properties =
    declare "filter" (of_class operation_filter)
      (forbid_non_whitelisted ("type" ∷ "sourceAccount" ∷ []) ∷ is_object ∷ is_optional ∷ [])
    ∷ kind_and_handler

abbrev pub effect_handler_properties : List Property
effect_handler_properties =
    declare "filter" (of_class effect_filter)
      (forbid_non_whitelisted ("type" ∷ "account" ∷ []) ∷ is_object ∷ is_optional ∷ [])
    ∷ kind_and_handler

abbrev pub event_filter_properties : List Property
event_filter_properties =
    optional_text "contractId" ∷ declare "topics" untyped (is_optional ∷ is_array ∷ []) ∷ []

abbrev pub event_handler_properties : List Property
event_handler_properties =
    declare "filter" (of_class event_filter)
      (forbid_non_whitelisted ("topics" ∷ "contractId" ∷ []) ∷ is_optional ∷ validate_nested ∷ [])
    ∷ kind_and_handler

abbrev pub custom_handler_properties : List Property
custom_handler_properties =
    declare "kind" untyped (is_string ∷ [])
    ∷ declare "handler" untyped (is_string ∷ [])
    ∷ declare "filter" untyped (is_object ∷ is_optional ∷ [])
    ∷ []

abbrev pub stellar_mapping_properties : List Property
stellar_mapping_properties =
    declare "handlers" by_handler_kind (is_array ∷ validate_nested ∷ [])
    ∷ declare "file" untyped (is_string ∷ [])
    ∷ []

abbrev pub custom_mapping_properties : List Property
custom_mapping_properties =
    declare "handlers" (of_class custom_handler) (is_array ∷ validate_nested ∷ [])
    ∷ declare "file" untyped (is_string ∷ [])
    ∷ []

abbrev pub processor_options_properties : List Property
processor_options_properties = optional_text "abi" ∷ optional_text "address" ∷ []

abbrev pub runtime_datasource_properties : List Property
runtime_datasource_properties =
    declare "kind" untyped (is_enum (datasource_kind_text StellarDatasourceKind.runtime ∷ []) ∷ [])
    ∷ declare "mapping" (of_class stellar_mapping) (validate_nested ∷ [])
    ∷ declare "assets" untyped (is_optional ∷ [])
    ∷ declare "options" (of_class processor_options) (is_optional ∷ validate_nested ∷ [])
    ∷ []

abbrev pub file_reference_properties : List Property
file_reference_properties = declare "file" untyped (is_string ∷ []) ∷ []

abbrev pub custom_datasource_properties : List Property
custom_datasource_properties =
    declare "kind" untyped (is_string ∷ [])
    ∷ declare "mapping" (of_class custom_mapping) (validate_nested ∷ [])
    ∷ declare "startBlock" untyped (is_optional ∷ is_int ∷ [])
    ∷ declare "assets" (map_of file_reference) (validate_nested ∷ [])
    ∷ declare "processor" (of_class (external "ProcessorImpl")) (is_object ∷ [])
    ∷ declare "options" untyped (is_optional ∷ validate_nested ∷ [])
    ∷ []
