-- ===== src/Manifest/Versioned.antt =====
-- packages/common-stellar/src/project/versioned/v1_0_0/model.ts: the declarations of the classes of a
-- project and its deployment; and which properties a class has, with those of the class that it extends.
use subql_stellar.Prelude.{String, Option, none, some, List, [], ◌∷◌, ◌++◌}
use subql_stellar.Manifest.{HandlerClass}
use subql_stellar.Manifest.Decorators.{Decorator, ClassName, PropertyType, Property}
use subql_stellar.Manifest.Decorators.Decorator.{
  is_optional, is_string, is_array, is_object, is_not_empty, validate_nested, is_in, equals,
}
use subql_stellar.Manifest.Decorators.ClassName.{
  runtime_datasource, custom_datasource, runtime_template, custom_template, runner_node,
  runner_specs, network_deployment, project_network, external,
}
use subql_stellar.Manifest.Decorators.PropertyType.{untyped, of_class, by_datasource_kind}
use subql_stellar.Manifest.Models.{
  block_filter_properties, transaction_filter_properties, operation_filter_properties,
  effect_filter_properties, event_filter_properties, block_handler_properties,
  transaction_handler_properties, soroban_transaction_handler_properties,
  operation_handler_properties, effect_handler_properties, event_handler_properties,
  custom_handler_properties, stellar_mapping_properties, custom_mapping_properties,
  processor_options_properties, runtime_datasource_properties, file_reference_properties,
  custom_datasource_properties,
}

abbrev declare : String → PropertyType → List Decorator → Property
declare name type decorators = record { name = name; type = type; decorators = decorators }

abbrev required_text : String → Property
required_text name = declare name untyped (is_string ∷ [])

abbrev pub stellar_node_name : String
stellar_node_name = "@subql/node-stellar"

abbrev pub runner_node_properties : List Property
runner_node_properties = declare "name" untyped (is_in (stellar_node_name ∷ []) ∷ []) ∷ []

abbrev pub runtime_template_properties : List Property
runtime_template_properties = required_text "name" ∷ runtime_datasource_properties

abbrev pub custom_template_properties : List Property
custom_template_properties = required_text "name" ∷ custom_datasource_properties

abbrev pub runner_specs_properties : List Property
runner_specs_properties =
    declare "node" (of_class runner_node) (is_object ∷ validate_nested ∷ [])
    ∷ declare "query" (of_class (external "RunnerQueryBaseModel"))
        (is_object ∷ validate_nested ∷ [])
    ∷ []

abbrev pub network_deployment_properties : List Property
network_deployment_properties =
    declare "chainId" untyped (is_not_empty ∷ is_string ∷ [])
    ∷ declare "bypassBlocks" untyped (is_optional ∷ is_array ∷ [])
    ∷ []

abbrev pub project_network_properties : List Property
project_network_properties = declare "soroban" untyped (is_string ∷ is_optional ∷ []) ∷ []

abbrev data_sources_type : PropertyType
data_sources_type = by_datasource_kind runtime_datasource custom_datasource

abbrev templates_property : Property
templates_property =
    declare "templates" (by_datasource_kind runtime_template custom_template)
      (is_optional ∷ is_array ∷ validate_nested ∷ [])

abbrev runner_property : Property
runner_property = declare "runner" (of_class runner_specs) (is_object ∷ validate_nested ∷ [])

abbrev pub deployment_properties : List Property
deployment_properties =
    declare "network" (of_class network_deployment) (validate_nested ∷ [])
    ∷ runner_property
    ∷ declare "dataSources" data_sources_type (is_array ∷ validate_nested ∷ [])
    ∷ templates_property
    ∷ []

-- The property `dataSources` has a `@Type` and no validator of its own here.
abbrev pub project_manifest_properties : List Property
project_manifest_properties =
    declare "specVersion" untyped (equals "1.0.0" ∷ [])
    ∷ declare "dataSources" data_sources_type []
    ∷ declare "network" (of_class project_network) []
    ∷ required_text "name"
    ∷ required_text "version"
    ∷ declare "schema" (of_class (external "FileType")) (validate_nested ∷ [])
    ∷ templates_property
    ∷ runner_property
    ∷ declare "parent" (of_class (external "ParentProjectModel")) (is_optional ∷ is_object ∷ [])
    ∷ []

abbrev handler_properties : HandlerClass → List Property
handler_properties HandlerClass.block_handler = block_handler_properties
handler_properties HandlerClass.transaction_handler = transaction_handler_properties
handler_properties HandlerClass.soroban_transaction_handler = soroban_transaction_handler_properties
handler_properties HandlerClass.operation_handler = operation_handler_properties
handler_properties HandlerClass.effect_handler = effect_handler_properties
handler_properties HandlerClass.event_handler = event_handler_properties

-- The properties that the classes of the repository declare.
abbrev pub own_properties : ClassName → List Property
own_properties ClassName.block_filter = block_filter_properties
own_properties ClassName.transaction_filter = transaction_filter_properties
own_properties ClassName.operation_filter = operation_filter_properties
own_properties ClassName.effect_filter = effect_filter_properties
own_properties ClassName.event_filter = event_filter_properties
own_properties (ClassName.handler_of c) = handler_properties c
own_properties ClassName.custom_handler = custom_handler_properties
own_properties ClassName.stellar_mapping = stellar_mapping_properties
own_properties ClassName.custom_mapping = custom_mapping_properties
own_properties ClassName.processor_options = processor_options_properties
own_properties ClassName.runtime_datasource = runtime_datasource_properties
own_properties ClassName.custom_datasource = custom_datasource_properties
own_properties ClassName.runtime_template = runtime_template_properties
own_properties ClassName.custom_template = custom_template_properties
own_properties ClassName.file_reference = file_reference_properties
own_properties ClassName.runner_node = runner_node_properties
own_properties ClassName.runner_specs = runner_specs_properties
own_properties ClassName.network_deployment = network_deployment_properties
own_properties ClassName.project_network = project_network_properties
own_properties ClassName.deployment = deployment_properties
own_properties ClassName.project_manifest = project_manifest_properties
own_properties (ClassName.external name) = []

-- The class of @subql/common that a class extends; one of those is its own base.
abbrev pub base_class : ClassName → Option String
base_class ClassName.runtime_datasource = some "BaseDataSource"
base_class ClassName.custom_datasource = some "BaseDataSource"
base_class ClassName.runtime_template = some "BaseDataSource"
base_class ClassName.custom_template = some "BaseDataSource"
base_class ClassName.runner_node = some "RunnerNodeImpl"
base_class ClassName.project_network = some "CommonProjectNetworkV1_0_0"
base_class ClassName.deployment = some "BaseDeploymentV1_0_0"
base_class ClassName.project_manifest = some "ProjectManifestBaseImpl"
base_class (ClassName.external name) = some name
base_class ClassName.block_filter = none
base_class ClassName.transaction_filter = none
base_class ClassName.operation_filter = none
base_class ClassName.effect_filter = none
base_class ClassName.event_filter = none
base_class (ClassName.handler_of c) = none
base_class ClassName.custom_handler = none
base_class ClassName.stellar_mapping = none
base_class ClassName.custom_mapping = none
base_class ClassName.processor_options = none
base_class ClassName.file_reference = none
base_class ClassName.runner_specs = none
base_class ClassName.network_deployment = none

abbrev with_base : (String → List Property) → Option String → List Property → List Property
with_base base_properties none own = own
with_base base_properties (some name) own = own ++ base_properties name

abbrev pub properties : (String → List Property) → ClassName → List Property
properties base_properties c = with_base base_properties (base_class c) (own_properties c)
