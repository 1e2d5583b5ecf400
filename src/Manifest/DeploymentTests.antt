-- ===== src/Manifest/DeploymentTests.antt =====
-- A deployment with a runtime and a custom datasource.
use subql_stellar.Prelude.{true, false, ◌≡◌, refl, some}
use subql_stellar.Types.{switch_kind, find_kind}
use subql_stellar.Manifest.Values.{YamlValue, YamlItems, YamlFields, get_field, keys_within}
use subql_stellar.Manifest.Values.YamlValue.{null, boolean, integer, fraction, text, array, object}
use subql_stellar.Manifest.Values.YamlItems.{no_items, item}
use subql_stellar.Manifest.Values.YamlFields.{no_fields, field}
use subql_stellar.Manifest.Decorators.{Decorator, ClassName}
use subql_stellar.Manifest.Ranks.{no_properties, accepts, accepts-TestsAsDocumented}
use subql_stellar.Manifest.Validator.{validate, validate_below, validate-ValidatesByClass}
use subql_stellar.Manifest.Deployed.{is_scalar, AreDatasources}
use subql_stellar.Manifest.Deployments.{deployment-AreDatasources}

abbrev on_payment : YamlFields
on_payment =
    field "kind" (text "stellar/OperationHandler") (field "handler" (text "onPayment") no_fields)

abbrev runtime_fields : YamlFields
runtime_fields = field "kind" (text "stellar/Runtime") (
    field "mapping"
      (object (
        field "file" (text "./dist/index.js")
          (field "handlers" (array (item (object on_payment) no_items)) no_fields)))
      no_fields)

abbrev custom_fields : YamlFields
custom_fields =
    field "kind" (text "stellar/Custom")
      (field "processor" (object (field "file" (text "./p.js") no_fields)) no_fields)

abbrev deployment_of : YamlItems → YamlFields
deployment_of data_sources =
    field "network" (object (field "chainId" (text "Test SDF Network") no_fields)) (
      field "runner"
        (object (
          field "node" (object (field "name" (text "@subql/node-stellar") no_fields))
            (field "query" (object (field "name" (text "@subql/query") no_fields)) no_fields)))
        (field "dataSources" (array data_sources) no_fields))

abbrev deployment : YamlFields
deployment = deployment_of (item (object runtime_fields) (item (object custom_fields) no_items))

accepted_test : validate false ClassName.deployment deployment ≡ true
unfolding validate validate_below accepts get_field keys_within switch_kind find_kind
accepted_test = refl

-- A custom datasource without its processor.
rejected_test :
    validate false ClassName.deployment
      (deployment_of (item (object (field "kind" (text "stellar/Custom") no_fields)) no_items))
    ≡ false
unfolding validate validate_below accepts get_field keys_within switch_kind find_kind
rejected_test = refl

accepts-scalar :
    (v : YamlValue) → is_scalar v ≡ true → accepts Decorator.validate_nested (some v) ≡ false
unfolding accepts
accepts-scalar null h = cc h
accepts-scalar (boolean b) h = refl
accepts-scalar (integer n) h = refl
accepts-scalar (fraction n) h = refl
accepts-scalar (text t) h = refl
accepts-scalar (array xs) h = refl
accepts-scalar (object fs) h = refl

-- A datasource that is a text, and one whose mapping is.
scalar_test :
    validate false ClassName.deployment (deployment_of (item (text "ds") no_items)) ≡ false
unfolding validate validate_below accepts get_field keys_within switch_kind find_kind
scalar_test = refl

scalar_mapping_test :
    validate false ClassName.deployment (
      deployment_of (
        item
          (object (field "kind" (text "stellar/Runtime") (field "mapping" (text "m") no_fields)))
          no_items))
    ≡ false
unfolding validate validate_below accepts get_field keys_within switch_kind find_kind
scalar_mapping_test = refl

deployment-AreDatasources_example :
    (xs : YamlItems) × (get_field "dataSources" deployment ≡ some (array xs)) × AreDatasources xs
deployment-AreDatasources_example =
    deployment-AreDatasources no_properties accepts (validate false) false accepts-TestsAsDocumented
      (validate-ValidatesByClass false) accepts-scalar deployment accepted_test
