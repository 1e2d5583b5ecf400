-- ===== src/Manifest/ValidatorTests.antt =====
-- Handlers, a mapping, a datasource and a manifest, and the theorems at them.
use subql_stellar.Prelude.{
  none, some, [], ◌∷◌, Bool, true, false, not, ◌&&◌, ◌||◌, ◌≢◌, ◌⊎◌, if◌then◌else◌, Result, ok,
  throw, new_error, ◌≡◌, refl,
}
use subql_stellar.Types.{StellarHandlerKind, SubqlDatasource, switch_kind, find_kind}
use subql_stellar.Project.{is_runtime_ds, is_custom_ds}
use subql_stellar.Manifest.{HandlerClass}
use subql_stellar.Manifest.Values.{YamlFields, get_field, keys, keys_within, is_text}
use subql_stellar.Manifest.Values.YamlValue.{text, array, object, boolean}
use subql_stellar.Manifest.Values.YamlItems.{no_items, item}
use subql_stellar.Manifest.Values.YamlFields.{no_fields, field}
use subql_stellar.Manifest.Decorators.{ClassName}
use subql_stellar.Manifest.Versioned.{stellar_node_name}
use subql_stellar.Manifest.Handlers.{is_handler, handler_lem, handler-keys}
use subql_stellar.Manifest.Datasources.{ReadsAs, handlers_pass, mapping_lem, datasource_kind}
use subql_stellar.Manifest.Load.{
  VersionClass, StellarProjectManifestVersioned, is_v1_0_0, new_versioned,
  parse_stellar_project_manifest, property_key, text_of, supported_version,
}
use subql_stellar.Manifest.Versions.{parse-is_v1_0_0}
use subql_stellar.Manifest.Ranks.{no_properties, accepts, accepts-TestsAsDocumented}
use subql_stellar.Manifest.Validator.{validate, validate_below, validate-ValidatesByClass}

abbrev account_filter : YamlFields
account_filter = field "account" (text "GABC") no_fields

abbrev rest_of_handler : YamlFields
rest_of_handler =
    field "kind" (text "stellar/TransactionHandler")
      (field "handler" (text "onTransaction") no_fields)

abbrev on_transaction : YamlFields
on_transaction = field "filter" (object account_filter) rest_of_handler

accepted_test :
    validate true (ClassName.handler_of HandlerClass.transaction_handler) on_transaction ≡ true
unfolding validate validate_below accepts get_field keys_within
accepted_test = refl

-- A key that the filter does not have.
rejected_test :
    validate true
      (ClassName.handler_of HandlerClass.transaction_handler)
      (field "filter" (object (field "sourceAccount" (text "GABC") no_fields)) rest_of_handler)
    ≡ false
unfolding validate validate_below accepts get_field keys_within
rejected_test = refl

get-filter : get_field "filter" on_transaction ≡ some (object account_filter)
unfolding get_field
get-filter = refl

handler_lem_example :
    validate true (ClassName.handler_of HandlerClass.transaction_handler) on_transaction
    ≡ is_handler true HandlerClass.transaction_handler on_transaction
unfolding get_field
handler_lem_example =
    handler_lem no_properties accepts (validate true) true accepts-TestsAsDocumented
      (validate-ValidatesByClass true) HandlerClass.transaction_handler on_transaction refl

transaction-ne-event : HandlerClass.transaction_handler ≢ HandlerClass.event_handler
transaction-ne-event h = cc h

-- An account that is no text.
abbrev odd_filter : YamlFields
odd_filter = field "account" (boolean true) no_fields

handler-keys_example :
    validate true (ClassName.handler_of HandlerClass.transaction_handler) on_transaction
    ≡ validate true
        (ClassName.handler_of HandlerClass.transaction_handler)
        (field "filter" (object odd_filter) rest_of_handler)
unfolding keys
handler-keys_example =
    handler-keys no_properties accepts (validate true) true accepts-TestsAsDocumented
      (validate-ValidatesByClass true) HandlerClass.transaction_handler account_filter odd_filter
      rest_of_handler transaction-ne-event refl

abbrev mapping : YamlFields
mapping =
    field "file" (text "./dist/index.js")
      (field "handlers" (array (item (object on_transaction) no_items)) no_fields)

mapping_lem_example : validate true ClassName.stellar_mapping mapping ≡ (
    (not true || keys_within ("handlers" ∷ "file" ∷ []) mapping)
    && handlers_pass true (item (object on_transaction) no_items)
    && is_text (get_field "file" mapping))
unfolding get_field switch_kind find_kind
mapping_lem_example =
    mapping_lem no_properties accepts (validate true) true accepts-TestsAsDocumented
      (validate-ValidatesByClass true) mapping (item (object on_transaction) no_items) refl
      ((StellarHandlerKind.transaction, refl), refl, tt)

abbrev custom_fields : YamlFields
custom_fields =
    field "kind" (text "stellar/Custom")
      (field "processor" (object (field "file" (text "./p.js") no_fields)) no_fields)

abbrev custom_ds : SubqlDatasource
custom_ds = record {
  kind = "stellar/Custom";
  mapping = record { file = "./dist/index.js"; handlers = [] };
  options = none;
  processor = some (record { file = "./p.js"; options = [] });
}

custom_fields-ReadsAs : ReadsAs custom_fields custom_ds
unfolding get_field
custom_fields-ReadsAs = record { kind = refl; processor = λ h. refl }

datasource_kind_example : (is_runtime_ds custom_ds ≡ true) ⊎ (is_custom_ds custom_ds ≡ true)
unfolding get_field validate validate_below accepts keys_within
datasource_kind_example =
    datasource_kind no_properties accepts (validate false) false accepts-TestsAsDocumented
      (validate-ValidatesByClass false) custom_fields custom_ds ClassName.custom_datasource
      custom_fields-ReadsAs refl refl

abbrev manifest : YamlFields
manifest = field "specVersion" (text "1.0.0") (
    field "name" (text "project") (
      field "version" (text "0.1") (
        field "schema" (object (field "file" (text "schema.graphql") no_fields)) (
          field "runner"
            (object (
              field "node" (object (field "name" (text "@subql/node-stellar") no_fields))
                (field "query" (object (field "name" (text "@subql/query") no_fields)) no_fields)))
            (field "dataSources" (array no_items) no_fields)))))

abbrev copy : VersionClass → YamlFields → Result YamlFields
copy class raw = ok raw

abbrev as_result : Bool → Result (Unit {0})
as_result b = if b then ok tt else throw (new_error "failed to validate")

abbrev check : YamlFields → Result (Unit {0})
check fs = as_result (validate false ClassName.project_manifest fs)

as_result-eq-ok : (b : Bool) → as_result b ≡ ok tt → b ≡ true
as_result-eq-ok true h = refl
as_result-eq-ok false h = cc h

abbrev parsed : StellarProjectManifestVersioned
parsed = record { class = VersionClass.v1_0_0; impl = manifest }

manifest-parsed : parse_stellar_project_manifest copy check manifest ≡ ok parsed
unfolding parse_stellar_project_manifest new_versioned supported_version property_key text_of
    get_field validate validate_below accepts keys_within
manifest-parsed = refl

parse-is_v1_0_0_example :
    (property_key (get_field "specVersion" manifest) ≡ "1.0.0")
    × (parsed.class ≡ VersionClass.v1_0_0)
    × (is_v1_0_0 parsed ≡ true)
    × ((r : YamlFields) × (n : YamlFields) × (get_field "runner" manifest ≡ some (object r))
        × (get_field "node" r ≡ some (object n))
        × (get_field "name" n ≡ some (text stellar_node_name)))
parse-is_v1_0_0_example =
    parse-is_v1_0_0 copy check no_properties accepts (validate false) false
      accepts-TestsAsDocumented (validate-ValidatesByClass false)
      (λ fs h. as_result-eq-ok (validate false ClassName.project_manifest fs) h) manifest parsed
      manifest-parsed

-- A name that every object inherits is taken for a class, and then has no method to validate with.
constructor_test :
    parse_stellar_project_manifest copy check (field "specVersion" (text "constructor") no_fields)
    ≡ throw (record { name = "TypeError"; message = "this._impl.validate is not a function" })
unfolding parse_stellar_project_manifest new_versioned supported_version property_key text_of
    get_field
constructor_test = refl
