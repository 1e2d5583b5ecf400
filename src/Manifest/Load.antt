-- ===== src/Manifest/Load.antt =====
-- packages/common-stellar/src/project/load.ts and versioned/ProjectManifestVersioned.ts: the choice of the class
-- of a manifest by its version. `plain_to_class` is class-transformer's, with the fields of the instance, and
-- `validate_impl` the method `validate` that the class has from @subql/common.
use subql_stellar.Prelude.{
  String, Option, none, some, List, [], ◌∷◌, Bool, true, false, ◌===◌, if◌then◌else◌, contains,
  ◌<+>◌, Result, ok, throw, new_error, ◌>>=◌,
}
use subql_stellar.Stellar.Api.{type_error}
use subql_stellar.Manifest.Values.{YamlValue, YamlItems, YamlFields, get_field, text_with}
use subql_stellar.Manifest.Values.YamlValue.{null, boolean, integer, fraction, text, array, object}
use subql_stellar.Manifest.Values.YamlItems.{no_items, item}

-- The name of the property that `o[value]` reads: `String(value)`.
unfoldable mutual
  pub text_of : YamlValue → String
  text_of null = "null"
  text_of (boolean true) = "true"
  text_of (boolean false) = "false"
  text_of (integer n) = n
  text_of (fraction n) = n
  text_of (text t) = t
  text_of (array xs) = joined xs
  text_of (object fs) = "[object Object]"

  pub joined : YamlItems → String
  joined no_items = ""
  joined (item x no_items) = item_text x
  joined (item x (item y xs)) = item_text x <+> "," <+> joined (item y xs)

  -- `join` takes the empty text for a missing item.
  pub item_text : YamlValue → String
  item_text null = ""
  item_text (boolean true) = "true"
  item_text (boolean false) = "false"
  item_text (integer n) = n
  item_text (fraction n) = n
  item_text (text t) = t
  item_text (array xs) = joined xs
  item_text (object fs) = "[object Object]"

unfoldable pub property_key : Option YamlValue → String
unfolding text_of
property_key none = "undefined"
property_key (some v) = text_of v

-- What `SOROBAN_SUPPORTED_VERSIONS` has under a key: the class, or what every object inherits.
pub data VersionClass : Type 0 where
  v1_0_0 : VersionClass
  inherited : String → VersionClass

abbrev pub object_prototype_keys : List String
object_prototype_keys =
    "constructor" ∷ "__defineGetter__" ∷ "__defineSetter__" ∷ "hasOwnProperty" ∷ "__lookupGetter__"
    ∷ "__lookupSetter__" ∷ "isPrototypeOf" ∷ "propertyIsEnumerable" ∷ "toString" ∷ "valueOf"
    ∷ "__proto__" ∷ "toLocaleString" ∷ []

unfoldable pub supported_version : String → Option VersionClass
supported_version key =
    if key === "1.0.0"
    then some v1_0_0
    else if contains object_prototype_keys key
    then some (inherited key)
    else none

-- `StellarProjectManifestVersioned`: the class of `_impl`, and its fields.
pub record StellarProjectManifestVersioned : Type 0 where
  pub class : VersionClass
  pub impl : YamlFields

abbrev pub spec_version : StellarProjectManifestVersioned → Option YamlValue
spec_version m = get_field "specVersion" m.impl

unfoldable pub is_v1_0_0 : StellarProjectManifestVersioned → Bool
unfolding get_field
is_v1_0_0 m = text_with (λ t. t === "1.0.0") (spec_version m)

-- `manifestIsV1_0_0`, of the fields of a manifest.
unfoldable pub manifest_is_v1_0_0 : YamlFields → Bool
unfolding get_field
manifest_is_v1_0_0 manifest = text_with (λ t. t === "1.0.0") (get_field "specVersion" manifest)

abbrev pub as_impl : StellarProjectManifestVersioned → YamlFields
as_impl m = m.impl

-- The cast is not checked.
abbrev pub as_v1_0_0 : StellarProjectManifestVersioned → YamlFields
as_v1_0_0 m = m.impl

abbrev pub description : StellarProjectManifestVersioned → Option YamlValue
description m = get_field "description" m.impl

abbrev pub repository : StellarProjectManifestVersioned → Option YamlValue
repository m = get_field "repository" m.impl

abbrev pub get_data_sources : StellarProjectManifestVersioned → Option YamlValue
get_data_sources m = get_field "dataSources" m.impl

abbrev property_file : Option YamlValue → Result (Option YamlValue)
property_file none = throw (type_error "Cannot read properties of undefined (reading 'file')")
property_file (some null) = throw (type_error "Cannot read properties of null (reading 'file')")
property_file (some (object o)) = ok (get_field "file" o)
property_file (some v) = ok none

abbrev pub schema : StellarProjectManifestVersioned → Result (Option YamlValue)
schema m = property_file (get_field "schema" m.impl)

module _ (plain_to_class : VersionClass → YamlFields → Result YamlFields)
    (validate_impl : YamlFields → Result (Unit {0})) where
  abbrev pub instantiate : Option VersionClass → YamlFields → Result StellarProjectManifestVersioned
  instantiate none raw = throw (new_error "specVersion not supported for project manifest file")
  instantiate (some class) raw = do
    impl ← plain_to_class class raw
    ok (record { class = class; impl = impl })

  -- The constructor.
  unfoldable pub new_versioned : YamlFields → Result StellarProjectManifestVersioned
  unfolding supported_version property_key get_field
  new_versioned raw =
      instantiate (supported_version (property_key (get_field "specVersion" raw))) raw

  -- What an object inherits has no method `validate`.
  abbrev pub validate_class : VersionClass → YamlFields → Result (Unit {0})
  validate_class v1_0_0 impl = validate_impl impl
  validate_class (inherited key) impl = throw (type_error "this._impl.validate is not a function")

  abbrev pub validate_versioned : StellarProjectManifestVersioned → Result (Unit {0})
  validate_versioned m = validate_class m.class m.impl

  unfoldable pub parse_stellar_project_manifest :
      YamlFields → Result StellarProjectManifestVersioned
  unfolding new_versioned
  parse_stellar_project_manifest raw = do
    project_manifest ← new_versioned raw
    done ← validate_versioned project_manifest
    ok project_manifest
