-- ===== src/Manifest/Deployed.antt =====
-- packages/common-stellar/src/project/versioned/v1_0_0/model.ts and project/models.ts: what the datasources of a deployment
-- can look like.
use subql_stellar.Prelude.{String, Option, none, some, Bool, true, false, ◌===◌, ◌≡◌, ◌⊎◌}
use subql_stellar.Types.{StellarHandlerKind, StellarDatasourceKind, datasource_kind_text}
use subql_stellar.Manifest.Values.{YamlValue, YamlItems, YamlFields, get_field, is_text}
use subql_stellar.Manifest.Values.YamlValue.{null, boolean, integer, fraction, text, array, object}
use subql_stellar.Manifest.Values.YamlItems.{no_items, item}
use subql_stellar.Manifest.Validation.{kind_of}

abbrev pub runtime_text : String
runtime_text = datasource_kind_text StellarDatasourceKind.runtime

-- A handler of a known kind names a function.
abbrev pub NamesFunction : Option StellarHandlerKind → YamlFields → Type 0
NamesFunction none o = Unit
NamesFunction (some k) o = is_text (get_field "handler" o) ≡ true

abbrev pub NameFunctions : YamlItems → Type 0
NameFunctions no_items = Unit
NameFunctions (item (object o) xs) = NamesFunction (kind_of o) o × NameFunctions xs
NameFunctions (item x xs) = NameFunctions xs

-- Texts, numbers and truth values.
abbrev pub is_scalar : YamlValue → Bool
is_scalar null = false
is_scalar (boolean b) = true
is_scalar (integer n) = true
is_scalar (fraction n) = true
is_scalar (text t) = true
is_scalar (array xs) = false
is_scalar (object fs) = false

-- A mapping is missing, a list, or an object that has a text for its file and a list of handlers.
abbrev pub IsMapping : Option YamlValue → Type 0
IsMapping (some (object m)) =
    (is_text (get_field "file" m) ≡ true)
    × ((hs : YamlItems) × (get_field "handlers" m ≡ some (array hs)) × NameFunctions hs)
IsMapping (some v) = is_scalar v ≡ false
IsMapping none = Unit

-- Either of the runtime kind, with such a mapping; or of another kind, with a processor.
abbrev pub IsDatasource : YamlFields → Type 0
IsDatasource o =
    ((get_field "kind" o ≡ some (text runtime_text)) × IsMapping (get_field "mapping" o))
    ⊎ ((t : String) × (p : YamlFields) × (get_field "kind" o ≡ some (text t))
        × ((t === runtime_text) ≡ false)
        × (get_field "processor" o ≡ some (object p)))

-- Each item is an object that is a datasource, or else `null` or a list.
abbrev pub AreDatasources : YamlItems → Type 0
AreDatasources no_items = Unit
AreDatasources (item (object o) xs) = IsDatasource o × AreDatasources xs
AreDatasources (item x xs) = (is_scalar x ≡ false) × AreDatasources xs
