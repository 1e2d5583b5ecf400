-- ===== src/Manifest/Validation.antt =====
-- packages/common-stellar/src/project/models.ts: what class-validator is taken to do with the declarations
-- of the classes. `accepts` is a single decorator's test, `validate` whether an instance of a class has no
-- errors, and `strict` whether the call forbids properties that are not declared.
use subql_stellar.Prelude.{
  String, Option, none, some, option_map, List, [], ◌∷◌, map, Bool, true, false, not, ◌&&◌, ◌||◌,
  ◌===◌, contains, if◌then◌else◌, All, and-eq-true, ◌≡◌,
}
use subql_stellar.Types.{
  StellarHandlerKind, switch_kind, StellarDatasourceKind, datasource_kind_text,
}
use subql_stellar.Manifest.{handler_class}
use subql_stellar.Manifest.Values.{
  YamlValue, YamlItems, YamlFields, get_field, keys_within, is_missing, text_with, is_text,
  is_plain_object, is_list, is_whole,
}
use subql_stellar.Manifest.Values.YamlValue.{null, boolean, integer, fraction, text, array, object}
use subql_stellar.Manifest.Values.YamlItems.{no_items, item}
use subql_stellar.Manifest.Values.YamlFields.{no_fields, field}
use subql_stellar.Manifest.Decorators.{Decorator, ClassName, PropertyType, Property}
use subql_stellar.Manifest.Versioned.{properties}

-- The tests of the single decorators, as their documentation has them.
pub record TestsAsDocumented (accepts : Decorator → Option YamlValue → Bool) : Type 0 where
  pub on_string : (v : Option YamlValue) → accepts Decorator.is_string v ≡ is_text v
  pub on_int : (v : Option YamlValue) → accepts Decorator.is_int v ≡ is_whole v
  pub on_array : (v : Option YamlValue) → accepts Decorator.is_array v ≡ is_list v
  pub on_object : (v : Option YamlValue) → accepts Decorator.is_object v ≡ is_plain_object v
  pub on_enum :
      (members : List String) (v : Option YamlValue)
      → accepts (Decorator.is_enum members) v ≡ text_with (contains members) v
  pub on_in :
      (members : List String) (v : Option YamlValue)
      → accepts (Decorator.is_in members) v ≡ text_with (contains members) v
  pub on_equals :
      (t : String) (v : Option YamlValue)
      → accepts (Decorator.equals t) v ≡ text_with (λ s. s === t) v
  pub on_forbid :
      (names : List String) (fs : YamlFields)
      → accepts (Decorator.forbid_non_whitelisted names) (some (object fs)) ≡ keys_within names fs

abbrev pub kind_of : YamlFields → Option StellarHandlerKind
kind_of fs = of_value (get_field "kind" fs)
  where
    of_value : Option YamlValue → Option StellarHandlerKind
    of_value none = none
    of_value (some null) = none
    of_value (some (boolean b)) = none
    of_value (some (integer n)) = none
    of_value (some (fraction n)) = none
    of_value (some (text t)) = switch_kind t
    of_value (some (array xs)) = none
    of_value (some (object o)) = none

abbrev pub is_runtime_kind : YamlFields → Bool
is_runtime_kind fs =
    text_with (λ t. t === datasource_kind_text StellarDatasourceKind.runtime) (get_field "kind" fs)

-- The class of an object, where it is an instance of one.
abbrev pub class_of : PropertyType → YamlFields → Option ClassName
class_of PropertyType.untyped fs = none
class_of (PropertyType.of_class c) fs = some c
class_of (PropertyType.map_of c) fs = none
class_of (PropertyType.by_datasource_kind runtime other) fs =
    some (if is_runtime_kind fs then runtime else other)
class_of PropertyType.by_handler_kind fs =
    option_map (λ k. ClassName.handler_of (handler_class k)) (kind_of fs)

abbrev pub is_optional : List Decorator → Bool
is_optional [] = false
is_optional (Decorator.is_optional ∷ ds) = true
is_optional (d ∷ ds) = is_optional ds

abbrev pub all : {A : Type 0} → (A → Bool) → List A → Bool
all p [] = true
all p (x ∷ xs) = p x && all p xs

pub all_sound :
    {A : Type 0} (p : A → Bool) (xs : List A) → all p xs ≡ true → All (λ x. p x ≡ true) xs
all_sound p [] h = tt
all_sound p (x ∷ xs) h =
    let (first, rest) = and-eq-true (p x) (all p xs) h in (first, all_sound p xs rest)

module _ (base_properties : String → List Property) (accepts : Decorator → Option YamlValue → Bool)
    (validate : ClassName → YamlFields → Bool) (strict : Bool) where
  -- An instance is validated by its class, and what has no class by the decorator's own test.
  abbrev pub instance_passes : Option ClassName → YamlFields → Bool
  instance_passes none fs = accepts Decorator.validate_nested (some (object fs))
  instance_passes (some c) fs = validate c fs

  abbrev pub object_passes : PropertyType → Option YamlValue → Bool
  object_passes t none = accepts Decorator.validate_nested none
  object_passes t (some null) = accepts Decorator.validate_nested (some null)
  object_passes t (some (boolean b)) = accepts Decorator.validate_nested (some (boolean b))
  object_passes t (some (integer n)) = accepts Decorator.validate_nested (some (integer n))
  object_passes t (some (fraction n)) = accepts Decorator.validate_nested (some (fraction n))
  object_passes t (some (text s)) = accepts Decorator.validate_nested (some (text s))
  object_passes t (some (array xs)) = accepts Decorator.validate_nested (some (array xs))
  object_passes t (some (object fs)) = instance_passes (class_of t fs) fs

  abbrev pub items_pass : PropertyType → YamlItems → Bool
  items_pass t no_items = true
  items_pass t (item x xs) = object_passes t (some x) && items_pass t xs

  abbrev pub values_pass : ClassName → YamlFields → Bool
  values_pass c no_fields = true
  values_pass c (field k v fs) =
      object_passes (PropertyType.of_class c) (some v) && values_pass c fs

  abbrev pub fields_pass : PropertyType → YamlFields → Bool
  fields_pass (PropertyType.map_of c) fs = values_pass c fs
  fields_pass t fs = instance_passes (class_of t fs) fs

  -- `@ValidateNested`: of an array each item, of a `Map` each value.
  abbrev pub nested_passes : PropertyType → Option YamlValue → Bool
  nested_passes t (some (array xs)) = items_pass t xs
  nested_passes t (some (object fs)) = fields_pass t fs
  nested_passes t v = accepts Decorator.validate_nested v

  abbrev pub decorator_passes : PropertyType → Option YamlValue → Decorator → Bool
  decorator_passes t v Decorator.validate_nested = nested_passes t v
  decorator_passes t v Decorator.is_optional = true
  decorator_passes t v d = accepts d v

  -- `@IsOptional` leaves the other decorators out where the value is missing.
  abbrev pub property_passes : YamlFields → Property → Bool
  property_passes fs p =
      (is_optional p.decorators && is_missing (get_field p.name fs))
      || all (decorator_passes p.type (get_field p.name fs)) p.decorators

  abbrev pub class_passes : ClassName → YamlFields → Bool
  class_passes c fs =
      let ps = properties base_properties c in
      (not strict || keys_within (map (λ (p : Property). p.name) ps) fs)
      && all (property_passes fs) ps

  -- An instance that passes has properties that all pass.
  pub class_passes-properties :
      (c : ClassName) (fs : YamlFields)
      → class_passes c fs ≡ true
      → All (λ p. property_passes fs p ≡ true) (properties base_properties c)
  class_passes-properties c fs h =
      let ps = properties base_properties c in
      all_sound (property_passes fs) ps (
        (and-eq-true (not strict || keys_within (map (λ (p : Property). p.name) ps) fs)
          (all (property_passes fs) ps) h).1)

  -- An instance has no errors exactly where its properties have none, and where none is undeclared if that
  -- is forbidden.
  abbrev pub ValidatesByClass : Type 0
  ValidatesByClass = (c : ClassName) (fs : YamlFields) → validate c fs ≡ class_passes c fs
