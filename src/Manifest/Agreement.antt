-- ===== src/Manifest/Agreement.antt =====
-- packages/common-stellar/src/project/models.ts: an instance is validated alike by what agrees on the
-- classes of its parts.
use subql_stellar.Prelude.{
  ℕ, ◌<◌, Option, none, some, List, [], ◌∷◌, Bool, ◌&&◌, ◌||◌, All, ◌≡◌, refl, ap, ap₂, option_map,
  Bool-cases, inl, inr,
}
use subql_stellar.Types.{StellarHandlerKind}
use subql_stellar.Manifest.{handler_class}
use subql_stellar.Manifest.Values.{YamlValue, YamlItems, YamlFields, get_field, is_missing}
use subql_stellar.Manifest.Values.YamlValue.{null, boolean, integer, fraction, text, array, object}
use subql_stellar.Manifest.Values.YamlItems.{no_items, item}
use subql_stellar.Manifest.Values.YamlFields.{no_fields, field}
use subql_stellar.Manifest.Decorators.{Decorator, ClassName, PropertyType, Property}
use subql_stellar.Manifest.Validation.{
  class_of, kind_of, is_runtime_kind, instance_passes, object_passes, items_pass, values_pass,
  fields_pass, nested_passes, decorator_passes, property_passes, all, is_optional,
}
use subql_stellar.Manifest.Ranks.{no_properties, accepts, rank, TypeBelow}

-- Two validators that agree on the classes below a rank.
module _ (v w : ClassName → YamlFields → Bool) (n : ℕ)
    (agree : (c : ClassName) (fs : YamlFields) → rank c < n → v c fs ≡ w c fs) (strict : Bool) where
  instance_congr :
      (t : PropertyType) (o : YamlFields)
      → TypeBelow n t
      → instance_passes no_properties accepts v strict (class_of t o) o
        ≡ instance_passes no_properties accepts w strict (class_of t o) o
  instance_congr PropertyType.untyped o below = refl
  instance_congr (PropertyType.of_class c) o below = agree c o below
  instance_congr (PropertyType.map_of c) o below = refl
  instance_congr (PropertyType.by_datasource_kind c d) o below =
      elim (Bool-cases (is_runtime_kind o)) [
        | inl runtime ↦ rw runtime (agree c o below.0)
        | inr other ↦ rw other (agree d o below.1)
      ]
  instance_congr PropertyType.by_handler_kind o below = by_kind (kind_of o)
    where
      by_kind :
          (k : Option StellarHandlerKind)
          → instance_passes no_properties accepts v strict
              (option_map (λ j. ClassName.handler_of (handler_class j)) k)
              o
            ≡ instance_passes no_properties accepts w strict
                (option_map (λ j. ClassName.handler_of (handler_class j)) k)
                o
      by_kind none = refl
      by_kind (some k) = agree (ClassName.handler_of (handler_class k)) o below

  object_congr :
      (t : PropertyType) (x : Option YamlValue)
      → TypeBelow n t
      → object_passes no_properties accepts v strict t x
        ≡ object_passes no_properties accepts w strict t x
  object_congr t none below = refl
  object_congr t (some null) below = refl
  object_congr t (some (boolean b)) below = refl
  object_congr t (some (integer m)) below = refl
  object_congr t (some (fraction m)) below = refl
  object_congr t (some (text s)) below = refl
  object_congr t (some (array xs)) below = refl
  object_congr t (some (object o)) below = instance_congr t o below

  items_congr :
      (t : PropertyType) (xs : YamlItems)
      → TypeBelow n t
      → items_pass no_properties accepts v strict t xs
        ≡ items_pass no_properties accepts w strict t xs
  items_congr t no_items below = refl
  items_congr t (item x xs) below =
      ap₂ (λ a b. a && b) (object_congr t (some x) below) (items_congr t xs below)

  values_congr :
      (c : ClassName) (o : YamlFields)
      → rank c < n
      → values_pass no_properties accepts v strict c o
        ≡ values_pass no_properties accepts w strict c o
  values_congr c no_fields below = refl
  values_congr c (field k x o) below =
      ap₂ (λ a b. a && b) (object_congr (PropertyType.of_class c) (some x) below)
        (values_congr c o below)

  fields_congr :
      (t : PropertyType) (o : YamlFields)
      → TypeBelow n t
      → fields_pass no_properties accepts v strict t o
        ≡ fields_pass no_properties accepts w strict t o
  fields_congr (PropertyType.map_of c) o below = values_congr c o below
  fields_congr PropertyType.untyped o below = refl
  fields_congr (PropertyType.of_class c) o below = instance_congr (PropertyType.of_class c) o below
  fields_congr (PropertyType.by_datasource_kind c d) o below =
      instance_congr (PropertyType.by_datasource_kind c d) o below
  fields_congr PropertyType.by_handler_kind o below =
      instance_congr PropertyType.by_handler_kind o below

  nested_congr :
      (t : PropertyType) (x : Option YamlValue)
      → TypeBelow n t
      → nested_passes no_properties accepts v strict t x
        ≡ nested_passes no_properties accepts w strict t x
  nested_congr t (some (array xs)) below = items_congr t xs below
  nested_congr t (some (object o)) below = fields_congr t o below
  nested_congr t none below = refl
  nested_congr t (some null) below = refl
  nested_congr t (some (boolean b)) below = refl
  nested_congr t (some (integer m)) below = refl
  nested_congr t (some (fraction m)) below = refl
  nested_congr t (some (text s)) below = refl

  decorator_congr :
      (t : PropertyType) (x : Option YamlValue) (d : Decorator)
      → TypeBelow n t
      → decorator_passes no_properties accepts v strict t x d
        ≡ decorator_passes no_properties accepts w strict t x d
  decorator_congr t x Decorator.validate_nested below = nested_congr t x below
  decorator_congr t x Decorator.is_optional below = refl
  decorator_congr t x Decorator.is_string below = refl
  decorator_congr t x Decorator.is_int below = refl
  decorator_congr t x Decorator.is_array below = refl
  decorator_congr t x Decorator.is_object below = refl
  decorator_congr t x Decorator.is_not_empty below = refl
  decorator_congr t x (Decorator.is_enum names) below = refl
  decorator_congr t x (Decorator.is_in names) below = refl
  decorator_congr t x (Decorator.forbid_non_whitelisted names) below = refl
  decorator_congr t x (Decorator.equals s) below = refl

  decorators_congr :
      (t : PropertyType) (x : Option YamlValue) (ds : List Decorator)
      → TypeBelow n t
      → all (decorator_passes no_properties accepts v strict t x) ds
        ≡ all (decorator_passes no_properties accepts w strict t x) ds
  decorators_congr t x [] below = refl
  decorators_congr t x (d ∷ ds) below =
      ap₂ (λ a b. a && b) (decorator_congr t x d below) (decorators_congr t x ds below)

  pub properties_congr :
      (o : YamlFields) (ps : List Property)
      → All (λ (p : Property). TypeBelow n p.type) ps
      → all (property_passes no_properties accepts v strict o) ps
        ≡ all (property_passes no_properties accepts w strict o) ps
  properties_congr o [] below = refl
  properties_congr o (p ∷ ps) below =
      ap₂ (λ a b. a && b)
        (ap (λ b. (is_optional p.decorators && is_missing (get_field p.name o)) || b)
          (decorators_congr p.type (get_field p.name o) p.decorators below.0))
        (properties_congr o ps below.1)
