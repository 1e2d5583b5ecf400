-- ===== src/Manifest/Instances.antt =====
-- packages/common-stellar/src/project: what is known of the properties of an instance that is accepted.
use subql_stellar.Prelude.{
  String, Option, some, List, Bool, true, ◌&&◌, All, and-eq-true, ◌≡◌, sym, subst, ◌∙◌,
}
use subql_stellar.Manifest.Values.{YamlValue, YamlFields, is_plain_object_sound}
use subql_stellar.Manifest.Values.YamlValue.{object}
use subql_stellar.Manifest.Decorators.{Decorator, ClassName, PropertyType, Property}
use subql_stellar.Manifest.Versioned.{properties}
use subql_stellar.Manifest.Validation.{
  TestsAsDocumented, ValidatesByClass, class_passes-properties, nested_passes, property_passes,
}

module _ (base_properties : String → List Property) (accepts : Decorator → Option YamlValue → Bool)
    (validate : ClassName → YamlFields → Bool) (strict : Bool) (tests : TestsAsDocumented accepts)
    (by_class : ValidatesByClass base_properties accepts validate strict) where
  -- All its properties pass.
  pub passes :
      (c : ClassName) (fs : YamlFields)
      → validate c fs ≡ true
      → All
          (λ p. property_passes base_properties accepts validate strict fs p ≡ true)
          (properties base_properties c)
  passes c fs valid =
      class_passes-properties base_properties accepts validate strict c fs
        (sym (by_class c fs) ∙ valid)

  -- A property with `@IsObject` and `@ValidateNested` is an instance that passes.
  pub instance_lem :
      (c : ClassName) (v : Option YamlValue)
      → (accepts Decorator.is_object v
          && (nested_passes base_properties accepts validate strict (PropertyType.of_class c) v
              && true))
        ≡ true
      → (o : YamlFields) × (v ≡ some (object o)) × (validate c o ≡ true)
  instance_lem c v h =
      let (is_object, nested) = and-eq-true (accepts Decorator.is_object v) _ h in
      let (o, e) = is_plain_object_sound v (sym (tests.on_object v) ∙ is_object) in
      (
        o,
        e,
        (and-eq-true (validate c o) true (
            subst
              (λ x.
                (nested_passes base_properties accepts validate strict (PropertyType.of_class c) x
                  && true)
                ≡ true)
              e nested)).0,
      )
