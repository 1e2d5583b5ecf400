-- ===== src/Manifest/Deployments.antt =====
-- packages/common-stellar/src/project/versioned/v1_0_0/model.ts and project/models.ts: what is known of the
-- datasources of a deployment that is accepted.
use subql_stellar.Prelude.{
  String, Option, none, some, List, All, Bool, true, false, ◌&&◌, ◌===◌, if◌then◌else◌, and-eq-true,
  option_map, Bool-cases, inl, inr, eq_iff, ◌≡◌, refl, sym, ap, subst, ◌∙◌,
}
use subql_stellar.Types.{StellarHandlerKind}
use subql_stellar.Manifest.{HandlerClass, handler_class}
use subql_stellar.Manifest.Values.{
  YamlValue, YamlItems, YamlFields, get_field, text_with, is_text, text_with_sound,
  is_plain_object_sound, is_list_sound,
}
use subql_stellar.Manifest.Values.YamlValue.{null, boolean, integer, fraction, text, array, object}
use subql_stellar.Manifest.Values.YamlItems.{no_items, item}
use subql_stellar.Manifest.Decorators.{Decorator, ClassName, PropertyType, Property}
use subql_stellar.Manifest.Validation.{
  TestsAsDocumented, ValidatesByClass, kind_of, is_runtime_kind, instance_passes, items_pass,
  nested_passes, property_passes,
}
use subql_stellar.Manifest.Versioned.{properties}
use subql_stellar.Manifest.Instances.{passes}
use subql_stellar.Manifest.Deployed.{
  runtime_text, NamesFunction, NameFunctions, is_scalar, IsMapping, IsDatasource, AreDatasources,
}

module _ (base_properties : String → List Property) (accepts : Decorator → Option YamlValue → Bool)
    (validate : ClassName → YamlFields → Bool) (strict : Bool) (tests : TestsAsDocumented accepts)
    (by_class : ValidatesByClass base_properties accepts validate strict)
    (on_nested : (v : YamlValue)
      → is_scalar v ≡ true
      → accepts Decorator.validate_nested (some v) ≡ false) where
  -- `@ValidateNested` takes no scalar.
  no_scalar :
      (v : YamlValue) → accepts Decorator.validate_nested (some v) ≡ true → is_scalar v ≡ false
  no_scalar v h = elim (Bool-cases (is_scalar v)) [
    | inl scalar ↦ cc (h, on_nested v scalar)
    | inr other ↦ other
  ]

  text_lem :
      (v : Option YamlValue) → (accepts Decorator.is_string v && true) ≡ true → is_text v ≡ true
  text_lem v h = sym (tests.on_string v) ∙ (and-eq-true (accepts Decorator.is_string v) true h).0

  handler_passes :
      (c : HandlerClass) (o : YamlFields)
      → validate (ClassName.handler_of c) o ≡ true
      → All
          (λ p. property_passes base_properties accepts validate strict o p ≡ true)
          (properties base_properties (ClassName.handler_of c))
  handler_passes c o h =
      passes base_properties accepts validate strict tests by_class (ClassName.handler_of c) o h

  handler-NamesFunction :
      (c : HandlerClass) (o : YamlFields)
      → validate (ClassName.handler_of c) o ≡ true
      → is_text (get_field "handler" o) ≡ true
  handler-NamesFunction HandlerClass.block_handler o h =
      text_lem _ (handler_passes HandlerClass.block_handler o h).1.1.0
  handler-NamesFunction HandlerClass.transaction_handler o h =
      text_lem _ (handler_passes HandlerClass.transaction_handler o h).1.1.0
  handler-NamesFunction HandlerClass.soroban_transaction_handler o h =
      text_lem _ (handler_passes HandlerClass.soroban_transaction_handler o h).1.1.0
  handler-NamesFunction HandlerClass.operation_handler o h =
      text_lem _ (handler_passes HandlerClass.operation_handler o h).1.1.0
  handler-NamesFunction HandlerClass.effect_handler o h =
      text_lem _ (handler_passes HandlerClass.effect_handler o h).1.1.0
  handler-NamesFunction HandlerClass.event_handler o h =
      text_lem _ (handler_passes HandlerClass.event_handler o h).1.1.0

  object-NamesFunction :
      (k : Option StellarHandlerKind) (o : YamlFields)
      → instance_passes base_properties accepts validate strict
          (option_map (λ k. ClassName.handler_of (handler_class k)) k)
          o
        ≡ true
      → NamesFunction k o
  object-NamesFunction none o h = tt
  object-NamesFunction (some k) o h = handler-NamesFunction (handler_class k) o h

  items-NameFunctions :
      (xs : YamlItems)
      → items_pass base_properties accepts validate strict PropertyType.by_handler_kind xs ≡ true
      → NameFunctions xs
  items-NameFunctions no_items h = tt
  items-NameFunctions (item null xs) h = items-NameFunctions xs (and-eq-true _ _ h).1
  items-NameFunctions (item (boolean b) xs) h = items-NameFunctions xs (and-eq-true _ _ h).1
  items-NameFunctions (item (integer n) xs) h = items-NameFunctions xs (and-eq-true _ _ h).1
  items-NameFunctions (item (fraction n) xs) h = items-NameFunctions xs (and-eq-true _ _ h).1
  items-NameFunctions (item (text t) xs) h = items-NameFunctions xs (and-eq-true _ _ h).1
  items-NameFunctions (item (array ys) xs) h = items-NameFunctions xs (and-eq-true _ _ h).1
  items-NameFunctions (item (object o) xs) h =
      let (first, rest) = and-eq-true _ _ h in
      (object-NamesFunction (kind_of o) o first, items-NameFunctions xs rest)

  -- A list with `@IsArray` and `@ValidateNested`.
  items_lem :
      (t : PropertyType) (v : Option YamlValue)
      → (accepts Decorator.is_array v
          && (nested_passes base_properties accepts validate strict t v && true))
        ≡ true
      → (xs : YamlItems) × (v ≡ some (array xs))
        × (items_pass base_properties accepts validate strict t xs ≡ true)
  items_lem t v h =
      let (is_array, nested) = and-eq-true (accepts Decorator.is_array v) _ h in
      let (xs, e) = is_list_sound v (sym (tests.on_array v) ∙ is_array) in
      (
        xs,
        e,
        (and-eq-true (items_pass base_properties accepts validate strict t xs) true (
            subst (λ x. (nested_passes base_properties accepts validate strict t x && true) ≡ true)
              e nested)).0,
      )

  nested_passes-IsMapping :
      (v : Option YamlValue)
      → nested_passes base_properties accepts validate strict
          (PropertyType.of_class ClassName.stellar_mapping)
          v
        ≡ true
      → IsMapping v
  nested_passes-IsMapping none h = tt
  nested_passes-IsMapping (some null) h = refl
  nested_passes-IsMapping (some (boolean b)) h = no_scalar (boolean b) h
  nested_passes-IsMapping (some (integer n)) h = no_scalar (integer n) h
  nested_passes-IsMapping (some (fraction n)) h = no_scalar (fraction n) h
  nested_passes-IsMapping (some (text t)) h = no_scalar (text t) h
  nested_passes-IsMapping (some (array xs)) h = refl
  nested_passes-IsMapping (some (object m)) h =
      let each =
        passes base_properties accepts validate strict tests by_class ClassName.stellar_mapping m
          h in
      let (hs, e, pass) = items_lem PropertyType.by_handler_kind (get_field "handlers" m) each.0 in
      (text_lem (get_field "file" m) each.1.0, (hs, e, items-NameFunctions hs pass))

  validate-IsDatasource :
      (o : YamlFields)
      → validate
          (if is_runtime_kind o then ClassName.runtime_datasource else ClassName.custom_datasource)
          o
        ≡ true
      → IsDatasource o
  validate-IsDatasource o h = elim (Bool-cases (is_runtime_kind o)) [
    | inl runtime ↦
        let (t, is_t, same) =
          text_with_sound (λ t. t === runtime_text) (get_field "kind" o) runtime in
        let each =
          passes base_properties accepts validate strict tests by_class ClassName.runtime_datasource
            o (rw runtime at h) in
        inl (
          is_t ∙ ap (λ t. some (text t)) ((eq_iff t runtime_text).0 same),
          nested_passes-IsMapping (get_field "mapping" o) (and-eq-true _ _ each.1.0).0,
        )
    | inr other ↦
        let each =
          passes base_properties accepts validate strict tests by_class ClassName.custom_datasource
            o (rw other at h) in
        let (t, is_t, any) =
          text_with_sound (λ t. true) (get_field "kind" o) (text_lem (get_field "kind" o) each.0) in
        let (p, is_p) = is_plain_object_sound (get_field "processor" o) (
          sym (tests.on_object (get_field "processor" o))
          ∙ (and-eq-true (accepts Decorator.is_object (get_field "processor" o)) true
              each.1.1.1.1.0).0) in
        inr (t, p, is_t, sym (ap (text_with (λ t. t === runtime_text)) is_t) ∙ other, is_p)
  ]

  abbrev datasources_type : PropertyType
  datasources_type =
      PropertyType.by_datasource_kind ClassName.runtime_datasource ClassName.custom_datasource

  items-AreDatasources :
      (xs : YamlItems)
      → items_pass base_properties accepts validate strict datasources_type xs ≡ true
      → AreDatasources xs
  items-AreDatasources no_items h = tt
  items-AreDatasources (item null xs) h =
      let (first, rest) = and-eq-true _ _ h in (refl, items-AreDatasources xs rest)
  items-AreDatasources (item (boolean b) xs) h =
      let (first, rest) = and-eq-true _ _ h in
      (no_scalar (boolean b) first, items-AreDatasources xs rest)
  items-AreDatasources (item (integer n) xs) h =
      let (first, rest) = and-eq-true _ _ h in
      (no_scalar (integer n) first, items-AreDatasources xs rest)
  items-AreDatasources (item (fraction n) xs) h =
      let (first, rest) = and-eq-true _ _ h in
      (no_scalar (fraction n) first, items-AreDatasources xs rest)
  items-AreDatasources (item (text t) xs) h =
      let (first, rest) = and-eq-true _ _ h in
      (no_scalar (text t) first, items-AreDatasources xs rest)
  items-AreDatasources (item (array ys) xs) h =
      let (first, rest) = and-eq-true _ _ h in (refl, items-AreDatasources xs rest)
  items-AreDatasources (item (object o) xs) h =
      let (first, rest) = and-eq-true _ _ h in
      (validate-IsDatasource o first, items-AreDatasources xs rest)

  -- Where `@ValidateNested` takes no text, number or truth value: a deployment that is accepted has a list of
  -- datasources. Each item is `null`, a list, or an object that is either of the runtime kind or names another
  -- kind and has a processor. The mapping of one of the runtime kind is missing, `null`, a list, or an object
  -- with a text for its file and a list of handlers, of which each object of a known kind names a function.
  pub deployment-AreDatasources :
      (fs : YamlFields)
      → validate ClassName.deployment fs ≡ true
      → (xs : YamlItems) × (get_field "dataSources" fs ≡ some (array xs)) × AreDatasources xs
  deployment-AreDatasources fs valid =
      let each =
        passes base_properties accepts validate strict tests by_class ClassName.deployment fs
          valid in
      let (xs, e, pass) = items_lem datasources_type (get_field "dataSources" fs) each.1.1.0 in
      (xs, e, items-AreDatasources xs pass)
