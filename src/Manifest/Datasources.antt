-- ===== src/Manifest/Datasources.antt =====
-- packages/common-stellar/src/project/models.ts and project/utils.ts: the mappings and datasources that are
-- accepted, and what `isRuntimeDs` and `isCustomDs` say of them.
use subql_stellar.Prelude.{
  String, Option, none, some, List, [], ◌∷◌, Bool, true, false, not, ◌&&◌, ◌||◌, ◌===◌, is_some,
  ◌≡◌, ◌⊎◌, inl, inr, refl, sym, ap, ap₂, option_map, some-injective, if◌then◌else◌, subst, ◌∙◌,
  arith, and-eq-true, Bool-cases,
}
use subql_stellar.Types.{
  SubqlDatasource, StellarDatasourceKind, datasource_kind_text, StellarHandlerKind,
}
use subql_stellar.Project.{is_runtime_ds, is_custom_ds}
use subql_stellar.Manifest.{handler_class}
use subql_stellar.Manifest.Values.{
  YamlValue, YamlItems, YamlFields, get_field, keys_within, is_missing, text_with, is_text,
  is_plain_object,
}
use subql_stellar.Manifest.Values.YamlValue.{null, boolean, integer, fraction, text, array, object}
use subql_stellar.Manifest.Values.YamlItems.{no_items, item}
use subql_stellar.Manifest.Decorators.{Decorator, ClassName, PropertyType, Property}
use subql_stellar.Manifest.Validation.{
  TestsAsDocumented, ValidatesByClass, kind_of, class_of, items_pass, nested_passes,
  class_passes-properties, instance_passes,
}
use subql_stellar.Manifest.Handlers.{is_handler, handler_lem}

-- The items are objects of a handler kind, which the `@Transform` of `handlers` asks for, and their filters are
-- missing or objects.
abbrev pub AreHandlers : YamlItems → Type 0
AreHandlers no_items = Unit
AreHandlers (item (object o) xs) =
    ((k : StellarHandlerKind) × (kind_of o ≡ some k))
    × (is_missing (get_field "filter" o) || is_plain_object (get_field "filter" o) ≡ true)
    × AreHandlers xs
AreHandlers (item x xs) = ⊥

abbrev pub handler_passes : Bool → Option StellarHandlerKind → YamlFields → Bool
handler_passes strict none o = false
handler_passes strict (some k) o = is_handler strict (handler_class k) o

abbrev pub handlers_pass : Bool → YamlItems → Bool
handlers_pass strict no_items = true
handlers_pass strict (item (object o) xs) =
    handler_passes strict (kind_of o) o && handlers_pass strict xs
handlers_pass strict (item x xs) = false

-- The datasource is what the YAML object says: its kind is that text, and an object `processor` is its processor.
pub record ReadsAs (fs : YamlFields) (ds : SubqlDatasource) : Type 0 where
  pub kind : get_field "kind" fs ≡ some (text ds.kind)
  pub processor : is_plain_object (get_field "processor" fs) ≡ true → is_some ds.processor ≡ true

abbrev class_by : Bool → Option ClassName
class_by b = some (if b then ClassName.runtime_datasource else ClassName.custom_datasource)

mapping_tests :
    (a : Bool) {l n f n' f' : Bool}
    → l ≡ true
    → n ≡ n'
    → f ≡ f'
    → (a && ((l && (n && true)) && ((f && true) && true))) ≡ (a && n' && f')
mapping_tests a p q r = ground arith

module _ (base_properties : String → List Property) (accepts : Decorator → Option YamlValue → Bool)
    (validate : ClassName → YamlFields → Bool) (strict : Bool) (tests : TestsAsDocumented accepts)
    (by_class : ValidatesByClass base_properties accepts validate strict) where
  items_pass-handlers :
      (xs : YamlItems)
      → AreHandlers xs
      → items_pass base_properties accepts validate strict PropertyType.by_handler_kind xs
        ≡ handlers_pass strict xs
  items_pass-handlers no_items h = refl
  items_pass-handlers (item null xs) h = absurd h
  items_pass-handlers (item (boolean b) xs) h = absurd h
  items_pass-handlers (item (integer n) xs) h = absurd h
  items_pass-handlers (item (fraction n) xs) h = absurd h
  items_pass-handlers (item (text t) xs) h = absurd h
  items_pass-handlers (item (array ys) xs) h = absurd h
  items_pass-handlers (item (object o) xs) ((k, e), filter, rest) =
      ap₂ (λ a b. a && b)
        (ap
            (λ m.
              instance_passes base_properties accepts validate strict
                (option_map (λ j. ClassName.handler_of (handler_class j)) m) o)
            e
          ∙ handler_lem base_properties accepts validate strict tests by_class (handler_class k) o
              filter
          ∙ sym (ap (λ m. handler_passes strict m o) e))
        (items_pass-handlers xs rest)

  -- A mapping of handlers of the known kinds is accepted exactly where its file is a text, each handler is
  -- accepted by the class of its own kind, and it has no other properties where these are forbidden.
  pub mapping_lem :
      (fs : YamlFields) (xs : YamlItems)
      → get_field "handlers" fs ≡ some (array xs)
      → AreHandlers xs
      → validate ClassName.stellar_mapping fs ≡ (
          (not strict || keys_within ("handlers" ∷ "file" ∷ []) fs)
          && handlers_pass strict xs
          && is_text (get_field "file" fs))
  mapping_lem fs xs e h =
      by_class ClassName.stellar_mapping fs
      ∙ mapping_tests _ (ap (accepts Decorator.is_array) e ∙ tests.on_array (some (array xs)))
          (ap (nested_passes base_properties accepts validate strict PropertyType.by_handler_kind) e
            ∙ items_pass-handlers xs h)
          (tests.on_string (get_field "file" fs))

  -- A datasource that is accepted, by the class that its kind chooses, is a runtime or a custom datasource to the
  -- indexer: none is of neither kind.
  pub datasource_kind :
      (fs : YamlFields) (ds : SubqlDatasource) (c : ClassName)
      → ReadsAs fs ds
      → class_of
          (PropertyType.by_datasource_kind ClassName.runtime_datasource ClassName.custom_datasource)
          fs
        ≡ some c
      → validate c fs ≡ true
      → (is_runtime_ds ds ≡ true) ⊎ (is_custom_ds ds ≡ true)
  unfolding is_runtime_ds is_custom_ds
  datasource_kind fs ds c reads of_class valid =
      elim (Bool-cases (ds.kind === datasource_kind_text StellarDatasourceKind.runtime)) [
        | inl runtime ↦ inl runtime
        | inr other ↦
            let custom =
              ap
                (λ v.
                  class_by
                    (text_with (λ t. t === datasource_kind_text StellarDatasourceKind.runtime) v))
                reads.kind
              ∙ ap class_by other in
            let is_class = some-injective _ _ (sym custom ∙ of_class) in
            let passes =
              sym (by_class ClassName.custom_datasource fs)
              ∙ subst (λ d. validate d fs ≡ true) (sym is_class) valid in
            let each =
              class_passes-properties base_properties accepts validate strict
                ClassName.custom_datasource fs passes in
            let accepted =
              (and-eq-true (accepts Decorator.is_object (get_field "processor" fs)) true
                (each.1.1.1.1.0)).0 in
            inr (
              rw
                (
                  other,
                  reads.processor (sym (tests.on_object (get_field "processor" fs)) ∙ accepted),
                )
                refl)
      ]
