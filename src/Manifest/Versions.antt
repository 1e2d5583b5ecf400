-- ===== src/Manifest/Versions.antt =====
-- packages/common-stellar/src/project/load.ts and versioned: what is known of a manifest that is parsed.
use subql_stellar.Prelude.{
  String, Option, none, some, List, [], ◌∷◌, Bool, true, false, ◌===◌, contains, if◌then◌else◌,
  Result, ok, ok-injective, >>=-eq-ok, ◌≡◌, refl, sym, ap, subst, ◌∙◌, eq_iff, and-eq-true, arith,
}
use subql_stellar.Manifest.Values.{YamlValue, YamlFields, get_field, text_with_sound}
use subql_stellar.Manifest.Values.YamlValue.{text, object}
use subql_stellar.Manifest.Decorators.{Decorator, ClassName, Property}
use subql_stellar.Manifest.Versioned.{stellar_node_name}
use subql_stellar.Manifest.Validation.{TestsAsDocumented, ValidatesByClass}
use subql_stellar.Manifest.Instances.{passes, instance_lem}
use subql_stellar.Manifest.Load.{
  VersionClass, object_prototype_keys, StellarProjectManifestVersioned, supported_version,
  property_key, is_v1_0_0, instantiate, validate_class, new_versioned,
  parse_stellar_project_manifest,
}
use subql_stellar.Manifest.Load.VersionClass.{v1_0_0, inherited}

supported_version-v1_0_0 : (key : String) → supported_version key ≡ some v1_0_0 → key ≡ "1.0.0"
unfolding supported_version
supported_version-v1_0_0 key h =
    (eq_iff key "1.0.0").0 (first (key === "1.0.0") (contains object_prototype_keys key) h)
  where
    first :
        (a b : Bool)
        → (if a then some v1_0_0 else if b then some (inherited key) else none) ≡ some v1_0_0
        → a ≡ true
    first true b h = refl
    first false true h = cc h
    first false false h = cc h

module _ (plain_to_class : VersionClass → YamlFields → Result YamlFields)
    (validate_impl : YamlFields → Result (Unit {0})) where
  instantiate-eq-ok :
      (class : Option VersionClass) (raw : YamlFields) (m : StellarProjectManifestVersioned)
      → instantiate plain_to_class validate_impl class raw ≡ ok m
      → (class ≡ some m.class) × (plain_to_class m.class raw ≡ ok m.impl)
  instantiate-eq-ok none raw m h = cc h
  instantiate-eq-ok (some class) raw m h =
      let (impl, e, h') = >>=-eq-ok (plain_to_class class raw) _ h in
      let made = ok-injective h' in
      subst
        (λ (n : StellarProjectManifestVersioned).
          (some class ≡ some n.class) × (plain_to_class n.class raw ≡ ok n.impl))
        made (refl, e)

  validate_class-eq-ok :
      (class : VersionClass) (impl : YamlFields) (done : Unit {0})
      → validate_class plain_to_class validate_impl class impl ≡ ok done
      → (class ≡ v1_0_0) × (validate_impl impl ≡ ok tt)
  validate_class-eq-ok v1_0_0 impl done h = (refl, h)
  validate_class-eq-ok (inherited key) impl done h = cc h

  -- What is parsed is an instance of the class of the version 1.0.0, and passes the class's validation.
  parse-validated :
      (raw : YamlFields) (m : StellarProjectManifestVersioned)
      → parse_stellar_project_manifest plain_to_class validate_impl raw ≡ ok m
      → (property_key (get_field "specVersion" raw) ≡ "1.0.0")
        × (m.class ≡ v1_0_0)
        × (plain_to_class v1_0_0 raw ≡ ok m.impl)
        × (validate_impl m.impl ≡ ok tt)
  unfolding parse_stellar_project_manifest new_versioned
  parse-validated raw m h =
      let (made, e, h1) = >>=-eq-ok (new_versioned plain_to_class validate_impl raw) _ h in
      let (done, e1, h2) =
        >>=-eq-ok (validate_class plain_to_class validate_impl made.class made.impl) _ h1 in
      let (chosen, converted) =
        instantiate-eq-ok (supported_version (property_key (get_field "specVersion" raw))) raw made
          e in
      let (is_v1, valid) = validate_class-eq-ok made.class made.impl done e1 in
      subst
        (λ (n : StellarProjectManifestVersioned).
          (property_key (get_field "specVersion" raw) ≡ "1.0.0")
          × (n.class ≡ v1_0_0)
          × (plain_to_class v1_0_0 raw ≡ ok n.impl)
          × (validate_impl n.impl ≡ ok tt))
        (ok-injective h2)
        (
          supported_version-v1_0_0 _ (chosen ∙ ap some is_v1),
          is_v1,
          subst (λ c. plain_to_class c raw ≡ ok made.impl) is_v1 converted,
          valid,
        )

  module _ (base_properties : String → List Property)
      (accepts : Decorator → Option YamlValue → Bool) (validate : ClassName → YamlFields → Bool)
      (strict : Bool) (tests : TestsAsDocumented accepts)
      (by_class : ValidatesByClass base_properties accepts validate strict)
      (checks : (fs : YamlFields)
        → validate_impl fs ≡ ok tt
        → validate ClassName.project_manifest fs ≡ true) where
    -- Where the class's `validate` checks at least what the class declares: a manifest that is parsed is of the
    -- class of the version 1.0.0, as the cast `asV1_0_0` takes it to be, `isV1_0_0` holds, the key of its version
    -- was 1.0.0, and its runner is the node of this repository.
    pub parse-is_v1_0_0 :
        (raw : YamlFields) (m : StellarProjectManifestVersioned)
        → parse_stellar_project_manifest plain_to_class validate_impl raw ≡ ok m
        → (property_key (get_field "specVersion" raw) ≡ "1.0.0")
          × (m.class ≡ v1_0_0)
          × (is_v1_0_0 m ≡ true)
          × ((r : YamlFields) × (n : YamlFields) × (get_field "runner" m.impl ≡ some (object r))
              × (get_field "node" r ≡ some (object n))
              × (get_field "name" n ≡ some (text stellar_node_name)))
    unfolding is_v1_0_0
    parse-is_v1_0_0 raw m h =
        let (key, is_v1, converted, valid) = parse-validated raw m h in
        let each =
          passes base_properties accepts validate strict tests by_class ClassName.project_manifest
            m.impl (checks m.impl valid) in
        let version =
          (and-eq-true (accepts (Decorator.equals "1.0.0") (get_field "specVersion" m.impl)) true
            each.0).0 in
        let (r, runner, specs) =
          instance_lem base_properties accepts validate strict tests by_class ClassName.runner_specs
            (get_field "runner" m.impl) each.1.1.1.1.1.1.1.0 in
        let (n, node, named) =
          instance_lem base_properties accepts validate strict tests by_class ClassName.runner_node
            (get_field "node" r)
            (passes base_properties accepts validate strict tests by_class ClassName.runner_specs r
              specs).0 in
        let name =
          (and-eq-true (accepts (Decorator.is_in (stellar_node_name ∷ [])) (get_field "name" n))
            true
            (passes base_properties accepts validate strict tests by_class ClassName.runner_node n
              named).0).0 in
        let (t, is_t, same) =
          text_with_sound (contains (stellar_node_name ∷ [])) (get_field "name" n)
            (sym (tests.on_in _ (get_field "name" n)) ∙ name) in
        (
          key,
          is_v1,
          sym (tests.on_equals "1.0.0" (get_field "specVersion" m.impl)) ∙ version,
          (r, n, runner, node, is_t ∙ ap (λ u. some (text u)) (only t same)),
        )
      where
        only : (t : String) → contains (stellar_node_name ∷ []) t ≡ true → t ≡ stellar_node_name
        only t h = ground (arith, eq_iff stellar_node_name t)
