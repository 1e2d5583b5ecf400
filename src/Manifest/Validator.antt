-- ===== src/Manifest/Validator.antt =====
-- A validator that does what Validation takes class-validator to do, where the classes of @subql/common declare
-- no properties. The classes of a manifest nest by rank, so it is given by recursion on a number above all ranks.
use subql_stellar.Prelude.{ℕ, zero, suc, ◌<◌, Bool, true, not, ◌&&◌, ◌||◌, ◌≡◌, ap, arith, map}
use subql_stellar.Manifest.Values.{YamlFields, get_field, keys_within}
use subql_stellar.Manifest.Decorators.{ClassName, Property}
use subql_stellar.Manifest.Versioned.{properties}
use subql_stellar.Manifest.Validation.{ValidatesByClass, class_passes}
use subql_stellar.Manifest.Ranks.{no_properties, accepts, rank, properties-TypeBelow}
use subql_stellar.Manifest.Agreement.{properties_congr}

unfoldable pub validate_below : ℕ → Bool → ClassName → YamlFields → Bool
unfolding accepts get_field keys_within
validate_below zero strict c o = true
validate_below (suc n) strict c o =
    class_passes no_properties accepts (validate_below n strict) strict c o

validate_below-eq :
    (n m : ℕ) (strict : Bool) (c : ClassName) (o : YamlFields)
    → rank c < n
    → rank c < m
    → validate_below n strict c o ≡ validate_below m strict c o
unfolding validate_below
validate_below-eq zero m strict c o p q = absurd (omega arith)
validate_below-eq (suc n) zero strict c o p q = absurd (omega arith)
validate_below-eq (suc n) (suc m) strict c o p q =
    ap
      (λ b.
        (not strict || keys_within (map (λ (p : Property). p.name) (properties no_properties c)) o)
        && b)
      (properties_congr (validate_below n strict) (validate_below m strict) (rank c)
        (λ d fs below. validate_below-eq n m strict d fs (omega arith) (omega arith)) strict o
        (properties no_properties c) (properties-TypeBelow c))

rank-lt : (c : ClassName) → rank c < 5
rank-lt ClassName.block_filter = omega arith
rank-lt ClassName.transaction_filter = omega arith
rank-lt ClassName.operation_filter = omega arith
rank-lt ClassName.effect_filter = omega arith
rank-lt ClassName.event_filter = omega arith
rank-lt ClassName.custom_handler = omega arith
rank-lt ClassName.stellar_mapping = omega arith
rank-lt ClassName.custom_mapping = omega arith
rank-lt ClassName.processor_options = omega arith
rank-lt ClassName.runtime_datasource = omega arith
rank-lt ClassName.custom_datasource = omega arith
rank-lt ClassName.runtime_template = omega arith
rank-lt ClassName.custom_template = omega arith
rank-lt ClassName.file_reference = omega arith
rank-lt ClassName.runner_node = omega arith
rank-lt ClassName.runner_specs = omega arith
rank-lt ClassName.network_deployment = omega arith
rank-lt ClassName.project_network = omega arith
rank-lt ClassName.deployment = omega arith
rank-lt ClassName.project_manifest = omega arith
rank-lt (ClassName.handler_of c) = omega arith
rank-lt (ClassName.external name) = omega arith

-- The validator of all classes.
unfoldable pub validate : Bool → ClassName → YamlFields → Bool
unfolding validate_below
validate = validate_below 5

pub validate-ValidatesByClass :
    (strict : Bool) → ValidatesByClass no_properties accepts (validate strict) strict
unfolding validate validate_below
validate-ValidatesByClass strict c o =
    validate_below-eq 5 6 strict c o (rank-lt c) (omega (arith, rank-lt c))
