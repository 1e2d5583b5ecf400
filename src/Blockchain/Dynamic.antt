-- ===== src/Blockchain/Dynamic.antt =====
-- packages/node/src/blockchain.service.ts, `updateDynamicDs`: the options that it leaves.
use subql_stellar.Prelude.{
  String, Option, none, some, List, [], ◌∷◌, Bool, true, false, ◌&&◌, ◌===◌, if◌then◌else◌, Result,
  ok, lookup, insert, lookup-insert, spread, and_then, option_map, is_some, ◌≡◌, refl, sym, ap, ap₂,
  subst, ◌∙◌, arith,
}
use subql_stellar.Types.{SubqlDatasource, SubqlStellarProcessorOptions, Processor}
use subql_stellar.Project.{is_custom_ds, is_runtime_ds, is_custom_ds_lem}
use subql_stellar.Blockchain.{update_dynamic_ds, with_args, with_processor_args, dynamic_error}

abbrev pub choose : Option String → Option String → Option String
choose (some v) old = some v
choose none old = old

-- The value that an argument list gives a key: its last one.
abbrev pub last_value : String → SubqlStellarProcessorOptions → Option String
last_value k [] = none
last_value k ((j, v) ∷ args) = choose (last_value k args) (if j === k then some v else none)

lookup-spread :
    (k : String) (options args : SubqlStellarProcessorOptions)
    → lookup k (spread options args) ≡ choose (last_value k args) (lookup k options)
unfolding spread
lookup-spread k options [] = refl
lookup-spread k options ((j, v) ∷ args) =
    lookup-spread k (insert j v options) args
    ∙ ap (choose (last_value k args)) (lookup-insert j k v options)
    ∙ either (last_value k args) (j === k)
  where
    either :
        (o : Option String) (b : Bool)
        → choose o (if b then some v else lookup k options)
          ≡ choose (choose o (if b then some v else none)) (lookup k options)
    either none true = refl
    either none false = refl
    either (some w) b = refl

-- The three branches.
branches :
    (SubqlDatasource → List String)
    → SubqlStellarProcessorOptions
    → SubqlDatasource
    → Bool
    → Bool
    → SubqlDatasource × Result (Unit {0})
branches validate_sync args ds custom runs =
    if custom
    then (record ds { processor = option_map (with_processor_args args) ds.processor }, ok tt)
    else if runs
    then (
      record ds { options = some (with_args ds.options args) },
      dynamic_error (validate_sync (record ds { options = some (with_args ds.options args) })),
    )
    else (ds, ok tt)

update_dynamic_ds-branches :
    (validate_sync : SubqlDatasource → List String) (args : SubqlStellarProcessorOptions)
    (ds : SubqlDatasource) (custom runs : Bool)
    → is_custom_ds ds ≡ custom
    → is_runtime_ds ds ≡ runs
    → update_dynamic_ds validate_sync args ds ≡ branches validate_sync args ds custom runs
unfolding update_dynamic_ds branches
update_dynamic_ds-branches validate_sync args ds custom runs c r =
    ap₂ (branches validate_sync args ds) c r

not_custom : (c r : Bool) → (c && r) ≡ false → r ≡ true → c ≡ false
not_custom c r h h' = ground arith

updated_options :
    (k : String) (options : Option SubqlStellarProcessorOptions)
    (args : SubqlStellarProcessorOptions)
    → lookup k (with_args options args) ≡ choose (last_value k args) (and_then options (lookup k))
unfolding lookup
updated_options k none args = lookup-spread k [] args
updated_options k (some o) args = lookup-spread k o args

updated_processor :
    (k : String) (args : SubqlStellarProcessorOptions) (p : Option Processor)
    → is_some p ≡ true
    → and_then (option_map (with_processor_args args) p) (λ p. lookup k p.options)
      ≡ choose (last_value k args) (and_then p (λ p. lookup k p.options))
updated_processor k args none h = cc h
updated_processor k args (some p) h = lookup-spread k p.options args

-- A runtime datasource is left with each option that is given, in place of an option of that name,
-- and with its other options; nothing else of it changes, whether or not it is valid then.
pub update_dynamic_ds-runtime :
    (validate_sync : SubqlDatasource → List String) (args : SubqlStellarProcessorOptions)
    (ds : SubqlDatasource) (k : String)
    → is_runtime_ds ds ≡ true
    → (and_then (update_dynamic_ds validate_sync args ds).0.options (lookup k)
        ≡ choose (last_value k args) (and_then ds.options (lookup k)))
      × ((update_dynamic_ds validate_sync args ds).0.processor ≡ ds.processor)
      × ((update_dynamic_ds validate_sync args ds).0.mapping ≡ ds.mapping)
      × ((update_dynamic_ds validate_sync args ds).0.kind ≡ ds.kind)
unfolding branches
update_dynamic_ds-runtime validate_sync args ds k runs =
    subst
      (λ (u : SubqlDatasource × Result (Unit {0})).
        (and_then u.0.options (lookup k)
          ≡ choose (last_value k args) (and_then ds.options (lookup k)))
        × (u.0.processor ≡ ds.processor)
        × (u.0.mapping ≡ ds.mapping)
        × (u.0.kind ≡ ds.kind))
      (sym (
        update_dynamic_ds-branches validate_sync args ds false true
          (not_custom (is_custom_ds ds) (is_runtime_ds ds) ((is_custom_ds_lem ds).0) runs) runs))
      (updated_options k ds.options args, refl, refl, refl)

-- A custom datasource is left with its processor's options updated the same way, and never fails.
pub update_dynamic_ds-custom :
    (validate_sync : SubqlDatasource → List String) (args : SubqlStellarProcessorOptions)
    (ds : SubqlDatasource) (k : String)
    → is_custom_ds ds ≡ true
    → (and_then (update_dynamic_ds validate_sync args ds).0.processor (λ p. lookup k p.options)
        ≡ choose (last_value k args) (and_then ds.processor (λ p. lookup k p.options)))
      × ((update_dynamic_ds validate_sync args ds).1 ≡ ok tt)
unfolding branches is_custom_ds
update_dynamic_ds-custom validate_sync args ds k custom =
    subst
      (λ (u : SubqlDatasource × Result (Unit {0})).
        (and_then u.0.processor (λ p. lookup k p.options)
          ≡ choose (last_value k args) (and_then ds.processor (λ p. lookup k p.options)))
        × (u.1 ≡ ok tt))
      (sym (update_dynamic_ds-branches validate_sync args ds true _ custom refl))
      (updated_processor k args ds.processor (and-right _ (is_some ds.processor) custom), refl)
  where
    and-right : (a b : Bool) → (a && b) ≡ true → b ≡ true
    and-right a b h = ground arith
