-- ===== src/Project/Tests.antt =====
-- Kinds of datasource and handler at concrete manifests.
use subql_stellar.Prelude.{none, [], ◌∷◌, true, ◌≡◌, refl}
use subql_stellar.Types.{SubqlHandler, SubqlDatasource}
use subql_stellar.Project.{is_runtime_ds, ds_has_soroban_event_handler}

abbrev on_event : SubqlHandler
on_event = record { handler = "onEvent"; kind = "soroban/EventHandler"; filter = none }

abbrev event_ds : SubqlDatasource
event_ds = record {
  kind = "stellar/Runtime";
  mapping = record { file = "./dist/index.js"; handlers = on_event ∷ [] };
  options = none;
  processor = none;
}

events_test : ds_has_soroban_event_handler (event_ds ∷ []) ≡ true
unfolding ds_has_soroban_event_handler is_runtime_ds
events_test = refl
