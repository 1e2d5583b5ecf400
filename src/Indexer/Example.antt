-- ===== src/Indexer/Example.antt =====
-- An indexer that logs the kinds of what it is given, for one datasource.
use subql_stellar.Prelude.{String, none, List, [], ◌∷◌, ◌++◌}
use subql_stellar.Types.{StellarHandlerKind, kind_text, SubqlDatasource}
use subql_stellar.Indexer.{DataOf, Step}

abbrev pub log_kind :
    (kind : StellarHandlerKind) → DataOf kind → SubqlDatasource → Step (List String)
log_kind kind subject ds log = (log ++ kind_text kind ∷ [], none)

abbrev pub runtime_ds : SubqlDatasource
runtime_ds = record {
  kind = "stellar/Runtime";
  mapping = record { file = "./dist/index.js"; handlers = [] };
  options = none;
  processor = none;
}
