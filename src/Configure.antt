-- ===== src/Configure.antt =====
-- packages/node/src/configure/SubqueryProject.ts, `createSubQueryProject`, and configure.module.ts beside it,
-- `getInstance`: how a project is made, and the Soroban endpoint of the command line. `BaseSubqueryProject.create`
-- of node-core is the parameter `create_base`, `registerApp` the parameter `register_app`.
mod Endpoint
mod Tests
use subql_stellar.Prelude.{
  ℕ, String, Option, none, some, List, Bool, truthy, if◌then◌else◌, Result, ok, throw, ◌>>=◌,
}
use subql_stellar.Types.{StellarHandlerKind, SubqlDatasource}
use subql_stellar.Project.{is_runtime_ds, is_custom_ds}
use subql_stellar.Manifest.Values.{YamlFields}
use subql_stellar.Manifest.Load.{VersionClass, as_v1_0_0, parse_stellar_project_manifest}
use subql_stellar.Stellar.Service.{ServiceProject, StellarProjectNetworkConfig}

-- What `BaseSubqueryProject.create` is given.
pub record ProjectOptions (Reader Overrides : Type 0) : Type 0 where
  pub parse_manifest : YamlFields → Result YamlFields
  pub path : String
  pub raw_manifest : YamlFields
  pub reader : Reader
  pub root : String
  pub node_semver : String
  pub block_handler_kind : StellarHandlerKind
  pub network_overrides : Option Overrides
  pub is_runtime : SubqlDatasource → Bool
  pub is_custom : SubqlDatasource → Bool

module _ (plain_to_class : VersionClass → YamlFields → Result YamlFields)
    (validate_impl : YamlFields → Result (Unit {0})) {Reader Overrides Project : Type 0}
    (create_base : ProjectOptions Reader Overrides → Result Project)
    (package_version : String) where
  abbrev pub parse_manifest : YamlFields → Result YamlFields
  parse_manifest raw = do
    manifest ← parse_stellar_project_manifest plain_to_class validate_impl raw
    ok (as_v1_0_0 manifest)

  unfoldable pub create_sub_query_project :
      String → YamlFields → Reader → String → Option Overrides → Result Project
  unfolding parse_stellar_project_manifest is_runtime_ds is_custom_ds
  create_sub_query_project path raw_manifest reader root network_overrides = create_base (record {
    parse_manifest = parse_manifest;
    path = path;
    raw_manifest = raw_manifest;
    reader = reader;
    root = root;
    node_semver = package_version;
    block_handler_kind = StellarHandlerKind.block;
    network_overrides = network_overrides;
    is_runtime = is_runtime_ds;
    is_custom = is_custom_ds;
  })

-- `if (argv['soroban-network-endpoint']) project.network.sorobanEndpoint = …`
unfoldable pub with_endpoint : Option String → ServiceProject → ServiceProject
with_endpoint argv project =
    if truthy argv
    then record project { network = record project.network { soroban_endpoint = argv } }
    else project

module _ {Config : Type 0} (register_app : Result (Config × ServiceProject)) where
  unfoldable pub get_instance : Option String → Result (Config × ServiceProject)
  unfolding with_endpoint
  get_instance argv = do
    (node_config, project) ← register_app
    ok (node_config, with_endpoint argv project)
