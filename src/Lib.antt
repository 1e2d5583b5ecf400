-- ===== src/Lib.antt =====
-- The indexer of SubQuery for Stellar (packages/node), with the types of packages/types and the kinds of
-- packages/common-stellar: it fetches ledgers from a Horizon server and events from a Soroban RPC
-- server, wraps them into blocks, and passes each part of a block to the handlers of a project whose
-- filters take it; a dictionary tells it which blocks to look at.
--
-- How the parts interact. `StellarApiService.create` makes a Soroban client and node-core a
-- `StellarApiConnection` for each endpoint, all with that client. A connection holds a `StellarApi`, whose
-- `fetchBlocks` fetches and wraps ledgers; the events come by way of `SorobanServer.getEvents`, with its
-- cache. A block goes to `IndexerManager.indexBlockData`, which calls node-core's `indexData`, and that the
-- filters of `StellarBlockWrapped`. `BlockchainService` answers node-core about headers and heights and
-- updates dynamic datasources. The dictionary builds one query from the same handlers and filters.
--
-- Which file models what.
--   Types/Chain, Types/Project: packages/types/src (interfaces.ts, stellar/interfaces.ts, project.ts).
--   Project: packages/common-stellar/src/project/utils.ts, packages/node/src/utils/project.ts and
--     `dsHasSorobanEventHandler` of packages/node/src/configure/SubqueryProject.ts.
--   Stellar/Soroban: packages/node/src/stellar/soroban.server.ts. `eventsCache` is the association list
--     `EventsCache`; `fetchEventsForSequence`, `updateEventCache` and `getEvents` are the functions of
--     those names, and `getEvents` is also given as its two halves around the wait for the server.
--     Server states what the RPC server does, Example is one that does it, Interleaving has the
--     steps of calls that run at once, and Ledgers the cache as a map.
--   Stellar/Api: packages/node/src/stellar/api.stellar.ts. Paging has the three loops over Horizon's
--     pages, Wrapping `wrapOperationsForTx` and `wrapTransactionsForLedger`, Ledger `fetchAndWrapLedger`
--     and `fetchBlocks`; Outline, Links, Shares, Refs, Parts, Blocks, Ends and
--     Returns have the proofs.
--   Stellar/Block: packages/node/src/stellar/block.stellar.ts and src/utils/string.ts of that package.
--   Stellar/Utils: utils.stellar.ts beside it.
--   Stellar/SafeApi, Stellar/Service, Stellar/Connection: safe-api.ts, api.service.stellar.ts and
--     api.connection.ts beside it.
--   Indexer: packages/node/src/indexer/indexer.manager.ts, types.ts and worker/worker.service.ts; Sandbox has
--     what a handler's sandbox is given, Fetched and Order have the proofs.
--   Configure: packages/node/src/configure/SubqueryProject.ts and configure.module.ts.
--   Dictionary: packages/node/src/indexer/dictionary/v1/stellarDictionaryV1.ts and
--     stellarDictionary.service.ts above it. Query removes repeated entries; Keys, Order, Sorted,
--     Fields, Unique, Handlers, Covers, Asks, Skips and Idle have the proofs.
--   Blockchain: packages/node/src/blockchain.service.ts.
--   Manifest: packages/common-stellar/src/project/models.ts and versioned/v1_0_0/model.ts. Manifest itself has
--     the two transforms that are written there; Decorators, Models and Versioned the declarations of the
--     classes, with a `Property` for each property and its decorators; Load is load.ts and
--     versioned/ProjectManifestVersioned.ts beside them. Values has the YAML values. Validation says what
--     class-validator is taken to do, Validator, Ranks and Agreement give a validator that
--     does it; Instances, Handlers, Datasources, Deployments and Versions have the proofs, and Deployed
--     says what a datasource can look like.
--   Prelude: JavaScript's tests, texts, numbers, objects and errors, and lemmas on lists.
--
-- How code becomes definitions. A promise or a call that may throw is a `Result`; the requests under one
-- `Promise.all` are made one after another. Events are objects that a ledger, its transactions and its
-- operations share: the block's list of events is the store, and `EventRef` a reference into it. What
-- `cloneDeep` copies has a type of its own. A `number` that the code parses is a `JsNumber`; ledger
-- numbers are natural numbers.
--
-- Fuel. `fetchEventsForSequence` recurses once a page, and a page without events ends it, so one more than
-- the events left on the server is enough; the loops over Horizon's pages take as much as there are pages
-- up to the first without records. `none` is only the fuel that ran out, and the theorems give enough.
--
-- Parameters: the Horizon server (`Horizon`), the RPC server (`rpc`), the URL parser of the host, the SDK's
-- constructor of `rpc.Server` and node-core's `createConnections` (`ServiceHost`), node-core's
-- `filterBlockTimestamp`, `indexData`, `resolveDictionary` and the dictionary's `init`, the SDK's
-- `scValToNative`, and class-validator. Dictionary/Idle says what `indexData` is taken to do. `Serves` and
-- `HonoursLimit` are what the RPC server is taken to do; Stellar/Soroban/Example is a server that does it.
--
-- Not modelled: dictionaries, so which records they keep and in which case (of events none yet, as
-- stellarDictionaryV1.ts notes); the command line, modules and start-up (main.ts, init.ts, yargs.ts,
-- app.module.ts, the providers of configure.module.ts, subcommands), worker processes, logging,
-- stellar.server.ts (one HTTP request), and what packages/common-stellar leaves to its libraries: the classes
-- of @subql/common that those of a manifest extend, the copying by class-transformer (so also the trim of a
-- chain id), and the deployment as YAML.
pub mod Blockchain
pub mod Configure
pub mod Dictionary
pub mod Indexer
pub mod Manifest
pub mod Prelude
pub mod Project
pub mod Stellar
pub mod Types
