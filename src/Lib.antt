-- ===== src/Lib.antt =====
-- The verification library of the examples service, which compiles scenarios into launch requests
-- and hosts the example agents that take part in a session.
--
-- The parts of the program and the files that model them:
--
-- - src/example-agents/runtime/policy-strategy.ts, `createPolicyStrategy`: Policy/Strategy.
--   `isQuorumMet` and `decide` are `is_quorum_met` and `decide`; the signals, in
--   Policy/Strategy/Signals, are a dictionary in the order of a Map. A number of JavaScript is an
--   element of a `Number` (Policy/Number), whose operations are parameters;
--   Policy/Number/Hundredths is an instance of it.
-- - src/policy/policy-loader.service.ts and src/policy/policy-registrar.service.ts: Policy/Loader
--   and Policy/Registrar, over the definitions of src/contracts/policy.ts in Policy/Definition. The
--   files of the directory and the replies of the runtime are parameters.
-- - src/example-agents/runtime/risk-decider.worker.ts: Decider. The handlers of the worker and its
--   timer are the steps of a machine: an event is a message, the deadline, or the answer of the
--   call that `tryCommit` awaits; `phase` says which one that is, and `effects` lists the calls so
--   far. The types are in Decider/Session, and logging is left out.
-- - src/compiler/template-resolver.ts: Compiler/ScenarioRef (`parseScenarioRef`), Compiler/Merge
--   (`extractSchemaDefaults`, `deepMerge`) and Compiler/Substitute (`resolvePath`, `substitute` and
--   the two regular expressions of a placeholder, as a scanner from the left).
-- - src/contracts/registry.ts and src/registry/registry-index.service.ts: Registry. Registry/Index
--   has the lookups in a snapshot, Registry/Cache the cache as a machine over histories of calls
--   and ends of loads; the loader is a parameter, through the snapshots that the events bring.
-- - src/auth/auth-token-minter.service.ts: Auth. Auth/Scopes has `mergeScopes` and the cache keys,
--   Auth/Minter the minter as a machine over histories of calls and replies, on the state of
--   Auth/Minter/Entries; `fetch` is a parameter, through the replies that the events bring, and
--   `sent` lists its calls.
-- - src/hosting/launch-supervisor.ts: Hosting/Supervisor, as a machine over the calls of the
--   service and what happens to the children. A record of a process is a shared object, known by a
--   number; the effects list the spawned and killed children and the files that are removed. The
--   records and the table are in Hosting/Supervisor/Table.
-- - src/compiler/compiler.service.ts: Compiler/Settings (what a scenario and its template say
--   together) and Compiler/Compile (`compile`). Compiler/Outcome reads the values of a launch that
--   nothing has checked: a `TypeError`, and a participant or a tag that is not of its declared
--   type, are the one outcome `ill_typed`. What is gathered first is in Compiler/Compile/Gathered,
--   the results in Compiler/Compile/Contracts.
-- - src/hosting/hosting.service.ts and the provider in memory: Hosting/Service, over the interface
--   of a provider. src/launch/example-run.service.ts: Run, which hosts what the compiler returns.
-- - src/launch/launch.service.ts: Launch. src/example-agents/example-agent-catalog.service.ts:
--   Agents, and src/catalog/agent-profile.service.ts: Agents/Coverage.
--   src/catalog/catalog.service.ts: Catalog.
-- - src/config/app-config.service.ts: Config. What `Number` and `JSON.parse` make of a text is a
--   parameter, and a number is a natural one.
-- - src/registry/file-registry.loader.ts: Registry/Loader, on a disk of Registry/Disk. What it
--   loads stays a value; `gather` is the loop over the names of a directory.
-- - src/registry/include-resolver.ts: Registry/Includes. The files, the functions of `path` and the
--   two parsers are parameters.
-- - src/hosting/adapters/, src/hosting/host-adapter-registry.ts and
--   src/hosting/manifest-validator.ts: Hosting/Adapters and Hosting/AdapterRegistry; the process of
--   the service is a parameter.
-- - src/hosting/process-example-agent-host.provider.ts: Hosting/ProcessHost. `attach` is two steps,
--   around the request of a token. The contracts of src/hosting/contracts/ are in
--   Hosting/Contracts, those of src/contracts/example-agents.ts in Contracts.
-- - scripts/scenario/: Scenario. Scenario/Validate is `runValidate` of validate.ts, with the
--   placeholders in Scenario/Placeholders; a report is what it returns, and a script that a
--   `TypeError` ends is the one outcome `ill_typed`. Scenario/Lint is `runLint` of lint.ts, whose
--   lines and exit code are its outcome.
-- - src/errors/: Errors, and Errors/Filter for the answer to a request. A method that throws
--   returns a `Result`.
-- - Js models the values of JavaScript that are read from JSON: objects are lists of fields in the
--   order of their keys. Common holds tests, lists, dictionaries and texts.
--
-- Bounds: a scanner of a text is recursion on the text. `show_ℕ` in Common/Text has a fuel of one
-- more than the number, of which each round takes a tenth. The includes of a file have a fuel of one
-- more than the number of the files: each nested include visits another one. A number of JSON is
-- shown as its JSON text, so the conversion of numbers to text is that text. A dotted path looks at
-- own properties only: names inherited from Object.prototype are not modelled.
--
-- Not modelled: scripts/scenario/new.ts and scripts/scenario.ts, which write files and read a command
-- line, and dry-run.ts, which prints what the loader and the compiler give; the start of a worker,
-- which reads its bootstrap file; controllers, transfer objects and the wiring of the service, which
-- only pass values on; logging; file and network access; and the SDK of the runtime, whose calls are
-- effects.
pub mod Common
pub mod Contracts
pub mod Config
pub mod Agents
pub mod Js
pub mod Errors
pub mod Auth
pub mod Hosting
pub mod Registry
pub mod Compiler
pub mod Launch
pub mod Run
pub mod Catalog
pub mod Scenario
pub mod Policy
pub mod Decider
