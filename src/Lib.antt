-- ===== src/Lib.antt =====
-- A model of the schema operator for Strimzi, with the theorems that make it correct. The operator
-- watches two custom resources of Kubernetes. A SchemaRegistry names a Confluent Schema Registry,
-- its address and the secrets with its credentials. A Schema names a subject, a schema text and a
-- registry, and the operator keeps the subject registered there.
--
-- Parts of the program and their files:
-- - internal/client/client.go, the HTTP client of the registry: Client/Types.antt (its types),
--   Client/Requests.antt (`NewClient`, `addAuth`, the addresses and the headers), Client/Calls.antt
--   (`HealthCheck`, `RegisterSchema`, `getLatestVersionForSubject`, `DeleteSubject`,
--   `SetCompatibility`). Client/{Answers,Authorization,Urls}.antt hold theorems.
-- - internal/controller/helpers.go, the credentials: Controller/Helpers.antt (`loadAuthConfig`, a
--   function for each branch of its switch). Theorems stand in the files of Controller/Helpers.
-- - internal/controller/schema_controller.go, the reconciler of Schema:
--   Controller/SchemaController.antt. `finalize` and `release` are the deletion path of `Reconcile`,
--   `ensure_finalizer` and `refetch` the addition of the finalizer, `register`, `apply_compatibility`
--   and `record_registered` the rest. Theorems stand in the files of Controller/SchemaController.
--   Its Convergence.antt and Removal.antt are about rounds of reconciliations against the store of
--   Controller/Storage.antt.
-- - internal/controller/schemaregistry_controller.go, the reconciler of SchemaRegistry:
--   Controller/RegistryController.antt. Theorems stand in the files of
--   Controller/RegistryController.
-- - `findSchemasForRegistry`, `findSchemaRegistriesForSecret` and `schemaRegistryReferencesSecret`,
--   the maps from a change to the resources that are reconciled: Controller/Watches.antt, with
--   theorems in Controller/Watches/{References,Requests,Resolution}.antt.
-- - internal/webhook/v1alpha1: Webhook/{SchemaWebhook,RegistryWebhook}.antt, with theorems in
--   Webhook/{Aggregates,SchemaRules,RegistryRules,Violations,RegistryViolations}.antt.
-- - cmd/main.go and the functions that hand reconcilers and webhooks to the manager:
--   Manager/Options.antt (flags and options), Manager/Setup.antt (`SetupWithManager`,
--   `SetupSchemaWebhookWithManager`, `SetupSchemaRegistryWebhookWithManager`), Manager/Start.antt
--   (`init` and `main`). Theorems stand in
--   Manager/{Servers,Order,Histories,Answers,Updates,Subjects,Load}.antt.
-- - api/v1alpha1: Api/{SchemaTypes,RegistryTypes}.antt, over the metadata in Api/Meta.antt.
-- - api/v1alpha1/zz_generated.deepcopy.go: Api/DeepCopy.antt (the parts) and Api/DeepCopy/Objects.antt
--   (the resources and their lists), over the structs of Api/DeepCopy/{Structs,Cells}.antt and the
--   memory of Memory.antt. Api/DeepCopy/{Layouts,Parts,Resources,Independence}.antt hold theorems.
--
-- The webhook decides which resources the reconcilers meet (Manager/Subjects.antt). The reconciler of
-- Schema reads the registry and its secrets to build a client. A changed registry starts the
-- reconciler of Schema again, and a changed secret the reconciler of SchemaRegistry, for the keys
-- that the watches give.
--
-- Code with effects is a function from the history of all effects (World.antt) to its result and the
-- longer history. The answer to each effect, of the Kubernetes API, of the network and of the clock,
-- is an oracle over the history before it: between two calls anything may have changed. Early returns
-- are the `do` blocks of Exec.antt, errors are values (Error.antt), and Controller/Keeps.antt has a
-- rule for each of their parts that carries a property of the history through the code, and
-- Controller/Spends.antt one that adds up what its events cost. Third-party functions are fields of
-- `World`, and `IsDocumented` says which of their documented behaviour theorems use;
-- Tests/Sample.antt has an instance. A `time.Duration` is an integer of 64 bits that wraps around; no
-- other number is computed with. The program's loops run over lists and are structural recursion, so
-- that no fuel is needed. `init` and `main` are a script over a history of their own, of calls that
-- may fail (Manager/Start.antt). Manager/Histories.antt puts the controllers together: a step is a
-- reconciliation of a key by one of them, or a lookup by one of its watches. Two controllers that run
-- at the same time, each in the middle of a reconciliation, are not modelled as such: a theorem about
-- one reconciliation holds of its own events whatever its oracles answer. Controller/Storage.antt
-- narrows the oracles down to an API server that stores one schema, checks resource versions and
-- keeps the status apart, as its documentation says it does. There and in
-- Controller/SchemaController/Conflicts.antt a read gives what is stored at that moment: the cache
-- through which the operator reads is taken to be up to date.
--
-- The rest of the model has values where Go has pointers: what the reconcilers read is theirs, since
-- the client that serves it copies it. Only the deep copies are modelled over memory: Memory.antt has a
-- heap of cells at addresses, with a command for each operation, Memory/Layout.antt says what value a
-- struct in memory stands for and which addresses it reaches, and Memory/Outside.antt what other code
-- may do. The elements of a slice are one cell, and a slice is the whole of its array.
--
-- Not modelled: logging, contexts and their cancellation, metrics, the calls that register the types
-- of api/v1alpha1 with the scheme, what controller-runtime does with the controllers and webhooks that
-- it is given, and the warnings of the webhooks, which are always nil. What `loadAuthConfig` returns
-- beside an error is read by no caller and left out.
pub mod Prelude
pub mod Error
pub mod World
pub mod Exec
pub mod Memory
pub mod Api
pub mod Client
pub mod Controller
pub mod Webhook
pub mod Manager
mod Tests
