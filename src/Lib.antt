-- ===== src/Lib.antt =====
-- secretgen-controller: Kubernetes controllers that generate secrets (passwords, keys) and share
-- secrets between namespaces.
--
-- The parts, and the files that model them:
--
-- Api (pkg/apis): the objects. Api/Exports and Api/Imports have SecretExport and SecretImport with
--   StaticToNamespaces and Validate, Api/Templates has SecretTemplate, Api/Conditions the
--   conditions of a status, Api/Errors errors as values and combinedErrs.
-- Kube: the calls of the Kubernetes API, a parameter. Each call takes the state of the cluster and
--   returns the state that it leaves, so what others do to the cluster meanwhile is part of a call.
-- Expansion (pkg/expansion/expand.go): Variable, MappingFuncFor, Expand and tryReadVariableName, on
--   lists of bytes. The loop of Expand runs on fuel, one round for each byte of the input and one
--   to end: every round moves the cursor. Expansion/Grammar is the syntax as a relation.
-- Reconciler/Status (pkg/reconciler/status.go): Status, as functions from a GenericStatus to the
--   one that UpdateFunc receives. Reconciler/Secrets (pkg/reconciler/secret.go): NewSecret,
--   ApplyTemplates, ApplyTemplate, ApplySecret and AssociateExistingSecret.
-- Sharing (pkg/sharing): Exports is the cache of secret_exports.go (a Go map as an association
--   list, whose order stands for the order of an iteration), ExportReconciler the
--   secret_export_reconciler.go that writes it, with the warm-up of secret_exports_warmed_up.go,
--   ImportReconciler and SecretReconciler the readers of secret_import_reconciler.go and
--   secret_reconciler.go, DockerConfig the dockerconfigjson.go that joins registry credentials,
--   Wildcards the namespace_wildcard_exclusions.go, and Watches the requests that an event adds to
--   the queues of the readers, with enqueueSecretExportToSecret. Shared puts an export's reconcile
--   and an import's together. Env is the state that they share: the cluster, the cache and the flag
--   of the sync.Once. A Go panic is an outcome, and what was written before it stays (Common/Go).
-- Tracker (pkg/tracker/tracker.go): Track, UntrackAll and GetTracking.
-- Tokens (pkg/satoken/token_manager.go): the Manager, a cache of service account tokens, with the
--   TokenRequest and TokenReview APIs, the clock and the jitter as parameters. Its states are those
--   that calls and cleanups lead to.
-- Generator (pkg/generator): Password is password_reconciler.go, with crypto/rand a parameter
--   (Generator/Random), RsaKey and SshKey are rsa_key_reconciler.go and ssh_key_reconciler.go, and
--   Certificate is certificate_reconciler.go, with certs_loader.go in Certificate/Loader; the key
--   and certificate generators of the config-server library are parameters. Inputs is
--   generate_inputs.go. JsonPath is the ToK8sJSONPath of jsonpath.go; its loop runs on fuel, one
--   round for each byte of the path and one to end: every round moves the index or shortens the
--   path. SecretTemplate is secret_template_reconciler.go: Inputs resolves the input resources and
--   tracks them, Evaluation evaluates the template, Reconciler writes the secret and the status.
--   ServiceAccounts is service_account_loader.go over Tokens; SecretTemplate/Accounts puts both
--   together as main does. An int is its two's complement in 64 bits.
-- Controller (cmd/controller/main.go): main, the registration of the controllers, and the watches
--   that each reconciler's AttachWatches sets up. Controller/Registered and Controller/Runs describe
--   its runs by relations.
-- Common has the shared types and lemmas: texts, Boolean tests, lists, maps, insertion sort.
-- Examples has the theorems at concrete inputs.
--
-- sort.Slice is modelled by insertion sort. Parameters are: the Kubernetes clients, encoding/json,
-- client-go's jsonpath, float64 with strconv.ParseFloat, crypto/rand, crypto/x509, encoding/pem,
-- the key and certificate generators, the service accounts' APIs, controller-runtime, and
-- SetControllerReference. What is assumed of them is a named record: ReturnsNamed (a Get returns an
-- object of the name asked for), ListsNamed (a listed object has a name), IsFloat64 (comparisons as
-- in IEEE 754), IsAuthsJson (a decoded map has no key twice), IsRandom (a draw is below its bound,
-- and the reader does not fail), IsQuote (a quoted text tells where it ends), IsIssuer (the
-- TokenRequest API issues tokens for the account that is asked for), IsGenerator (a certificate
-- generator panics only where the loader that it calls does, and calls it only for parameters that
-- name a CA).
--
-- Not modelled: logging, flags and schemes, the generated clients and deep copies, the vendored
-- libraries, and the labels and annotations that NewSecret shares with the owner (they are values
-- here, so a write through the secret does not reach the owner's maps). The queues of
-- controller-runtime are the lists of requests that are added to them.
pub mod Common
pub mod Examples
pub mod Api
pub mod Kube
pub mod Expansion
pub mod Reconciler
pub mod Generator
pub mod Sharing
pub mod Tracker
pub mod Tokens
pub mod Controller
