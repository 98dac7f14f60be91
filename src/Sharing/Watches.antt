-- ===== src/Sharing/Watches.antt =====
-- What the sharing controllers watch, and the requests that an event adds to their queues: the handlers
-- of AttachWatches of the three reconcilers of pkg/sharing, and enqueueSecretExportToSecret of
-- pkg/sharing/secret_reconciler.go. Adding to the queue is returning the requests.
pub mod Requested
use secretgen_controller.Common.{
  ℕ, Text, text_eq, Bool, true, false, ◌&&◌, Option, none, some, List, [], ◌∷◌, ◌==◌, map,
  if◌then◌else◌,
}
use secretgen_controller.Common.Go.{Go, Outcome, value, pure, ◌>>=◌, ◌>>◌}
use secretgen_controller.Kube.{Client, Fetched, found, failed}
use secretgen_controller.Api.{NamespacedName, ObjectMeta, Secret, key_of}
use secretgen_controller.Api.Conditions.{
  ConditionType, reconciling, reconcile_failed, reconcile_succeeded, invalid, Condition,
  GenericStatus,
}
use secretgen_controller.Api.Exports.{SecretExport, SecretExportStatus}
use secretgen_controller.Api.Imports.{SecretImport}
use secretgen_controller.Sharing.Exports
use secretgen_controller.Sharing.Env.{Cluster, Env, on_cache, on_world}
use secretgen_controller.Sharing.ExportReconciler.{bare_export}
use secretgen_controller.Sharing.SecretReconciler.{map_secret_export_to_secret}

-- An event of the watch on SecretExports. An updated object that is no SecretExport is `none`.
pub data ExportEvent : Type 0 where
  created : ExportEvent
  updated : (old new : Option SecretExport) → ExportEvent
  deleted : NamespacedName → ExportEvent
  generic : ExportEvent

-- reflect.DeepEqual of two statuses. An empty list of conditions is nil, as it is read from the API.
unfoldable pub same_type : ConditionType → ConditionType → Bool
same_type reconciling reconciling = true
same_type reconcile_failed reconcile_failed = true
same_type reconcile_succeeded reconcile_succeeded = true
same_type invalid invalid = true
same_type _ _ = false

unfoldable pub same_bool : Bool → Bool → Bool
same_bool true b = b
same_bool false true = false
same_bool false false = true

unfoldable pub same_condition : Condition → Condition → Bool
unfolding same_type same_bool
same_condition a b =
    same_type a.type b.type
    && (same_bool a.status b.status && (text_eq a.reason b.reason && text_eq a.message b.message))

unfoldable pub same_conditions : List Condition → List Condition → Bool
unfolding same_condition
same_conditions [] [] = true
same_conditions [] (b ∷ bs) = false
same_conditions (a ∷ xs) [] = false
same_conditions (a ∷ xs) (b ∷ bs) = same_condition a b && same_conditions xs bs

unfoldable pub same_generic : GenericStatus → GenericStatus → Bool
unfolding same_conditions
same_generic a b =
    a.observed_generation == b.observed_generation
    && (same_conditions a.conditions b.conditions
        && text_eq a.friendly_description b.friendly_description)

unfoldable pub same_status : SecretExportStatus → SecretExportStatus → Bool
unfolding same_generic
same_status a b =
    same_generic a.generic_status b.generic_status
    && text_eq a.observed_secret_resource_version b.observed_secret_resource_version

-- A Secret's event is a request for the SecretExport of its name, and for the SecretImport of its name.
abbrev pub requests_of_same_name : ObjectMeta → List NamespacedName
requests_of_same_name object = key_of object ∷ []

abbrev pub request_for : SecretImport → NamespacedName
request_for i = key_of i.meta

-- What the list call returned, for an event of a SecretExport and for one of a namespace.
unfoldable pub map_secret_export_to_secret_import :
    Fetched (List SecretImport) → List NamespacedName
map_secret_export_to_secret_import (failed err) = []
map_secret_export_to_secret_import (found imports) = map request_for imports

unfoldable pub map_namespace_to_secret_imports : Fetched (List SecretImport) → List NamespacedName
map_namespace_to_secret_imports (failed err) = []
map_namespace_to_secret_imports (found imports) = map request_for imports

-- ToRequests of a handler: its list call is made when it runs.
abbrev pub ToRequests : Type 0 → Type 0
ToRequests W = Go (Env W) (List NamespacedName)

module _ {W F : Type 0} (cluster : Cluster W F) where
  unfoldable pub import_requests : ToRequests W
  unfolding map_secret_export_to_secret_import
  import_requests = do
    imports ← on_world cluster.imports.list
    pure (map_secret_export_to_secret_import imports)

  unfoldable pub secret_requests : ToRequests W
  unfolding map_secret_export_to_secret
  secret_requests = do
    secrets ← on_world cluster.secrets.list
    pure (map_secret_export_to_secret secrets)

  unfoldable pub namespace_requests : Text → ToRequests W
  unfolding map_namespace_to_secret_imports
  namespace_requests namespace = do
    imports ← on_world (cluster.imports.list_in namespace)
    pure (map_namespace_to_secret_imports imports)

-- enqueueSecretExportToSecret.
unfoldable pub enqueue_secret_export :
    {W : Type 0} → ToRequests W → ExportEvent → Go (Env W) (List NamespacedName)
unfolding same_status
enqueue_secret_export to_requests created = pure []
enqueue_secret_export to_requests (updated (some old) (some new)) =
    if same_status old.status new.status then pure [] else to_requests
enqueue_secret_export to_requests (updated (some old) none) = to_requests
enqueue_secret_export to_requests (updated none new) = to_requests
enqueue_secret_export to_requests (deleted object) = do
  on_cache (Exports.unexport (bare_export object))
  to_requests
enqueue_secret_export to_requests generic = pure []
