-- ===== src/Sharing/ExportReconciler.antt =====
-- SecretExportReconciler of pkg/sharing/secret_export_reconciler.go, and SecretExportsWarmedUp of
-- pkg/sharing/secret_exports_warmed_up.go. Logging is left out.
pub mod Caching
pub mod Safety
pub mod WarmUp
use secretgen_controller.Common.{
  ℕ, Text, codes, Bool, true, false, Option, none, some, List, [], ◌∷◌, if◌then◌else◌,
}
use secretgen_controller.Common.Go.{Go, Outcome, value, panicked, pure, gets, ◌>>=◌, ◌>>◌}
use secretgen_controller.Kube.{Client, Fetched, found, failed}
use secretgen_controller.Api.{NamespacedName, ObjectMeta, Secret, key_of, named}
use secretgen_controller.Api.Errors.{Error, plain, terminal, errorf, is_not_found}
use secretgen_controller.Api.Conditions.{GenericStatus}
use secretgen_controller.Api.Exports.{SecretExport, SecretExportStatus, validate}
use secretgen_controller.Reconciler.Status.{
  Result, Reply, done, again, set_reconciling, with_reconcile_completed,
}
use secretgen_controller.Sharing.Exports
use secretgen_controller.Sharing.Exports.{SecretExports, SecretMatcher}
use secretgen_controller.Sharing.Env.{Cluster, Env, on_cache, on_world, reader_of}

abbrev zero_status : GenericStatus
zero_status = record { observed_generation = 0; conditions = []; friendly_description = [] }

-- The SecretExport with only the name and namespace of the request.
abbrev pub bare_export : NamespacedName → SecretExport
bare_export request = record {
  meta = named request;
  spec = record { to_namespace = []; to_namespaces = []; to_namespaces_selector = [] };
  status = record { generic_status = zero_status; observed_secret_resource_version = [] };
}

abbrev pub with_version : Text → SecretExport → SecretExport
with_version version e = record e {
  status = record (e.status) { observed_secret_resource_version = version };
}

abbrev pub with_generic_status : GenericStatus → SecretExport → SecretExport
with_generic_status st e = record e { status = record (e.status) { generic_status = st } }

-- What is returned behind the update of the status.
status_reply : Reply → Option Error → Reply
status_reply reply (some err) = (done, some (errorf (codes "Updating secret export status") err))
status_reply reply none = reply

module _ {W F : Type 0} (cluster : Cluster W F) where
  -- What follows the Get of the exported secret.
  pub reconcile_fetched : SecretExport → Fetched Secret → Go (Env W) (Reply × SecretExport)
  reconcile_fetched e (failed err) =
      if is_not_found err
      then (do
        on_cache (Exports.unexport e)
        pure ((done, some (terminal (plain (codes "Missing exported secret")))), e))
      else pure ((again, some (errorf (codes "Getting exported secret") err)), e)
  reconcile_fetched e (found secret) = do
    on_cache (Exports.export (with_version secret.meta.resource_version e) secret)
    pure ((done, none), with_version secret.meta.resource_version e)

  pub reconcile_validated : SecretExport → Option Error → Go (Env W) (Reply × SecretExport)
  unfolding reconcile_fetched
  reconcile_validated e (some err) = do
    on_cache (Exports.unexport e)
    pure ((done, some (terminal err)), e)
  reconcile_validated e none = do
    secret ← on_world (cluster.secrets.get (key_of e.meta))
    reconcile_fetched e secret

  -- The export is returned as the pointer leaves it.
  pub reconcile : SecretExport → Go (Env W) (Reply × SecretExport)
  unfolding reconcile_validated
  reconcile e = let cleared = with_version [] e in reconcile_validated cleared (validate cleared)

  pub update_status : SecretExport → Reply → Go (Env W) Reply
  update_status e reply = do
    err ← on_world (cluster.exports.update_status e)
    pure (status_reply reply err)

  pub complete : GenericStatus → Reply × SecretExport → Go (Env W) Reply
  unfolding update_status status_reply
  complete st (reply, e) =
      let (reply', st') = with_reconcile_completed reply st in
      update_status (with_generic_status st' e) reply'

  -- The first argument is the export's deletion timestamp.
  pub reconcile_existing : Option ℕ → SecretExport → Go (Env W) Reply
  unfolding reconcile complete
  reconcile_existing (some t) e = do on_cache (Exports.unexport e); pure (done, none)
  reconcile_existing none e = do
    let st = set_reconciling e.meta e.status.generic_status
    reconciled ← reconcile (with_generic_status st e)
    complete st reconciled

  pub reconcile_request : NamespacedName → Fetched SecretExport → Go (Env W) Reply
  unfolding reconcile_existing
  reconcile_request request (failed err) =
      if is_not_found err
      then (do on_cache (Exports.unexport (bare_export request)); pure (done, none))
      else pure (again, some err)
  reconcile_request request (found e) = reconcile_existing e.meta.deletion_timestamp e

  unfoldable pub reconcile_export : NamespacedName → Go (Env W) Reply
  unfolding reconcile_request
  reconcile_export request = do
    e ← on_world (cluster.exports.get request)
    reconcile_request request e

  pub warm_up_all : List SecretExport → Go (Env W) (Unit {0})
  unfolding reconcile
  warm_up_all [] = pure tt
  warm_up_all (e ∷ es) = do reconcile e; warm_up_all es

  -- An error of the list is logged, and so is one of each reconcile.
  pub warm_up_found : Fetched (List SecretExport) → Go (Env W) (Unit {0})
  unfolding warm_up_all
  warm_up_found (failed err) = pure tt
  warm_up_found (found es) = warm_up_all es

  unfoldable pub warm_up : Go (Env W) (Unit {0})
  unfolding warm_up_found
  warm_up = do exports ← on_world cluster.exports.list; warm_up_found exports

  unfoldable pub once : Bool → Go (Env W) (Unit {0})
  unfolding warm_up
  once true s = (value tt, s)
  once false s = warm_up (record s { warmed_up = true })

  -- MatchedSecretsForImport of SecretExportsWarmedUp: the first call warms up.
  unfoldable pub matched_secrets_for_import :
      SecretMatcher → (W → Text → Bool) → Go (Env W) (List Secret)
  unfolding once
  matched_secrets_for_import matcher excluded = do
    s ← gets (λ s. s.warmed_up)
    once s
    gets (λ s.
        Exports.matched_secrets_for_import cluster.float s.cache matcher (excluded s.world)
          (reader_of cluster s.world))
