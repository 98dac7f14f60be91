-- ===== src/Sharing/ImportReconciler.antt =====
-- SecretImportReconciler of pkg/sharing/secret_import_reconciler.go. Logging is left out.
pub mod Single
pub mod Copies
pub mod Unmatched
use secretgen_controller.Common.{
  ℕ, Text, codes, Bool, true, false, Option, none, some, List, [], ◌∷◌, if◌then◌else◌,
}
use secretgen_controller.Common.Go.{Go, Outcome, value, panicked, pure, panic, ◌>>=◌, ◌>>◌}
use secretgen_controller.Kube.{Client, Fetched, found, failed}
use secretgen_controller.Api.{NamespacedName, ObjectMeta, Secret, key_of}
use secretgen_controller.Api.Errors.{
  Error, plain, terminal, errorf, is_not_found, is_already_exists,
}
use secretgen_controller.Api.Conditions.{GenericStatus}
use secretgen_controller.Api.Imports.{SecretImport, validate}
use secretgen_controller.Reconciler.Status.{
  Result, Reply, done, again, set_reconciling, with_reconcile_completed,
}
use secretgen_controller.Reconciler.Secrets.{
  OwnedSecret, new_secret, apply_secret, associate_existing_secret,
}
use secretgen_controller.Sharing.Exports.{SecretMatcher}
use secretgen_controller.Sharing.Env.{Cluster, Env, on_world}
use secretgen_controller.Sharing.Wildcards.{namespace_wildcard_exclusion_check}
use secretgen_controller.Sharing.ExportReconciler.{matched_secrets_for_import}

abbrev pub with_generic_status : GenericStatus → SecretImport → SecretImport
with_generic_status st i = record i { status = record (i.status) { generic_status = st } }

abbrev pub matcher_for : SecretImport → SecretMatcher
matcher_for i = record {
  from_name = i.meta.name;
  from_namespace = i.spec.from_namespace;
  to_namespace = i.meta.namespace;
  subject = [];
  secret_type = [];
}

deletion_error : Option Error → Option Error
deletion_error none = none
deletion_error (some err) =
    if is_not_found err then none else some (errorf (codes "Deleting associated secret") err)

-- The reply behind the deletion of the associated secret.
unmatched_reply : Option Error → Reply
unmatched_reply (some err) = (again, some err)
unmatched_reply none = (done, some (terminal (plain (codes "No matching export/secret"))))

pub updated_reply : Option Error → Reply
updated_reply none = (done, none)
updated_reply (some err) = (again, some (errorf (codes "Updating imported secret") err))

status_reply : Reply → Option Error → Reply
status_reply reply none = reply
status_reply reply (some err) = (done, some (errorf (codes "Updating secret request status") err))

module _ {W F : Type 0} (cluster : Cluster W F) where
  -- The secret that the import calls for.
  unfoldable pub imported_secret : SecretImport → Secret → OwnedSecret
  unfolding new_secret apply_secret
  imported_secret i source = apply_secret source (new_secret cluster.set_reference i.meta [])

  -- Where a secret of the name exists.
  update_existing : OwnedSecret → Fetched Secret → Go (Env W) Reply
  unfolding updated_reply associate_existing_secret
  update_existing wanted (failed err) =
      pure (again, some (errorf (codes "Getting imported secret") err))
  update_existing wanted (found existing) = do
    err ← on_world (cluster.secrets.update (associate_existing_secret existing wanted).secret)
    pure (updated_reply err)

  created : SecretImport → OwnedSecret → Option Error → Go (Env W) Reply
  unfolding update_existing
  created i wanted none = pure (done, none)
  created i wanted (some err) =
      if is_already_exists err
      then (do
        existing ← on_world (cluster.secrets.get (key_of i.meta))
        update_existing wanted existing)
      else pure (again, some (errorf (codes "Creating imported secret") err))

  pub copy_associated_secret : SecretImport → Secret → Go (Env W) Reply
  unfolding created imported_secret
  copy_associated_secret i source = do
    let wanted = imported_secret i source
    err ← on_world (cluster.secrets.create wanted.secret)
    created i wanted err

  delete_fetched : SecretImport → Fetched Secret → Go (Env W) (Option Error)
  unfolding deletion_error
  delete_fetched i (failed err) = pure none
  delete_fetched i (found secret) = do
    err ← on_world (cluster.secrets.delete (key_of secret.meta))
    pure (deletion_error err)

  delete_associated_secret : SecretImport → Go (Env W) (Option Error)
  unfolding delete_fetched
  delete_associated_secret i = do
    secret ← on_world (cluster.secrets.get (key_of i.meta))
    delete_fetched i secret

  -- The switch on the number of matches.
  unfoldable pub reconcile_matched : SecretImport → List Secret → Go (Env W) Reply
  unfolding delete_associated_secret unmatched_reply copy_associated_secret
  reconcile_matched i [] = do err ← delete_associated_secret i; pure (unmatched_reply err)
  reconcile_matched i (secret ∷ []) = copy_associated_secret i secret
  reconcile_matched i (secret ∷ other ∷ more) =
      panic (codes "Internal inconsistency: multiple exports/secrets matched one ns+name")

  unfoldable pub reconcile_validated : SecretImport → Option Error → Go (Env W) Reply
  unfolding reconcile_matched
  reconcile_validated i (some err) = pure (done, some (terminal err))
  reconcile_validated i none = do
    secrets ←
        matched_secrets_for_import cluster (matcher_for i)
          (namespace_wildcard_exclusion_check cluster.namespaces)
    reconcile_matched i secrets

  unfoldable pub reconcile : SecretImport → Go (Env W) Reply
  unfolding reconcile_validated
  reconcile i = reconcile_validated i (validate i)

  complete : SecretImport → GenericStatus → Reply → Go (Env W) Reply
  unfolding status_reply
  complete i st reply = do
    let (reply', st') = with_reconcile_completed reply st
    err ← on_world (cluster.imports.update_status (with_generic_status st' i))
    pure (status_reply reply' err)

  reconcile_existing : Option ℕ → SecretImport → Go (Env W) Reply
  unfolding reconcile complete
  reconcile_existing (some t) i = pure (done, none)
  reconcile_existing none i = do
    let st = set_reconciling i.meta i.status.generic_status
    reply ← reconcile (with_generic_status st i)
    complete i st reply

  reconcile_request : Fetched SecretImport → Go (Env W) Reply
  unfolding reconcile_existing
  reconcile_request (failed err) =
      if is_not_found err then pure (done, none) else pure (again, some err)
  reconcile_request (found i) = reconcile_existing i.meta.deletion_timestamp i

  unfoldable pub reconcile_import : NamespacedName → Go (Env W) Reply
  unfolding reconcile_request
  reconcile_import request = do i ← on_world (cluster.imports.get request); reconcile_request i
