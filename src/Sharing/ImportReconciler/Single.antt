-- ===== src/Sharing/ImportReconciler/Single.antt =====
-- The outcome of the reconcile of an import, with the warm-up that its query may make.
use secretgen_controller.Common.{
  ℕ, ◌≤◌, Option, none, some, List, [], ◌∷◌, ◌≡◌, ◌≢◌, refl, sym, ap, ◌∙◌, arith, length,
}
use secretgen_controller.Kube.{Fetched, found, failed}
use secretgen_controller.Api.{NamespacedName, Secret, key_of}
use secretgen_controller.Api.Errors.{Error, is_not_found, is_already_exists, combined_errs}
use secretgen_controller.Api.Imports.{SecretImport, validate}
use secretgen_controller.Reconciler.Status.{set_reconciling}
use secretgen_controller.Reconciler.Secrets.{OwnedSecret}
use secretgen_controller.Sharing.Exports.Cache.{IsCache}
use secretgen_controller.Sharing.Exports.Single.{length-matched_secrets_for_import-le-one}
use secretgen_controller.Sharing.Env.{Cluster, Env, reader_of}
use secretgen_controller.Sharing.Wildcards.{namespace_wildcard_exclusion_check}
use secretgen_controller.Sharing.ExportReconciler.Caching.{ReturnsNamed}
use secretgen_controller.Sharing.ExportReconciler.WarmUp.{
  Returns, Returns-bind, Returns-if, ListsNamed, matched_secrets_for_import-Queried,
}
use secretgen_controller.Sharing.ImportReconciler.{
  with_generic_status, matcher_for, update_existing, created, imported_secret,
  copy_associated_secret, delete_fetched, delete_associated_secret, reconcile_matched,
  reconcile_validated, reconcile, complete, reconcile_existing, reconcile_request, reconcile_import,
}

validate-none : (i : SecretImport) → validate i ≡ none → i.spec.from_namespace ≢ []
unfolding validate combined_errs
validate-none i h = ground arith

module _ {W F : Type 0} (cluster : Cluster W F) where
  created-Returns :
      (i : SecretImport) (wanted : OwnedSecret) (err : Option Error) (s : Env W)
      → Returns (created cluster i wanted err) s
  unfolding created update_existing
  created-Returns i wanted none s = (_, refl)
  created-Returns i wanted (some err) s =
      Returns-if (is_already_exists err) _ _ s
        (existing-Returns (cluster.secrets.get (key_of i.meta) s.world).0 _) (_, refl)
    where
      existing-Returns :
          (answer : Fetched Secret) (t : Env W) → Returns (update_existing cluster wanted answer) t
      existing-Returns (found x) t = (_, refl)
      existing-Returns (failed e) t = (_, refl)

  copy-Returns :
      (i : SecretImport) (source : Secret) (s : Env W)
      → Returns (copy_associated_secret cluster i source) s
  unfolding copy_associated_secret
  copy-Returns i source s = created-Returns i (imported_secret cluster i source) _ _

  delete-Returns : (i : SecretImport) (s : Env W) → Returns (delete_associated_secret cluster i) s
  unfolding delete_associated_secret
  delete-Returns i s = fetched-Returns (cluster.secrets.get (key_of i.meta) s.world).0 _
    where
      fetched-Returns :
          (answer : Fetched Secret) (t : Env W) → Returns (delete_fetched cluster i answer) t
      fetched-Returns (found x) t = unfold delete_fetched in (_, refl)
      fetched-Returns (failed e) t = unfold delete_fetched in (_, refl)

  reconcile_matched-Returns :
      (i : SecretImport) (secrets : List Secret) (s : Env W)
      → length secrets ≤ 1
      → Returns (reconcile_matched cluster i secrets) s
  unfolding reconcile_matched
  reconcile_matched-Returns i [] s h =
      Returns-bind (delete_associated_secret cluster i) _ s (delete-Returns i s)
        (λ err t. (_, refl))
  reconcile_matched-Returns i (secret ∷ []) s h = copy-Returns i secret s
  reconcile_matched-Returns i (secret ∷ other ∷ more) s h = absurd (omega arith)

  module _ (named_secrets : ReturnsNamed cluster.secrets (λ x. x.meta))
      (lists : ListsNamed cluster) where
    reconcile_validated-Returns :
        (i : SecretImport) (invalid : Option Error) (s : Env W)
        → i.meta.name ≢ []
        → (invalid ≡ none → i.spec.from_namespace ≢ [])
        → IsCache s.cache
        → Returns (reconcile_validated cluster i invalid) s
    unfolding reconcile_validated
    reconcile_validated-Returns i (some err) s name ns h = (_, refl)
    reconcile_validated-Returns i none s name ns h =
        let excluded = namespace_wildcard_exclusion_check cluster.namespaces in
        let (secrets, ok, query) =
          matched_secrets_for_import-Queried cluster named_secrets lists (matcher_for i) excluded s
            h in
        rw ok (
          reconcile_matched-Returns i secrets _ (
            rw query.answer (
              length-matched_secrets_for_import-le-one cluster.float query.env.cache (matcher_for i)
                (excluded query.env.world) (reader_of cluster query.env.world) query.is_cache name
                (ns refl))))

    reconcile_existing-Returns :
        (deleting : Option ℕ) (i : SecretImport) (s : Env W)
        → i.meta.name ≢ []
        → IsCache s.cache
        → Returns (reconcile_existing cluster deleting i) s
    unfolding reconcile_existing reconcile complete
    reconcile_existing-Returns (some t) i s name h = (_, refl)
    reconcile_existing-Returns none i s name h =
        let started = with_generic_status (set_reconciling i.meta i.status.generic_status) i in
        Returns-bind (reconcile_validated cluster started (validate started)) _ s
          (reconcile_validated-Returns started (validate started) s name (validate-none started) h)
          (λ reply t. (_, refl))

    reconcile_request-Returns :
        (answer : Fetched SecretImport) (s : Env W)
        → ((i : SecretImport) → answer ≡ found i → i.meta.name ≢ [])
        → IsCache s.cache
        → Returns (reconcile_request cluster answer) s
    unfolding reconcile_request
    reconcile_request-Returns (failed err) s name h =
        Returns-if (is_not_found err) _ _ s (_, refl) (_, refl)
    reconcile_request-Returns (found i) s name h =
        reconcile_existing-Returns i.meta.deletion_timestamp i s (name i refl) h

-- Reconciling an import request returns: whatever the cache and the cluster went through, no two
-- secrets match and the warm-up that the query may make does not panic.
pub reconcile_import-Returns :
    {W F : Type 0} (cluster : Cluster W F) (request : NamespacedName) (s : Env W)
    → ReturnsNamed cluster.imports (λ i. i.meta)
    → ReturnsNamed cluster.secrets (λ x. x.meta)
    → ListsNamed cluster
    → request.name ≢ []
    → IsCache s.cache
    → Returns (reconcile_import cluster request) s
unfolding reconcile_import
reconcile_import-Returns cluster request s imports secrets lists name h =
    reconcile_request-Returns cluster secrets lists (cluster.imports.get request s.world).0 _
      (λ i p e.
        name (sym (ap (λ (k : NamespacedName). k.name) (imports.get_named request s.world p)) ∙ e))
      h
