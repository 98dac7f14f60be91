-- ===== src/Sharing/ExportReconciler/Safety.antt =====
-- The steps of the export reconciler and the invariant of the cache.
use secretgen_controller.Common.{
  Bool, true, false, Option, none, some, List, [], ◌∷◌, if◌then◌else◌,
}
use secretgen_controller.Common.Go.{Go, Outcome, value, panicked, pure, continue, gets, ◌>>=◌, ◌>>◌}
use secretgen_controller.Kube.{Fetched, found, failed}
use secretgen_controller.Api.{NamespacedName, Secret}
use secretgen_controller.Api.Errors.{Error, is_not_found}
use secretgen_controller.Api.Conditions.{GenericStatus}
use secretgen_controller.Api.Exports.{SecretExport}
use secretgen_controller.Reconciler.Status.{Reply, set_reconciling}
use secretgen_controller.Sharing.Exports
use secretgen_controller.Sharing.Exports.{SecretExports, SecretMatcher}
use secretgen_controller.Sharing.Exports.Cache.{IsCache, export-IsCache, unexport-IsCache}
use secretgen_controller.Sharing.Env.{Cluster, Env, on_cache, on_world}
use secretgen_controller.Common.{Text, ℕ}
use secretgen_controller.Sharing.ExportReconciler.{
  bare_export, with_version, with_generic_status, reconcile_fetched, reconcile_validated, reconcile,
  update_status, complete, reconcile_existing, reconcile_request, reconcile_export, warm_up_all,
  warm_up_found, warm_up, once, matched_secrets_for_import,
}

-- An action keeps the cache well formed, whether it returns or panics.
pub record KeepsCache {W A : Type 0} (m : Go (Env W) A) : Type 0 where
  pub at : (s : Env W) → IsCache s.cache → IsCache (m s).1.cache

module _ {W A : Type 0} where
  pub KeepsCache-pure : (a : A) → KeepsCache {W = W} (pure a)
  KeepsCache-pure a = record { at = λ s h. h }

  pub KeepsCache-on_world : (f : W → A × W) → KeepsCache (on_world f)
  KeepsCache-on_world f = record { at = λ s h. h }

  pub KeepsCache-on_cache :
      (m : Go SecretExports A)
      → ((c : SecretExports) → IsCache c → IsCache (m c).1)
      → KeepsCache {W = W} (on_cache m)
  KeepsCache-on_cache m k = record { at = λ s h. k s.cache h }

  pub KeepsCache-if :
      (b : Bool) (m n : Go (Env W) A)
      → KeepsCache m
      → KeepsCache n
      → KeepsCache (if b then m else n)
  KeepsCache-if true m n km kn = km
  KeepsCache-if false m n km kn = kn

module _ {W A B : Type 0} where
  continue-IsCache :
      (r : Outcome A) (f : A → Go (Env W) B) (s : Env W)
      → ((a : A) → KeepsCache (f a))
      → IsCache s.cache
      → IsCache (continue r f s).1.cache
  continue-IsCache (value a) f s k h = (k a).at s h
  continue-IsCache (panicked e) f s k h = h

  pub KeepsCache-bind :
      (m : Go (Env W) A) (f : A → Go (Env W) B)
      → KeepsCache m
      → ((a : A) → KeepsCache (f a))
      → KeepsCache (m >>= f)
  KeepsCache-bind m f km kf = record {
    at = λ s h. continue-IsCache (m s).0 f (m s).1 kf (km.at s h);
  }

module _ {W F : Type 0} (cluster : Cluster W F) where
  unexport_then :
      {A : Type 0} (e : SecretExport) (a : A)
      → KeepsCache {W = W} (on_cache (Exports.unexport e) >> pure a)
  unexport_then e a =
      KeepsCache-bind (on_cache (Exports.unexport e)) (λ _. pure a)
        (KeepsCache-on_cache (Exports.unexport e) (unexport-IsCache e)) (λ _. KeepsCache-pure a)

  reconcile_fetched-KeepsCache :
      (e : SecretExport) (secret : Fetched Secret) → KeepsCache (reconcile_fetched cluster e secret)
  unfolding reconcile_fetched
  reconcile_fetched-KeepsCache e (found secret) =
      KeepsCache-bind _ _
        (KeepsCache-on_cache _
          (export-IsCache (with_version secret.meta.resource_version e) secret))
        (λ _. KeepsCache-pure _)
  reconcile_fetched-KeepsCache e (failed err) =
      KeepsCache-if (is_not_found err) _ _ (unexport_then e _) (KeepsCache-pure _)

  reconcile_validated-KeepsCache :
      (e : SecretExport) (invalid : Option Error)
      → KeepsCache (reconcile_validated cluster e invalid)
  unfolding reconcile_validated
  reconcile_validated-KeepsCache e (some err) = unexport_then e _
  reconcile_validated-KeepsCache e none =
      KeepsCache-bind _ _ (KeepsCache-on_world _) (reconcile_fetched-KeepsCache e)

  reconcile-KeepsCache : (e : SecretExport) → KeepsCache (reconcile cluster e)
  unfolding reconcile
  reconcile-KeepsCache e = reconcile_validated-KeepsCache _ _

  complete-KeepsCache :
      (st : GenericStatus) (r : Reply × SecretExport) → KeepsCache (complete cluster st r)
  unfolding complete update_status
  complete-KeepsCache st (reply, e) = record { at = λ s h. h }

  reconcile_existing-KeepsCache :
      (deleting : Option ℕ) (e : SecretExport) → KeepsCache (reconcile_existing cluster deleting e)
  unfolding reconcile_existing
  reconcile_existing-KeepsCache (some t) e = unexport_then e _
  reconcile_existing-KeepsCache none e =
      KeepsCache-bind _ _
        (reconcile-KeepsCache
          (with_generic_status (set_reconciling e.meta e.status.generic_status) e))
        (complete-KeepsCache _)

  reconcile_request-KeepsCache :
      (request : NamespacedName) (answer : Fetched SecretExport)
      → KeepsCache (reconcile_request cluster request answer)
  unfolding reconcile_request
  reconcile_request-KeepsCache request (found e) =
      reconcile_existing-KeepsCache e.meta.deletion_timestamp e
  reconcile_request-KeepsCache request (failed err) =
      KeepsCache-if (is_not_found err) _ _ (unexport_then (bare_export request) _)
        (KeepsCache-pure _)

  -- A reconcile of any request keeps the cache well formed, whatever the API answers.
  pub reconcile_export-KeepsCache :
      (request : NamespacedName) → KeepsCache (reconcile_export cluster request)
  unfolding reconcile_export
  reconcile_export-KeepsCache request =
      KeepsCache-bind _ _ (KeepsCache-on_world _) (reconcile_request-KeepsCache request)

  warm_up_all-KeepsCache : (es : List SecretExport) → KeepsCache (warm_up_all cluster es)
  unfolding warm_up_all
  warm_up_all-KeepsCache [] = KeepsCache-pure tt
  warm_up_all-KeepsCache (e ∷ es) =
      KeepsCache-bind _ _ (reconcile-KeepsCache e) (λ _. warm_up_all-KeepsCache es)

  warm_up_found-KeepsCache :
      (answer : Fetched (List SecretExport)) → KeepsCache (warm_up_found cluster answer)
  unfolding warm_up_found
  warm_up_found-KeepsCache (failed err) = KeepsCache-pure tt
  warm_up_found-KeepsCache (found es) = warm_up_all-KeepsCache es

  pub warm_up-KeepsCache : KeepsCache (warm_up cluster)
  unfolding warm_up
  warm_up-KeepsCache = KeepsCache-bind _ _ (KeepsCache-on_world _) warm_up_found-KeepsCache

  pub once-KeepsCache : (warmed : Bool) → KeepsCache (once cluster warmed)
  unfolding once
  once-KeepsCache true = record { at = λ s h. h }
  once-KeepsCache false = record {
    at = λ s h. warm_up-KeepsCache.at (record s { warmed_up = true }) h;
  }

  -- So does a query, with the warm-up that its first call makes.
  pub matched_secrets_for_import-KeepsCache :
      (matcher : SecretMatcher) (excluded : W → Text → Bool)
      → KeepsCache (matched_secrets_for_import cluster matcher excluded)
  unfolding matched_secrets_for_import
  matched_secrets_for_import-KeepsCache matcher excluded =
      KeepsCache-bind (gets (λ s. s.warmed_up)) _ (record { at = λ s h. h })
        (λ warmed. KeepsCache-bind _ _ (once-KeepsCache warmed) (λ _. record { at = λ s h. h }))
