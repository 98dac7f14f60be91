-- ===== src/Examples/Shared.antt =====
-- The theorems of Sharing/Shared at an export to one namespace.
use secretgen_controller.Common.{Text, codes, none, some, ◌≡◌, refl, arith, text_eq_instance}
use secretgen_controller.Sharing.Exports.Cache.{entry_of}
use secretgen_controller.Sharing.ExportReconciler.{reconcile_export}
use secretgen_controller.Sharing.ImportReconciler.{copy_associated_secret}
use secretgen_controller.Sharing.Wildcards.{namespace_wildcard_exclusion_check}
use secretgen_controller.Api.Exports.{static_to_namespaces, validate}
use mathlib.Core.Logic.{inl, inr}
use secretgen_controller.Api.Errors.{combined_errs, plain, terminal}
use secretgen_controller.Common.Go.{value}
use secretgen_controller.Reconciler.Status.{done}
use secretgen_controller.Api.Imports.{SecretImport}
use secretgen_controller.Api.Imports as ApiImports
use secretgen_controller.Sharing.Env.{reader_of}
use secretgen_controller.Sharing.Exports.Matching.{Has, IsOffered}
use secretgen_controller.Sharing.ImportReconciler.{reconcile}
use secretgen_controller.Sharing.Shared.{warm_env, reconcile-copies_exported, reconcile-withholds}
use secretgen_controller.Examples.Data.{
  import_at, app, secret_at, export_at, cluster, exports_named, secrets_named, cache-IsCache, env,
}

export-valid : validate (export_at app) ≡ none
unfolding validate static_to_namespaces combined_errs
export-valid = refl

abbrev import_into : Text → SecretImport
import_into ns = import_at (record { namespace = ns; name = codes "app" })

import-valid : (ns : Text) → ApiImports.validate (import_into ns) ≡ none
unfolding ApiImports.validate combined_errs
import-valid ns = refl

team_listed : Has (codes "team") (static_to_namespaces (export_at app))
unfolding static_to_namespaces
team_listed = inl refl

reconcile-copies_exported_example :
    reconcile cluster
      (import_into (codes "team"))
      (warm_env 7 (reconcile_export cluster app env).1.cache)
    ≡ copy_associated_secret cluster
        (import_into (codes "team"))
        (secret_at app)
        (warm_env 7 (reconcile_export cluster app env).1.cache)
reconcile-copies_exported_example =
    reconcile-copies_exported cluster exports_named secrets_named env app (export_at app)
      (secret_at app) (import_into (codes "team")) 7 cache-IsCache (λ e. ground arith)
      (λ e. ground arith) refl refl refl export-valid (import-valid (codes "team")) refl team_listed

not_for_others :
    ¬ IsOffered
      (entry_of (export_at app) (secret_at app))
      (codes "else")
      (namespace_wildcard_exclusion_check cluster.namespaces 7)
      (reader_of cluster 7)
unfolding static_to_namespaces
not_for_others (inl (inl e)) = ground arith
not_for_others (inl (inr none_left)) = none_left
not_for_others (inr (inl (inl e, _))) = ground arith
not_for_others (inr (inl (inr none_left, _))) = none_left
not_for_others (inr (inr (some_selectors, _))) = some_selectors refl

reconcile-withholds_example :
    reconcile cluster
      (import_into (codes "else"))
      (warm_env 7 (reconcile_export cluster app env).1.cache)
    ≡ (
      value (done, some (terminal (plain (codes "No matching export/secret")))),
      warm_env 8 (reconcile_export cluster app env).1.cache,
    )
reconcile-withholds_example =
    reconcile-withholds cluster exports_named secrets_named env app (export_at app) (secret_at app)
      (import_into (codes "else")) 7 cache-IsCache (λ e. ground arith) (λ e. ground arith) refl refl
      refl export-valid (import-valid (codes "else")) refl not_for_others
