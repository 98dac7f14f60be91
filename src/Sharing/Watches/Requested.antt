-- ===== src/Sharing/Watches/Requested.antt =====
-- The requests behind an event of a SecretExport.
use secretgen_controller.Common.{
  Text, text_eq, text_eq_iff, text_eq_instance, Bool, true, false, none, some, List, [], ◌∷◌, ◌≡◌,
  ◌≢◌, ◌↔◌, refl, arith, map, if◌then◌else◌, Bool-cases, inl, inr,
}
use secretgen_controller.Common.Maps
use secretgen_controller.Common.Go.{value}
use secretgen_controller.Kube.{found}
use secretgen_controller.Api.{NamespacedName}
use secretgen_controller.Api.Conditions.{
  ConditionType, reconciling, reconcile_failed, reconcile_succeeded, invalid, Condition,
  GenericStatus,
}
use secretgen_controller.Api.Exports.{SecretExport, SecretExportStatus}
use secretgen_controller.Api.Imports.{SecretImport}
use secretgen_controller.Sharing.Exports.{SecretExports, key, unexport}
use secretgen_controller.Sharing.Exports.Cache.{IsNamed, get-unexport}
use secretgen_controller.Sharing.Env.{Cluster, Env}
use secretgen_controller.Sharing.ExportReconciler.{bare_export}
use secretgen_controller.Sharing.Watches.{
  updated, deleted, same_type, same_bool, same_condition, same_conditions, same_generic,
  same_status, request_for, map_secret_export_to_secret_import, import_requests,
  enqueue_secret_export, ToRequests,
}

same_type_iff : (a b : ConditionType) → (same_type a b ≡ true) ↔ (a ≡ b)
unfolding same_type
same_type_iff reconciling reconciling = ground arith
same_type_iff reconciling reconcile_failed = ground arith
same_type_iff reconciling reconcile_succeeded = ground arith
same_type_iff reconciling invalid = ground arith
same_type_iff reconcile_failed reconciling = ground arith
same_type_iff reconcile_failed reconcile_failed = ground arith
same_type_iff reconcile_failed reconcile_succeeded = ground arith
same_type_iff reconcile_failed invalid = ground arith
same_type_iff reconcile_succeeded reconciling = ground arith
same_type_iff reconcile_succeeded reconcile_failed = ground arith
same_type_iff reconcile_succeeded reconcile_succeeded = ground arith
same_type_iff reconcile_succeeded invalid = ground arith
same_type_iff invalid reconciling = ground arith
same_type_iff invalid reconcile_failed = ground arith
same_type_iff invalid reconcile_succeeded = ground arith
same_type_iff invalid invalid = ground arith

same_bool_iff : (a b : Bool) → (same_bool a b ≡ true) ↔ (a ≡ b)
unfolding same_bool
same_bool_iff true true = ground arith
same_bool_iff true false = ground arith
same_bool_iff false true = ground arith
same_bool_iff false false = ground arith

same_condition_iff : (a b : Condition) → (same_condition a b ≡ true) ↔ (a ≡ b)
unfolding same_condition
same_condition_iff a b = ground (
  arith,
  same_type_iff a.type b.type,
  same_bool_iff a.status b.status,
  text_eq_iff a.reason b.reason,
  text_eq_iff a.message b.message,
)

same_conditions_iff : (xs ys : List Condition) → (same_conditions xs ys ≡ true) ↔ (xs ≡ ys)
unfolding same_conditions
same_conditions_iff (a ∷ xs) (b ∷ ys) =
    ground (arith, same_condition_iff a b, same_conditions_iff xs ys)
same_conditions_iff [] [] = ground arith
same_conditions_iff [] (b ∷ ys) = ground arith
same_conditions_iff (a ∷ xs) [] = ground arith

same_generic_iff : (a b : GenericStatus) → (same_generic a b ≡ true) ↔ (a ≡ b)
unfolding same_generic
same_generic_iff a b = ground (
  arith,
  same_conditions_iff a.conditions b.conditions,
  text_eq_iff a.friendly_description b.friendly_description,
)

pub same_status_iff : (a b : SecretExportStatus) → (same_status a b ≡ true) ↔ (a ≡ b)
unfolding same_status
same_status_iff a b = ground (
  arith,
  same_generic_iff a.generic_status b.generic_status,
  text_eq_iff a.observed_secret_resource_version b.observed_secret_resource_version,
)

module _ {W F : Type 0} (cluster : Cluster W F) where
  -- An update of a SecretExport that changes its status in any field is a request for every SecretImport
  -- that the cluster lists, so each will be reconciled against the new state.
  pub enqueue_secret_export-updated :
      (old new : SecretExport) (imports : List SecretImport) (s : Env W) (w : W)
      → old.status ≢ new.status
      → cluster.imports.list s.world ≡ (found imports, w)
      → enqueue_secret_export (import_requests cluster) (updated (some old) (some new)) s
        ≡ (value (map request_for imports), record s { world = w })
  unfolding enqueue_secret_export import_requests map_secret_export_to_secret_import
  enqueue_secret_export-updated old new imports s w changed listed =
      elim (Bool-cases (same_status old.status new.status)) [
        | inl same ↦ absurd (changed ((same_status_iff old.status new.status).0 same))
        | inr other ↦ rw (other, listed) refl
      ]

  -- The event of a deleted SecretExport first clears its entry, and then computes and adds the requests:
  -- what the handler does is what its ToRequests, whichever that is, does in a state whose cache has no
  -- entry of the export and the other entries as before. There the ToRequests of the SecretImports gives a
  -- request for every SecretImport that the cluster lists.
  pub enqueue_secret_export-deleted :
      (to_requests : ToRequests W) (object : NamespacedName) (imports : List SecretImport)
      (s : Env W) (w : W) (k : Text)
      → IsNamed (bare_export object)
      → cluster.imports.list s.world ≡ (found imports, w)
      → (cleared : SecretExports) × (enqueue_secret_export to_requests (deleted object) s
          ≡ to_requests (record s { cache = cleared }))
        × (Maps.get k cleared
            ≡ (if text_eq (key (bare_export object)) k then none else Maps.get k s.cache))
        × (import_requests cluster (record s { cache = cleared })
            ≡ (value (map request_for imports), record s { cache = cleared; world = w }))
  unfolding enqueue_secret_export import_requests map_secret_export_to_secret_import
  enqueue_secret_export-deleted to_requests object imports s w k named listed =
      let (ended, cached) = get-unexport (bare_export object) s.cache k named in
      ((unexport (bare_export object) s.cache).1, rw ended refl, cached, rw listed refl)
