-- ===== src/Sharing/ImportReconciler/Unmatched.antt =====
-- The import without a match: deleteAssociatedSecret, and the reply behind it.
use secretgen_controller.Common.{
  codes, Option, none, some, [], ◌≡◌, refl, if◌then◌else◌, Bool-cases, inl, inr,
}
use secretgen_controller.Common.Go.{value}
use secretgen_controller.Kube.{Fetched, found, failed}
use secretgen_controller.Api.{Secret, key_of}
use secretgen_controller.Api.Errors.{Error, plain, terminal, errorf, is_not_found}
use secretgen_controller.Api.Imports.{SecretImport}
use secretgen_controller.Reconciler.Status.{Reply, done, again}
use secretgen_controller.Sharing.Env.{Cluster, Env}
use secretgen_controller.Sharing.ImportReconciler.{
  deletion_error, unmatched_reply, delete_fetched, delete_associated_secret, reconcile_matched,
}

abbrev no_match : Reply
no_match = (done, some (terminal (plain (codes "No matching export/secret"))))

-- A Delete call that fails is tried again, unless the secret was gone.
abbrev deleted_reply : Option Error → Reply
deleted_reply none = no_match
deleted_reply (some err) =
    if is_not_found err
    then no_match
    else (again, some (errorf (codes "Deleting associated secret") err))

module _ {W F : Type 0} (cluster : Cluster W F) where
  -- The calls and the reply, by the answer of the Get call for the import's secret.
  abbrev pub removed : Fetched Secret × W → Reply × W
  removed (failed err, w) = (no_match, w)
  removed (found secret, w) =
      let (failure, w') = cluster.secrets.delete (key_of secret.meta) w in
      (deleted_reply failure, w')

  unmatched-deleted :
      (failure : Option Error) → unmatched_reply (deletion_error failure) ≡ deleted_reply failure
  unfolding unmatched_reply deletion_error
  unmatched-deleted none = refl
  unmatched-deleted (some err) = elim (Bool-cases (is_not_found err)) [
    | inl gone ↦ rw gone refl
    | inr other ↦ rw other refl
  ]

  pub reconcile_matched-removed :
      (i : SecretImport) (s : Env W)
      → reconcile_matched cluster i [] s ≡ (
          let (reply, w) = removed (cluster.secrets.get (key_of i.meta) s.world) in
          (value reply, record s { world = w }))
  unfolding reconcile_matched delete_associated_secret
  reconcile_matched-removed i s = by_answer (cluster.secrets.get (key_of i.meta) s.world).0 _ refl
    where
      by_answer :
          (answer : Fetched Secret) (w : W)
          → cluster.secrets.get (key_of i.meta) s.world ≡ (answer, w)
          → reconcile_matched cluster i [] s ≡ (
              let (reply, w) = removed (cluster.secrets.get (key_of i.meta) s.world) in
              (value reply, record s { world = w }))
      by_answer (failed err) w e = rw (e, delete_fetched) (unfold unmatched_reply in refl)
      by_answer (found secret) w e =
          rw
            (e, delete_fetched, unmatched-deleted (cluster.secrets.delete (key_of secret.meta) w).0)
            refl
