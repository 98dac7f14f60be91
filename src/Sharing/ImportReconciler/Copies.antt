-- ===== src/Sharing/ImportReconciler/Copies.antt =====
-- copyAssociatedSecret: what an import writes.
use secretgen_controller.Common.{true, none, some, ◌≡◌, refl}
use secretgen_controller.Common.Go.{value}
use secretgen_controller.Kube.{found}
use secretgen_controller.Api.{ObjectMeta, Secret, key_of}
use secretgen_controller.Api.Errors.{Error, is_already_exists}
use secretgen_controller.Api.Imports.{SecretImport}
use secretgen_controller.Reconciler.Status.{done}
use secretgen_controller.Reconciler.Secrets.{OwnedSecret, associate_existing_secret}
use secretgen_controller.Reconciler.Secrets.Copies.{IsCopy, apply_secret-IsCopy}
use secretgen_controller.Sharing.Env.{Cluster, Env}
use secretgen_controller.Sharing.ImportReconciler.{
  imported_secret, update_existing, created, updated_reply, copy_associated_secret,
}

associate-IsCopy :
    (owner : ObjectMeta) (source existing : Secret) (p : OwnedSecret)
    → IsCopy owner source p.secret
    → IsCopy owner source (associate_existing_secret existing p).secret
unfolding associate_existing_secret
associate-IsCopy owner source existing p h = record {
  key = h.key;
  type = h.type;
  contents = h.contents;
}

-- The copy is created; where that succeeds, nothing else is written, and the reply is done.
pub copy_associated_secret-created :
    {W F : Type 0} (cluster : Cluster W F) (i : SecretImport) (source : Secret) (s : Env W)
    → ((copy : Secret) → IsCopy i.meta source copy → (cluster.secrets.create copy s.world).0 ≡ none)
    → (copy : Secret) × IsCopy i.meta source copy
      × (copy_associated_secret cluster i source s
          ≡ (value (done, none), record s { world = (cluster.secrets.create copy s.world).1 }))
unfolding copy_associated_secret created imported_secret
copy_associated_secret-created cluster i source s accepts =
    let copy = (imported_secret cluster i source).secret in
    let is_copy = apply_secret-IsCopy cluster.set_reference i.meta source in
    (copy, is_copy, rw (accepts copy is_copy) refl)

-- Where a secret of the import's name exists, it is overwritten: after the failed Create one Update is
-- made, of a copy of the source that has the identity and the version of the existing secret.
pub copy_associated_secret-overwrites :
    {W F : Type 0} (cluster : Cluster W F) (i : SecretImport) (source existing : Secret)
    (err : Error) (s : Env W)
    → (cluster.secrets.create (imported_secret cluster i source).secret s.world).0 ≡ some err
    → is_already_exists err ≡ true
    → (cluster.secrets.get
        (key_of i.meta)
        (cluster.secrets.create (imported_secret cluster i source).secret s.world).1).0
      ≡ found existing
    → (copy : Secret) × IsCopy i.meta source copy
      × (copy.meta.uid ≡ existing.meta.uid)
      × (copy.meta.resource_version ≡ existing.meta.resource_version)
      × (copy_associated_secret cluster i source s ≡ (
          let (failure, world) =
            cluster.secrets.update copy
              (cluster.secrets.get
                (key_of i.meta)
                (cluster.secrets.create (imported_secret cluster i source).secret s.world).1).1 in
          (value (updated_reply failure), record s { world = world })))
unfolding copy_associated_secret created update_existing associate_existing_secret
copy_associated_secret-overwrites cluster i source existing err s fails exists here =
    let wanted = imported_secret cluster i source in
    (
      (associate_existing_secret existing wanted).secret,
      associate-IsCopy i.meta source existing wanted
          (unfold imported_secret in apply_secret-IsCopy cluster.set_reference i.meta source),
      refl,
      refl,
      rw (fails, exists, here) refl,
    )
