-- ===== src/Generator/RsaKey.antt =====
-- RsaKeyReconciler of pkg/generator/rsa_key_reconciler.go.
-- The key generator of the config-server library is a parameter: it returns the PEM texts of a key pair, or an error.
pub mod Created
use secretgen_controller.Common.{
  ℕ, Text, codes, Bool, true, false, Option, none, some, List, [], ◌∷◌, if◌then◌else◌,
}
use secretgen_controller.Common.Go.{Go, Outcome, value, panicked, pure, panic, call, ◌>>=◌, ◌>>◌}
use secretgen_controller.Kube.{Client, Fetched, found, failed}
use secretgen_controller.Api.{NamespacedName, ObjectMeta, Secret, key_of}
use secretgen_controller.Api.Errors.{Error, is_not_found}
use secretgen_controller.Api.Conditions.{GenericStatus}
use secretgen_controller.Expansion.{variable}
use secretgen_controller.Reconciler.Status.{
  Result, Reply, done, again, set_reconciling, with_reconcile_completed, created_reply,
}
use secretgen_controller.Reconciler.Secrets.{
  SetControllerReference, SecretTemplate, new_secret, apply_templates,
}
use secretgen_controller.Generator.KeyPair.{KeyPair, Generated, key_pair, no_key}

pub record RsaKey : Type 0 where
  pub meta : ObjectMeta
  pub secret_template : Option SecretTemplate
  pub generic_status : GenericStatus

abbrev pub secret_public_key : Text
secret_public_key = codes "publicKey"

abbrev pub secret_private_key : Text
secret_private_key = codes "privateKey"

abbrev pub default_template : SecretTemplate
default_template = record {
  metadata = record { annotations = none; labels = none };
  type = codes "Opaque";
  string_data = some (
      (codes "pub.pem", variable secret_public_key)
      ∷ (codes "key.pem", variable secret_private_key)
      ∷ []);
}

abbrev pub key_values : KeyPair → List (Text × Text)
key_values pair = (secret_public_key, pair.public_key) ∷ (secret_private_key, pair.private_key) ∷ []

abbrev with_generic_status : GenericStatus → RsaKey → RsaKey
with_generic_status st k = record k { generic_status = st }

module _ {W : Type 0} (keys : Client W RsaKey) (secrets : Client W Secret)
    (set_reference : SetControllerReference) (generate : W → Generated × W) where
  unfoldable pub key_secret : RsaKey → KeyPair → Secret
  unfolding new_secret apply_templates
  key_secret key pair =
      (apply_templates default_template key.secret_template
        (new_secret set_reference key.meta (key_values pair))).secret

  create_generated : RsaKey → Generated → Go W Reply
  unfolding key_secret created_reply
  create_generated key (no_key err) = pure (again, some err)
  create_generated key (key_pair pair) = do
    err ← call (secrets.create (key_secret key pair))
    pure (created_reply err)

  pub create_secret : RsaKey → Go W Reply
  unfolding create_generated
  create_secret key = do generated ← call generate; create_generated key generated

  reconcile_fetched : RsaKey → Fetched Secret → Go W Reply
  unfolding create_secret
  reconcile_fetched key (found secret) = pure (done, none)
  reconcile_fetched key (failed err) =
      if is_not_found err then create_secret key else pure (again, some err)

  pub reconcile : RsaKey → Go W Reply
  unfolding reconcile_fetched
  reconcile key = do secret ← call (secrets.get (key_of key.meta)); reconcile_fetched key secret

  -- updateStatus of a deferred call: its error is dropped.
  write_status : GenericStatus → Fetched RsaKey → Go W (Unit {0})
  write_status st (failed err) = pure tt
  write_status st (found existing) = do
    call (keys.update_status (with_generic_status st existing))
    pure tt

  update_status : RsaKey → GenericStatus → Go W (Unit {0})
  unfolding write_status
  update_status key st = do existing ← call (keys.get (key_of key.meta)); write_status st existing

  complete : RsaKey → GenericStatus → Reply → Go W Reply
  unfolding update_status
  complete key st reply = do
    let (reply', st') = with_reconcile_completed reply st
    update_status key st'
    pure reply'

  reconcile_existing : Option ℕ → RsaKey → Go W Reply
  unfolding reconcile complete
  reconcile_existing (some t) key = pure (done, none)
  reconcile_existing none key = do
    let st = set_reconciling key.meta key.generic_status
    reply ← reconcile (with_generic_status st key)
    complete key st reply

  reconcile_request : Fetched RsaKey → Go W Reply
  unfolding reconcile_existing
  reconcile_request (failed err) =
      if is_not_found err then pure (done, none) else pure (again, some err)
  reconcile_request (found key) = reconcile_existing key.meta.deletion_timestamp key

  unfoldable pub reconcile_rsa_key : NamespacedName → Go W Reply
  unfolding reconcile_request
  reconcile_rsa_key request = do key ← call (keys.get request); reconcile_request key
