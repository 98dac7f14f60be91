-- ===== src/Generator/RsaKey/Created.antt =====
-- The secret that the RSA key reconciler creates.
use secretgen_controller.Common.{
  codes, text_eq, text_eq_iff, text_eq_instance, true, false, none, some, [], ◌∷◌, ◌≡◌, refl, arith,
}
use secretgen_controller.Common.Go.{value}
use secretgen_controller.Kube.{Client, failed}
use secretgen_controller.Api.{Secret, key_of}
use secretgen_controller.Api.Errors.{Error, is_not_found}
use secretgen_controller.Expansion.Grammar.{Open}
use secretgen_controller.Reconciler.Status.{created_reply}
use secretgen_controller.Reconciler.Secrets.{SetControllerReference, new_secret, apply_templates}
use secretgen_controller.Reconciler.Secrets.Pairs.{apply_template-pair}
use secretgen_controller.Reconciler.Secrets.Identity.{IsOwnedBy, apply_templates-IsOwnedBy}
use secretgen_controller.Generator.KeyPair.{KeyPair, Generated, key_pair}
use secretgen_controller.Generator.RsaKey.{
  RsaKey, secret_public_key, secret_private_key, default_template, key_values, key_secret,
  create_generated, create_secret, reconcile_fetched, reconcile,
}

first-Open : Open secret_public_key
first-Open = ground arith

second-Open : Open secret_private_key
second-Open = ground arith

keys-differ : text_eq secret_public_key secret_private_key ≡ false
keys-differ = ground (arith, text_eq_iff secret_public_key secret_private_key)

module _ {W : Type 0} (keys : Client W RsaKey) (secrets : Client W Secret)
    (set_reference : SetControllerReference) (generate : W → Generated × W) where
  key_secret-contents :
      (key : RsaKey) (pair : KeyPair)
      → key.secret_template ≡ none
      → (key_secret keys secrets set_reference generate key pair).contents
        ≡ some ((codes "pub.pem", pair.public_key) ∷ (codes "key.pem", pair.private_key) ∷ [])
  unfolding key_secret apply_templates new_secret
  key_secret-contents key pair h = rw h (
      apply_template-pair default_template (codes "pub.pem") (codes "key.pem") secret_public_key
        secret_private_key pair.public_key pair.private_key
        (new_secret set_reference key.meta (key_values pair)) refl refl keys-differ first-Open
        second-Open)

  key_secret-IsOwnedBy :
      (key : RsaKey) (pair : KeyPair)
      → key.secret_template ≡ none
      → IsOwnedBy set_reference key.meta
          (codes "Opaque")
          (key_secret keys secrets set_reference generate key pair)
  unfolding key_secret
  key_secret-IsOwnedBy key pair h =
      rw h
        (apply_templates-IsOwnedBy set_reference key.meta default_template (key_values pair) refl)

  -- Where a key's secret does not exist, its reconcile makes one Create call and replies the call's
  -- outcome. The created secret has the name and the namespace of the request, its controller reference
  -- and the type of the default template, and its data are the generated key pair under its two keys. The
  -- request has no template of its own, and the generator returns a pair.
  pub reconcile-rsa_key :
      (key : RsaKey) (err : Error) (pair : KeyPair) (w : W)
      → key.secret_template ≡ none
      → (secrets.get (key_of key.meta) w).0 ≡ failed err
      → is_not_found err ≡ true
      → (generate (secrets.get (key_of key.meta) w).1).0 ≡ key_pair pair
      → (secret : Secret) × (secret.contents
          ≡ some ((codes "pub.pem", pair.public_key) ∷ (codes "key.pem", pair.private_key) ∷ []))
        × IsOwnedBy set_reference key.meta (codes "Opaque") secret
        × (reconcile keys secrets set_reference generate key w ≡ (
            let (failure, w') =
              secrets.create secret (generate (secrets.get (key_of key.meta) w).1).1 in
            (value (created_reply failure), w')))
  unfolding reconcile reconcile_fetched create_secret create_generated
  reconcile-rsa_key key err pair w h missing absent ok = (
    key_secret keys secrets set_reference generate key pair,
    key_secret-contents key pair h,
    key_secret-IsOwnedBy key pair h,
    rw (missing, reconcile_fetched, absent, ok) refl,
  )
