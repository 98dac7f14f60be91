-- ===== src/Generator/Certificate/Created.antt =====
-- The secret that the certificate reconciler creates, and what becomes of it.
use secretgen_controller.Common.{
  Text, codes, text_eq, text_eq_iff, text_eq_instance, true, false, not, Option, none, some, [],
  ◌∷◌, ◌≡◌, refl, ap, ◌∙◌, arith, is_empty, Bool-cases, inl, inr,
}
use secretgen_controller.Common.Maps
use secretgen_controller.Common.Maps.{Map}
use secretgen_controller.Common.Go.{Outcome, value, panicked, ◌>>=◌}
use secretgen_controller.Kube.{Fetched, found, failed}
use secretgen_controller.Api.{ObjectMeta, Secret, key_of, entries}
use secretgen_controller.Api.Errors.{Error, is_not_found}
use secretgen_controller.Expansion.Grammar.{Open}
use secretgen_controller.Reconciler.Status.{done, created_reply}
use secretgen_controller.Reconciler.Secrets.{SetControllerReference, new_secret, apply_templates}
use secretgen_controller.Reconciler.Secrets.Pairs.{apply_template-pair}
use secretgen_controller.Reconciler.Secrets.Identity.{IsOwnedBy, apply_templates-IsOwnedBy}
use secretgen_controller.Generator.Inputs.{generate_inputs_ann_key, is_changed}
use secretgen_controller.Generator.Inputs.Changes.{is_changed-add, is_changed_lem}
use secretgen_controller.Generator.Certificate.{
  Certificate, CertParams, CertResponse, secret_certificate_key, secret_private_key,
  default_certificate_key, default_private_key, default_template, ca_name_for, new_cert_params,
  cert_values, cert_secret,
}
use secretgen_controller.Generator.Certificate.Loader.{
  Parsers, LoadCerts, certificate_block, parse_certificate, private_key_block, parse_private_key,
  with_key, with_certificate, load_certs,
}
use secretgen_controller.Generator.Certificate.Reconciler.{
  CertificateServices, inputs_of, with_annotations, get_ca_ref_secret, present, ca_secret_named,
  generate_with, generate, create_annotated, create_generated, create_secret, update_secret,
  reconcile_changed, reconcile_fetched, reconcile,
}

first-Open : Open secret_certificate_key
first-Open = ground arith

second-Open : Open secret_private_key
second-Open = ground arith

keys-differ : text_eq secret_certificate_key secret_private_key ≡ false
keys-differ = ground (arith, text_eq_iff secret_certificate_key secret_private_key)

cert_secret-contents :
    (set_reference : SetControllerReference) (cert : Certificate) (r : CertResponse)
    → cert.spec.secret_template ≡ none
    → (cert_secret set_reference cert r).contents
      ≡ some ((default_certificate_key, r.certificate) ∷ (default_private_key, r.private_key) ∷ [])
unfolding cert_secret apply_templates new_secret
cert_secret-contents set_reference cert r h = rw h (
    apply_template-pair default_template default_certificate_key default_private_key
      secret_certificate_key secret_private_key r.certificate r.private_key
      (new_secret set_reference cert.meta (cert_values r)) refl refl keys-differ first-Open
      second-Open)

cert_secret-IsOwnedBy :
    (set_reference : SetControllerReference) (cert : Certificate) (r : CertResponse)
    → cert.spec.secret_template ≡ none
    → IsOwnedBy set_reference cert.meta (codes "Opaque") (cert_secret set_reference cert r)
unfolding cert_secret
cert_secret-IsOwnedBy set_reference cert r h =
    rw h (apply_templates-IsOwnedBy set_reference cert.meta default_template (cert_values r) refl)

with_annotations-IsOwnedBy :
    (set_reference : SetControllerReference) (owner : ObjectMeta) (type : Text)
    (anns : Map Text Text) (secret : Secret)
    → IsOwnedBy set_reference owner type secret
    → IsOwnedBy set_reference owner type (with_annotations anns secret)
with_annotations-IsOwnedBy set_reference owner type anns secret h = record {
  at_key = h.at_key;
  owned = h.owned;
  typed = h.typed;
}

module _ {W C K : Type 0} (services : CertificateServices W C K) where
  -- Where the secret of a certificate does not exist and a certificate is generated for it, its reconcile
  -- makes one Create call and replies the call's outcome. The created secret has the name and the namespace
  -- of the certificate, its controller reference and the type Opaque. Its data are the certificate and its
  -- private key under the default keys, and an annotation keeps the encoding of the parameters, by which
  -- they have not changed. The certificate has no template of its own, and its parameters can be
  -- marshalled.
  pub reconcile-certificate :
      (cert : Certificate) (err : Error) (r : CertResponse) (w w' : W) (bytes : Text)
      → cert.spec.secret_template ≡ none
      → (services.secrets.get (key_of cert.meta) w).0 ≡ failed err
      → is_not_found err ≡ true
      → generate services (new_cert_params cert) cert (services.secrets.get (key_of cert.meta) w).1
        ≡ (value (found r), w')
      → services.marshal (new_cert_params cert) ≡ some bytes
      → (secret : Secret) × (secret.contents
          ≡ some (
              (default_certificate_key, r.certificate) ∷ (default_private_key, r.private_key) ∷ []))
        × IsOwnedBy services.set_reference cert.meta (codes "Opaque") secret
        × (Maps.get generate_inputs_ann_key (entries secret.meta.annotations) ≡ some bytes)
        × (is_changed (inputs_of services (new_cert_params cert)) secret.meta.annotations
            ≡ value false)
        × (reconcile services cert w ≡ (
            let (failure, w'') = services.secrets.create secret w' in
            (value (created_reply failure), w'')))
  unfolding reconcile reconcile_fetched create_secret create_generated create_annotated
  reconcile-certificate cert err r w w' bytes own missing absent generated marshalled =
      let inputs = inputs_of services (new_cert_params cert) in
      let before = cert_secret services.set_reference cert r in
      let (written, stored, kept, asked) =
        is_changed-add inputs inputs (entries before.meta.annotations) bytes bytes marshalled
          marshalled in
      (
        with_annotations written before,
        cert_secret-contents services.set_reference cert r own,
        with_annotations-IsOwnedBy services.set_reference cert.meta (codes "Opaque") written before
            (cert_secret-IsOwnedBy services.set_reference cert r own),
        kept,
        asked ∙ ap (λ b. value (not b)) ((text_eq_iff bytes bytes).1 refl),
        rw (missing, absent, generated, stored) refl,
      )

  -- A secret that exists is left as it is, whether the certificate's parameters have changed since it was
  -- generated or not: the reconcile only reads it, and replies that it is done. The parameters can be
  -- marshalled.
  pub reconcile-ignores_changes :
      (cert : Certificate) (secret : Secret) (w : W) (bytes : Text)
      → (services.secrets.get (key_of cert.meta) w).0 ≡ found secret
      → services.marshal (new_cert_params cert) ≡ some bytes
      → reconcile services cert w
        ≡ (value (done, none), (services.secrets.get (key_of cert.meta) w).1)
  unfolding reconcile reconcile_fetched reconcile_changed update_secret
  reconcile-ignores_changes cert secret w bytes exists marshalled =
      let (b, asked) =
        is_changed_lem (inputs_of services (new_cert_params cert)) secret.meta.annotations bytes
          marshalled in
      elim (Bool-cases b) [
        | inl changed ↦ rw (exists, asked, changed) refl
        | inr same ↦ rw (exists, asked, same) refl
      ]

-- The loader reads back what the reconciler stored: from the secret that is created for a certificate
-- without a template of its own, LoadCerts gets the certificate and the key of the generated texts, where
-- those can be parsed.
pub load_certs-cert_secret :
    {C K : Type 0} (parsers : Parsers C K) (set_reference : SetControllerReference)
    (cert : Certificate) (r : CertResponse) (anns : Map Text Text) (name block block' : Text)
    (crt : C) (key : K)
    → cert.spec.secret_template ≡ none
    → parsers.pem_decode r.certificate ≡ some block
    → parsers.x509_certificate block ≡ found crt
    → parsers.pem_decode r.private_key ≡ some block'
    → parsers.pkcs1_private_key block' ≡ found key
    → load_certs parsers (some (with_annotations anns (cert_secret set_reference cert r))) name
      ≡ value (found (crt, key))
unfolding load_certs with_certificate with_key parse_certificate certificate_block parse_private_key
    private_key_block Maps.get text_eq
load_certs-cert_secret parsers set_reference cert r anns name block block' crt key own decoded
      parsed decoded' parsed' =
    rw (cert_secret-contents set_reference cert r own, decoded, parsed, decoded', parsed') refl

-- A computation that returns.
abbrev pub Returns : {A : Type 0} → Outcome A → Type 0
Returns (value a) = Unit
Returns (panicked message) = ⊥

-- The generator loads certificates only where its parameters name a CA, and panics only where that does.
pub record IsGenerator {W C K : Type 0} (services : CertificateServices W C K) : Type 0 where
  pub returns :
      (load : LoadCerts C K) (params : CertParams) (w : W)
      → (is_empty params.ca_name ≡ false → (name : Text) → Returns (load name))
      → Returns (services.generate_certificate load params w).0

ca_name-none : (cert : Certificate) → cert.spec.ca_ref ≡ none → (new_cert_params cert).ca_name ≡ []
unfolding new_cert_params ca_name_for
ca_name-none cert h = rw h refl

module _ {W C K : Type 0} (services : CertificateServices W C K)
    (generator : IsGenerator services) where
  generate_with-Returns :
      (params : CertParams) (ca : Fetched (Option Secret)) (w : W)
      → (ca ≡ found none → params.ca_name ≡ [])
      → Returns (generate_with services params ca w).0
  unfolding generate_with
  generate_with-Returns params (failed err) w h = tt
  generate_with-Returns params (found none) w h =
      generator.returns (load_certs services.parsers none) params w
        (λ named. absurd (cc (named, ap is_empty (h refl))))
  generate_with-Returns params (found (some secret)) w h =
      generator.returns (load_certs services.parsers (some secret)) params w
        (λ named name. unfold load_certs in tt)

  ca_named-Returns :
      (params : CertParams) (cert : Certificate) (reference : Option Text) (w : W)
      → (reference ≡ none → params.ca_name ≡ [])
      → Returns ((ca_secret_named services cert reference >>= generate_with services params) w).0
  unfolding ca_secret_named present
  ca_named-Returns params cert none w h = generate_with-Returns params (found none) w (λ _. h refl)
  ca_named-Returns params cert (some name) w h =
      by_secret (services.secrets.get (record { namespace = cert.meta.namespace; name = name }) w).0
        _
    where
      by_secret :
          (secret : Fetched Secret) (w : W)
          → Returns (generate_with services params (present services secret) w).0
      by_secret (failed err) w = generate_with-Returns params (failed err) w (λ e. absurd (cc e))
      by_secret (found secret) w =
          generate_with-Returns params (found (some secret)) w (λ e. absurd (cc e))

  -- Generating a certificate never panics: the loader is without a CA secret only where the certificate has
  -- no CA reference, and then its parameters name no CA.
  pub generate-Returns :
      (cert : Certificate) (w : W) → Returns (generate services (new_cert_params cert) cert w).0
  unfolding generate get_ca_ref_secret
  generate-Returns cert w =
      ca_named-Returns (new_cert_params cert) cert cert.spec.ca_ref w (ca_name-none cert)
