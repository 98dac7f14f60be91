-- ===== src/Examples/Certificates.antt =====
-- The theorems of Generator/Certificate at a certificate that names a CA.
use secretgen_controller.Common.{
  ℕ, suc, Text, text_eq_instance, codes, is_empty, Bool, true, false, none, some, [], ◌∷◌, ◌≡◌,
  refl,
}
use secretgen_controller.Common.Go.{Outcome, value, panicked}
use secretgen_controller.Kube.{Client, Fetched, found, failed}
use secretgen_controller.Api.{Secret, named, entries}
use secretgen_controller.Api.Errors.{api, not_found}
use secretgen_controller.Reconciler.Status.{done, created_reply}
use secretgen_controller.Reconciler.Secrets.Identity.{IsOwnedBy}
use secretgen_controller.Common.Maps
use secretgen_controller.Generator.Inputs.{generate_inputs_ann_key, is_changed}
use secretgen_controller.Generator.Certificate.{
  pos, Certificate, CertResponse, new_cert_params, ca_name_for, cert_secret,
}
use secretgen_controller.Generator.Certificate.Loader.{Parsers, load_certs}
use secretgen_controller.Generator.Certificate.Reconciler.{
  CertificateServices, inputs_of, with_annotations, get_ca_ref_secret, ca_secret_named,
  generate_with, generate, reconcile,
}
use secretgen_controller.Generator.Certificate.Created.{
  Returns, IsGenerator, reconcile-certificate, reconcile-ignores_changes, load_certs-cert_secret,
  generate-Returns,
}
use secretgen_controller.Examples.Data.{app, no_status, missing, client, secret_at}

-- A PEM text stands for its block, and a block for its certificate or key.
abbrev parsers : Parsers Text Text
parsers = record {
  pem_decode = λ text. some text;
  x509_certificate = λ block. found block;
  pkcs1_private_key = λ block. found block;
}

abbrev response : CertResponse
response = record { certificate = codes "certificate text"; private_key = codes "key text" }

abbrev signed : Outcome (Fetched (Text × Text)) → Outcome (Fetched CertResponse)
signed (panicked message) = panicked message
signed (value (failed err)) = value (failed err)
signed (value (found pair)) = value (found response)

abbrev self_or_signed : Bool → Outcome (Fetched (Text × Text)) → Outcome (Fetched CertResponse)
self_or_signed true loaded = value (found response)
self_or_signed false loaded = signed loaded

-- The secrets are as given, and the generator signs with what the loader returns.
abbrev services_with : Client ℕ Secret → CertificateServices ℕ Text Text
services_with secrets = record {
  certificates = client (λ k. missing) [];
  secrets = secrets;
  set_reference = λ owner references. references;
  parsers = parsers;
  generate_certificate =
      λ load params w. (self_or_signed (is_empty params.ca_name) (load params.ca_name), suc w);
  marshal = λ params. some params.common_name;
}

signed-Returns : (o : Outcome (Fetched (Text × Text))) → Returns o → Returns (signed o)
signed-Returns (value (failed err)) h = tt
signed-Returns (value (found pair)) h = tt
signed-Returns (panicked message) h = h

self_or_signed-Returns :
    (own : Bool) (o : Outcome (Fetched (Text × Text)))
    → (own ≡ false → Returns o)
    → Returns (self_or_signed own o)
self_or_signed-Returns true o h = tt
self_or_signed-Returns false o h = signed-Returns o (h refl)

generator : (secrets : Client ℕ Secret) → IsGenerator (services_with secrets)
generator secrets = record {
  returns = λ load params w h.
      self_or_signed-Returns (is_empty params.ca_name) (load params.ca_name)
        (λ named. h named params.ca_name);
}

abbrev without_ca : Certificate
without_ca = record {
  meta = named app;
  spec = record {
    ca_ref = none;
    is_ca = true;
    common_name = codes "ca";
    organization = [];
    alternative_names = [];
    extended_key_usage = [];
    duration = pos 365;
    secret_template = none;
  };
  generic_status = no_status;
}

abbrev with_ca : Certificate
with_ca = record without_ca { spec = record (without_ca.spec) { ca_ref = some (codes "ca") } }

abbrev no_secrets : Client ℕ Secret
no_secrets = client (λ k. missing) []

abbrev all_secrets : Client ℕ Secret
all_secrets = client (λ k. found (secret_at k)) []

generated :
    generate (services_with no_secrets) (new_cert_params without_ca) without_ca 0
    ≡ (value (found response), 1)
unfolding generate get_ca_ref_secret ca_secret_named generate_with new_cert_params ca_name_for
generated = refl

marshalled : (services_with no_secrets).marshal (new_cert_params without_ca) ≡ some (codes "ca")
unfolding new_cert_params
marshalled = refl

marshalled_again : (services_with all_secrets).marshal (new_cert_params with_ca) ≡ some (codes "ca")
unfolding new_cert_params
marshalled_again = refl

reconcile-certificate_example :
    (secret : Secret) × (secret.contents
      ≡ some
          ((codes "crt.pem", codes "certificate text") ∷ (codes "key.pem", codes "key text") ∷ []))
    × IsOwnedBy (λ owner references. references) (named app) (codes "Opaque") secret
    × (Maps.get generate_inputs_ann_key (entries secret.meta.annotations) ≡ some (codes "ca"))
    × (is_changed
          (inputs_of (services_with no_secrets) (new_cert_params without_ca))
          secret.meta.annotations
        ≡ value false)
    × (reconcile (services_with no_secrets) without_ca 0
        ≡ (let (failure, w) = no_secrets.create secret 1 in (value (created_reply failure), w)))
reconcile-certificate_example =
    reconcile-certificate (services_with no_secrets) without_ca (api not_found (codes "not found"))
      response 0 1 (codes "ca") refl refl refl generated marshalled

reconcile-ignores_changes_example :
    reconcile (services_with all_secrets) with_ca 0 ≡ (value (done, none), 0)
reconcile-ignores_changes_example =
    reconcile-ignores_changes (services_with all_secrets) with_ca (secret_at app) 0 (codes "ca")
      refl marshalled_again

load_certs-cert_secret_example :
    load_certs parsers
      (some
        (with_annotations [] (cert_secret (λ owner references. references) without_ca response)))
      (codes "ca")
    ≡ value (found (codes "certificate text", codes "key text"))
load_certs-cert_secret_example =
    load_certs-cert_secret parsers (λ owner references. references) without_ca response []
      (codes "ca") (codes "certificate text") (codes "key text") (codes "certificate text")
      (codes "key text") refl refl refl refl refl

generate-Returns_example :
    Returns (generate (services_with all_secrets) (new_cert_params with_ca) with_ca 0).0
generate-Returns_example =
    generate-Returns (services_with all_secrets) (generator all_secrets) with_ca 0
