-- ===== src/Generator/Certificate.antt =====
-- CertificateReconciler of pkg/generator/certificate_reconciler.go: what it generates certificates from,
-- and the secrets that it creates. The certificate generator of the config-server library and the
-- marshalling of its parameters are parameters.
pub mod Loader
pub mod Reconciler
pub mod Created
use secretgen_controller.Common.{
  ℕ, Text, codes, Bool, Option, none, some, List, [], ◌∷◌, is_empty, if◌then◌else◌,
}
use secretgen_controller.Common.Maps.{Map}
use secretgen_controller.Api.{ObjectMeta, Secret}
use secretgen_controller.Api.Conditions.{GenericStatus}
use secretgen_controller.Expansion.{variable}
use secretgen_controller.Reconciler.Secrets.{
  SetControllerReference, SecretTemplate, OwnedSecret, new_secret, apply_templates,
}

-- int64, which is only handed on.
pub data ℤ : Type 0 where
  pos : ℕ → ℤ
  negsuc : ℕ → ℤ

pub record CertificateSpec : Type 0 where
  pub ca_ref : Option Text
  pub is_ca : Bool
  pub common_name : Text
  pub organization : Text
  pub alternative_names : List Text
  pub extended_key_usage : List Text
  pub duration : ℤ
  pub secret_template : Option SecretTemplate

pub record Certificate : Type 0 where
  pub meta : ObjectMeta
  pub spec : CertificateSpec
  pub generic_status : GenericStatus

-- certParams.
pub record CertParams : Type 0 where
  pub common_name : Text
  pub organization : Text
  pub alternative_names : List Text
  pub is_ca : Bool
  pub ca_name : Text
  pub ext_key_usage : List Text
  pub duration : ℤ

-- The texts of cfgtypes.CertResponse that are used.
pub record CertResponse : Type 0 where
  pub certificate : Text
  pub private_key : Text

abbrev pub secret_certificate_key : Text
secret_certificate_key = codes "certificate"

abbrev pub secret_private_key : Text
secret_private_key = codes "privateKey"

abbrev pub default_certificate_key : Text
default_certificate_key = codes "crt.pem"

abbrev pub default_private_key : Text
default_private_key = codes "key.pem"

abbrev pub default_template : SecretTemplate
default_template = record {
  metadata = record { annotations = none; labels = none };
  type = codes "Opaque";
  string_data = some (
      (default_certificate_key, variable secret_certificate_key)
      ∷ (default_private_key, variable secret_private_key)
      ∷ []);
}

unfoldable pub ca_name_for : Option Text → Text
ca_name_for none = []
ca_name_for (some name) = codes "unused-but-not-empty"

unfoldable pub new_cert_params : Certificate → CertParams
unfolding ca_name_for
new_cert_params cert = record {
  common_name = cert.spec.common_name;
  organization =
      if is_empty cert.spec.organization then codes "secretgen" else cert.spec.organization;
  alternative_names = cert.spec.alternative_names;
  is_ca = cert.spec.is_ca;
  ca_name = ca_name_for cert.spec.ca_ref;
  ext_key_usage = cert.spec.extended_key_usage;
  duration = cert.spec.duration;
}

abbrev pub cert_values : CertResponse → Map Text Text
cert_values r = (secret_certificate_key, r.certificate) ∷ (secret_private_key, r.private_key) ∷ []

-- The secret of a response, before its annotation.
unfoldable pub cert_secret : SetControllerReference → Certificate → CertResponse → Secret
unfolding new_secret apply_templates
cert_secret set_reference cert r =
    (apply_templates default_template cert.spec.secret_template
      (new_secret set_reference cert.meta (cert_values r))).secret
