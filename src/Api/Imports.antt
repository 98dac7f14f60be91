-- ===== src/Api/Imports.antt =====
-- SecretImport of pkg/apis/secretgen2/v1alpha1/secret_import.go.
use secretgen_controller.Common.{Text, codes, Option, [], ◌∷◌, is_empty, if◌then◌else◌}
use secretgen_controller.Api.{ObjectMeta}
use secretgen_controller.Api.Errors.{Error, combined_errs}
use secretgen_controller.Api.Conditions.{GenericStatus}

pub record SecretImportSpec : Type 0 where
  pub from_namespace : Text

pub record SecretImportStatus : Type 0 where
  pub generic_status : GenericStatus

pub record SecretImport : Type 0 where
  pub meta : ObjectMeta
  pub spec : SecretImportSpec
  pub status : SecretImportStatus

unfoldable pub validate : SecretImport → Option Error
validate r = combined_errs (codes "Validation errors") (
    if is_empty r.spec.from_namespace
    then codes "Validating 'spec.fromNamespace': Expected to be non-empty" ∷ []
    else [])
