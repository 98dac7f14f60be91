-- ===== src/Api/Exports.antt =====
-- SecretExport of pkg/apis/secretgen2/v1alpha1/secret_export.go.
pub mod Valid
use secretgen_controller.Common.{
  Text, codes, Option, List, [], ◌∷◌, ◌++◌, is_empty, if◌then◌else◌, ◌&&◌,
}
use secretgen_controller.Api.{ObjectMeta}
use secretgen_controller.Api.Errors.{Error, combined_errs}
use secretgen_controller.Api.Conditions.{GenericStatus}

pub data SelectorOperator : Type 0 where
  operator_in operator_not_in operator_exists operator_does_not_exist : SelectorOperator
  operator_unknown : Text → SelectorOperator

pub record SelectorMatchField : Type 0 where
  pub key : Text
  pub operator : SelectorOperator
  pub values : List Text

pub record SecretExportSpec : Type 0 where
  pub to_namespace : Text
  pub to_namespaces : List Text
  pub to_namespaces_selector : List SelectorMatchField

pub record SecretExportStatus : Type 0 where
  pub generic_status : GenericStatus
  pub observed_secret_resource_version : Text

pub record SecretExport : Type 0 where
  pub meta : ObjectMeta
  pub spec : SecretExportSpec
  pub status : SecretExportStatus

abbrev pub all_namespaces : Text
all_namespaces = codes "*"

unfoldable pub static_to_namespaces : SecretExport → List Text
static_to_namespaces e =
    if is_empty e.spec.to_namespace
    then e.spec.to_namespaces
    else e.spec.to_namespaces ++ (e.spec.to_namespace ∷ [])

abbrev no_target : Text
no_target = codes "Expected to have at least one non-empty to namespace or to namespace annotation"

abbrev empty_target : Text
empty_target = codes "Expected to namespace to be non-empty"

abbrev missing_values : Text
missing_values = codes "Values must be specified when `operator` is 'In' or 'NotIn'"

abbrev surplus_values : Text
surplus_values = codes "Values may not be specified when `operator` is 'Exists' or 'DoesNotExist'"

target_errs : List Text → List Text
target_errs [] = []
target_errs (ns ∷ nses) =
    let rest = target_errs nses in if is_empty ns then empty_target ∷ rest else rest

selector_errs_of : SelectorOperator → List Text → List Text
selector_errs_of operator_in values = if is_empty values then missing_values ∷ [] else []
selector_errs_of operator_not_in values = if is_empty values then missing_values ∷ [] else []
selector_errs_of operator_exists values = if is_empty values then [] else surplus_values ∷ []
selector_errs_of operator_does_not_exist values =
    if is_empty values then [] else surplus_values ∷ []
selector_errs_of (operator_unknown t) values = []

selector_errs : List SelectorMatchField → List Text
unfolding selector_errs_of
selector_errs [] = []
selector_errs (s ∷ ss) = selector_errs_of s.operator s.values ++ selector_errs ss

unfoldable pub validate : SecretExport → Option Error
unfolding target_errs selector_errs
validate e =
    let to_nses = static_to_namespaces e in
    let to_smf = e.spec.to_namespaces_selector in
    combined_errs (codes "Validation errors") (
      (if is_empty to_nses && is_empty to_smf then no_target ∷ [] else [])
      ++ (target_errs to_nses ++ selector_errs to_smf))
