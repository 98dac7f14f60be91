-- ===== src/Api/Templates.antt =====
-- SecretTemplate of pkg/apis/secretgen2/v1alpha1/secret_template.go.
use secretgen_controller.Common.{Text, Option, List}
use secretgen_controller.Common.Maps.{Map}
use secretgen_controller.Api.{ObjectMeta}
use secretgen_controller.Api.Conditions.{GenericStatus}

pub record InputResourceRef : Type 0 where
  pub api_version : Text
  pub kind : Text
  pub name : Text

pub record InputResource : Type 0 where
  pub name : Text
  pub ref : InputResourceRef

pub record SecretTemplateMetadata : Type 0 where
  pub annotations : Map Text Text
  pub labels : Map Text Text

-- A nil map has no entries to evaluate.
pub record JsonPathTemplate : Type 0 where
  pub string_data : Map Text Text
  pub data_paths : Map Text Text
  pub type : Text
  pub metadata : SecretTemplateMetadata

pub record SecretTemplateSpec : Type 0 where
  pub input_resources : List InputResource
  pub json_path_template : Option JsonPathTemplate
  pub service_account_name : Text

pub record SecretTemplateStatus : Type 0 where
  pub secret_name : Text
  pub generic_status : GenericStatus
  pub observed_secret_resource_version : Text

pub record SecretTemplate : Type 0 where
  pub meta : ObjectMeta
  pub spec : SecretTemplateSpec
  pub status : SecretTemplateStatus
