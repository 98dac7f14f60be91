-- ===== src/Api/Conditions.antt =====
-- Conditions and GenericStatus of pkg/apis/secretgen/v1alpha1.
use secretgen_controller.Common.{ℕ, Text, Bool, true, false, List}

pub data ConditionType : Type 0 where
  reconciling reconcile_failed reconcile_succeeded invalid : ConditionType

-- corev1.ConditionStatus is True wherever the code sets one.
pub record Condition : Type 0 where
  pub type : ConditionType
  pub status : Bool
  pub reason : Text
  pub message : Text

pub record GenericStatus : Type 0 where
  pub observed_generation : ℕ
  pub conditions : List Condition
  pub friendly_description : Text

abbrev pub is_succeeded : ConditionType → Bool
is_succeeded reconcile_succeeded = true
is_succeeded _ = false
