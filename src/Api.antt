-- ===== src/Api.antt =====
-- The Kubernetes objects that the controllers read and write: pkg/apis and the parts of
-- corev1.Secret, corev1.Namespace and metav1.ObjectMeta that the code uses. A map that may be nil
-- is an `Option`.
pub mod Errors
pub mod Conditions
pub mod Exports
pub mod Imports
pub mod Templates
use secretgen_controller.Common.{
  ℕ, Text, text_eq, text_eq_iff, Eq, ◌&&◌, ◌≡◌, ◌↔◌, true, Bool, Option, none, some, List, [],
  arith, codes, ◌++◌, ◌∷◌,
}
use secretgen_controller.Common.Maps.{Map}

-- types.NamespacedName.
pub record NamespacedName : Type 0 where
  pub namespace : Text
  pub name : Text

unfoldable pub name_eq : NamespacedName → NamespacedName → Bool
name_eq a b = text_eq a.namespace b.namespace && text_eq a.name b.name

pub name_eq_iff : (a b : NamespacedName) → (name_eq a b ≡ true) ↔ (a ≡ b)
unfolding name_eq
name_eq_iff a b = ground (arith, text_eq_iff a.namespace b.namespace, text_eq_iff a.name b.name)

instance abbrev pub name_eq_instance : Eq NamespacedName
name_eq_instance = record { beq = name_eq; beq_iff = name_eq_iff }

-- metav1.OwnerReference.
pub record OwnerReference : Type 0 where
  pub name : Text
  pub uid : Text
  pub controller : Bool

-- metav1.ObjectMeta.
pub record ObjectMeta : Type 0 where
  pub name : Text
  pub namespace : Text
  pub uid : Text
  pub resource_version : Text
  pub generation : ℕ
  pub deletion_timestamp : Option ℕ
  pub labels : Option (Map Text Text)
  pub annotations : Option (Map Text Text)
  pub owner_references : List OwnerReference

abbrev pub key_of : ObjectMeta → NamespacedName
key_of m = record { namespace = m.namespace; name = m.name }

-- An ObjectMeta with only its name and namespace set.
abbrev pub named : NamespacedName → ObjectMeta
named k = record {
  name = k.name;
  namespace = k.namespace;
  uid = [];
  resource_version = [];
  generation = 0;
  deletion_timestamp = none;
  labels = none;
  annotations = none;
  owner_references = [];
}

-- The entries of a map that may be nil: reading a nil map finds nothing.
abbrev pub entries : {V : Type 0} → Option (Map Text V) → Map Text V
entries none = []
entries (some m) = m

-- corev1.Secret.
pub record Secret : Type 0 where
  pub meta : ObjectMeta
  pub type : Text
  pub contents : Option (Map Text Text)
  pub string_data : Option (Map Text Text)

-- corev1.Namespace.
pub record Namespace : Type 0 where
  pub meta : ObjectMeta

-- "namespace/name".
abbrev pub slash : Text → Text → Text
slash ns name = ns ++ (codes "/" ++ name)
