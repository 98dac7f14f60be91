-- ===== src/Reconciler/Secrets.antt =====
-- Secret of pkg/reconciler/secret.go: a secret under construction, for an owner.
pub mod Templates
pub mod Copies
pub mod Pairs
pub mod Identity
use secretgen_controller.Common.{
  Text, codes, text_eq_instance, Bool, Option, none, some, List, [], ◌∷◌, map, is_empty,
  if◌then◌else◌,
}
use secretgen_controller.Common.Maps
use secretgen_controller.Common.Maps.{Map}
use secretgen_controller.Api.{ObjectMeta, OwnerReference, Secret, key_of, named, entries}
use secretgen_controller.Expansion.{expand, mapping_func_for}

-- SecretTemplate of pkg/apis/secretgen/v1alpha1/secret_template.go.
pub record SecretTemplateMetadata : Type 0 where
  pub annotations : Option (Map Text Text)
  pub labels : Option (Map Text Text)

pub record SecretTemplate : Type 0 where
  pub metadata : SecretTemplateMetadata
  pub type : Text
  pub string_data : Option (Map Text Text)

-- reconciler.Secret.
pub record OwnedSecret : Type 0 where
  pub secret : Secret
  pub values : Map Text Text

-- controllerutil.SetControllerReference(owner, secret, scheme): the owner references that it leaves.
-- Its error is ignored here; it then leaves them as they are.
abbrev pub SetControllerReference : Type 0
SetControllerReference = ObjectMeta → List OwnerReference → List OwnerReference

unfoldable pub new_secret : SetControllerReference → ObjectMeta → Map Text Text → OwnedSecret
new_secret set_reference owner values = record {
  secret = record {
    meta = record (named (key_of owner)) {
      labels = owner.labels;
      annotations = owner.annotations;
      owner_references = set_reference owner [];
    };
    type = [];
    contents = none;
    string_data = none;
  };
  values = values;
}

-- `for k, v := range from { to[k] = v }`.
unfoldable pub put_all : Map Text Text → Map Text Text → Map Text Text
put_all [] to = to
put_all ((k, v) ∷ from) to = put_all from (Maps.put k v to)

-- The entries of a template are added to a map that may be nil, if there are any.
merge_entries : Map Text Text → Option (Map Text Text) → Option (Map Text Text)
unfolding put_all
merge_entries from to = if is_empty from then to else some (put_all from (entries to))

-- The values of StringData, expanded: `none` where `expand` returns none.
expand_all : Map Text Text → (Text → Text) → Option (Map Text Text)
expand_all [] mapping = some []
expand_all ((k, v) ∷ rest) mapping =
    let others = expand_all rest mapping in
    elim (expand v mapping) [
      | none ↦ none
      | some t ↦ elim others [ none ↦ none | some m ↦ some ((k, t) ∷ m) ]
    ]

apply_data : Option (Map Text Text) → OwnedSecret → OwnedSecret
apply_data none p = p
apply_data (some new_data) p = record p { secret = record (p.secret) { contents = some new_data } }

apply_type : Text → OwnedSecret → OwnedSecret
apply_type type p =
    if is_empty type then p else record p { secret = record (p.secret) { type = type } }

apply_metadata : SecretTemplateMetadata → OwnedSecret → OwnedSecret
unfolding merge_entries
apply_metadata metadata p = record p {
  secret = record (p.secret) {
    meta = record (p.secret.meta) {
      annotations = merge_entries (entries metadata.annotations) p.secret.meta.annotations;
      labels = merge_entries (entries metadata.labels) p.secret.meta.labels;
    };
  };
}

apply_string_data : Map Text Text → OwnedSecret → OwnedSecret
unfolding expand_all apply_data
apply_string_data string_data p =
    if is_empty string_data
    then p
    else apply_data (expand_all string_data (mapping_func_for (p.values ∷ []))) p

-- ApplyTemplate never returns an error.
unfoldable pub apply_template : SecretTemplate → OwnedSecret → OwnedSecret
unfolding apply_metadata apply_type apply_string_data
apply_template template p =
    apply_string_data (entries template.string_data)
      (apply_type template.type (apply_metadata template.metadata p))

unfoldable pub apply_templates : SecretTemplate → Option SecretTemplate → OwnedSecret → OwnedSecret
unfolding apply_template
apply_templates default_tpl none p = apply_template default_tpl p
apply_templates default_tpl (some custom_tpl) p =
    apply_template custom_tpl (apply_template default_tpl p)

unfoldable pub apply_secret : Secret → OwnedSecret → OwnedSecret
unfolding apply_type
apply_secret other p =
    let typed = apply_type other.type p in
    if is_empty (entries other.contents)
    then typed
    else record typed { secret = record (typed.secret) { contents = other.contents } }

unfoldable pub associate_existing_secret : Secret → OwnedSecret → OwnedSecret
associate_existing_secret other p = record p {
  secret = record (p.secret) {
    meta = record (p.secret.meta) {
      uid = other.meta.uid;
      resource_version = other.meta.resource_version;
    };
  };
}
