-- ===== src/Reconciler/Secrets/Identity.antt =====
-- Which secret the templates give: its key, its owner and its type.
use secretgen_controller.Common.{Text, is_empty, false, Option, none, some, [], ◌∷◌, ◌≡◌, refl}
use secretgen_controller.Common.Maps.{Map}
use secretgen_controller.Api.{ObjectMeta, Secret, key_of, entries}
use secretgen_controller.Reconciler.Secrets.{
  SetControllerReference, SecretTemplate, OwnedSecret, new_secret, apply_data, apply_type,
  apply_metadata, apply_string_data, apply_template, apply_templates,
}

-- The secret has the owner's name and namespace, the controller reference to the owner, and the type.
pub record IsOwnedBy (set_reference : SetControllerReference) (owner : ObjectMeta) (type : Text)
    (secret : Secret) : Type 0 where
  pub at_key : key_of secret.meta ≡ key_of owner
  pub owned : secret.meta.owner_references ≡ set_reference owner []
  pub typed : secret.type ≡ type

module _ (set_reference : SetControllerReference) (owner : ObjectMeta) (type : Text) where
  apply_data-IsOwnedBy :
      (data_of : Option (Map Text Text)) (p : OwnedSecret)
      → IsOwnedBy set_reference owner type p.secret
      → IsOwnedBy set_reference owner type (apply_data data_of p).secret
  unfolding apply_data
  apply_data-IsOwnedBy none p h = h
  apply_data-IsOwnedBy (some new_data) p h = record {
    at_key = h.at_key;
    owned = h.owned;
    typed = h.typed;
  }

  apply_string_data-IsOwnedBy :
      (string_data : Map Text Text) (p : OwnedSecret)
      → IsOwnedBy set_reference owner type p.secret
      → IsOwnedBy set_reference owner type (apply_string_data string_data p).secret
  unfolding apply_string_data
  apply_string_data-IsOwnedBy [] p h = h
  apply_string_data-IsOwnedBy (entry ∷ rest) p h = apply_data-IsOwnedBy _ p h

  apply_type-IsOwnedBy :
      (p : OwnedSecret)
      → is_empty type ≡ false
      → key_of p.secret.meta ≡ key_of owner
      → p.secret.meta.owner_references ≡ set_reference owner []
      → IsOwnedBy set_reference owner type (apply_type type p).secret
  unfolding apply_type
  apply_type-IsOwnedBy p named at_key owned =
      rw named (record { at_key = at_key; owned = owned; typed = refl })

-- The secret behind a default template alone, which names a type.
pub apply_templates-IsOwnedBy :
    (set_reference : SetControllerReference) (owner : ObjectMeta) (template : SecretTemplate)
    (values : Map Text Text)
    → is_empty template.type ≡ false
    → IsOwnedBy set_reference owner template.type
        (apply_templates template none (new_secret set_reference owner values)).secret
unfolding apply_templates apply_template apply_metadata new_secret
apply_templates-IsOwnedBy set_reference owner template values named =
    apply_string_data-IsOwnedBy set_reference owner template.type (entries template.string_data) _
      (apply_type-IsOwnedBy set_reference owner template.type _ named refl refl)
