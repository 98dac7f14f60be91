-- ===== src/Reconciler/Secrets/Copies.antt =====
-- ApplySecret on a new secret.
use secretgen_controller.Common.{Text, Option, none, some, [], ◌∷◌, ◌≡◌, refl}
use secretgen_controller.Common.Maps.{Map}
use secretgen_controller.Api.{ObjectMeta, Secret, key_of, entries}
use secretgen_controller.Reconciler.Secrets.{
  SetControllerReference, new_secret, apply_type, apply_secret,
}

-- A copy of a secret's type and data, under the name of an owner.
pub record IsCopy (owner : ObjectMeta) (source copy : Secret) : Type 0 where
  pub key : key_of copy.meta ≡ key_of owner
  pub type : copy.type ≡ source.type
  pub contents : entries copy.contents ≡ entries source.contents

copied :
    (set_reference : SetControllerReference) (owner : ObjectMeta) (source : Secret) (type : Text)
    (contents : Option (Map Text Text))
    → IsCopy owner
        (record source { type = type; contents = contents })
        (apply_secret
          (record source { type = type; contents = contents })
          (new_secret set_reference owner [])).secret
unfolding apply_secret apply_type new_secret
copied set_reference owner source [] none = record { key = refl; type = refl; contents = refl }
copied set_reference owner source [] (some []) = record { key = refl; type = refl; contents = refl }
copied set_reference owner source [] (some (e ∷ m)) = record {
  key = refl;
  type = refl;
  contents = refl;
}
copied set_reference owner source (c ∷ t) none = record { key = refl; type = refl; contents = refl }
copied set_reference owner source (c ∷ t) (some []) = record {
  key = refl;
  type = refl;
  contents = refl;
}
copied set_reference owner source (c ∷ t) (some (e ∷ m)) = record {
  key = refl;
  type = refl;
  contents = refl;
}

pub apply_secret-IsCopy :
    (set_reference : SetControllerReference) (owner : ObjectMeta) (source : Secret)
    → IsCopy owner source (apply_secret source (new_secret set_reference owner [])).secret
apply_secret-IsCopy set_reference owner source =
    copied set_reference owner source source.type source.contents
