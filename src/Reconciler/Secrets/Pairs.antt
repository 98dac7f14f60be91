-- ===== src/Reconciler/Secrets/Pairs.antt =====
-- ApplyTemplate of a template with two variables, for a secret with the values of both.
use secretgen_controller.Common.{
  Text, text_eq, text_eq_iff, text_eq_instance, true, false, some, [], ◌∷◌, ◌≡◌, refl, ◌∙◌,
  if◌then◌else◌,
}
use secretgen_controller.Common.Maps
use secretgen_controller.Expansion.{variable}
use secretgen_controller.Expansion.Grammar.{Open}
use secretgen_controller.Reconciler.Secrets.{SecretTemplate, OwnedSecret, apply_template}
use secretgen_controller.Reconciler.Secrets.Templates.{apply_template-variables}

-- The data of the secret are the two values under the two keys of the template.
pub apply_template-pair :
    (template : SecretTemplate) (at at' first second v v' : Text) (p : OwnedSecret)
    → template.string_data ≡ some ((at, variable first) ∷ (at', variable second) ∷ [])
    → p.values ≡ (first, v) ∷ (second, v') ∷ []
    → text_eq first second ≡ false
    → Open first
    → Open second
    → (apply_template template p).secret.contents ≡ some ((at, v) ∷ (at', v') ∷ [])
unfolding Maps.get
apply_template-pair template at at' first second v v' p entries_of values_of differ opened opened' =
    let itself : text_eq first first ≡ true = (text_eq_iff first first).1 refl in
    let itself' : text_eq second second ≡ true = (text_eq_iff second second).1 refl in
    apply_template-variables template (at, first) ((at', second) ∷ [])
      (λ name. if text_eq first name then v else v') p entries_of
      ((opened, rw (values_of, itself) refl), ((opened', rw (values_of, differ, itself') refl), tt))
    ∙ rw (itself, differ) refl
