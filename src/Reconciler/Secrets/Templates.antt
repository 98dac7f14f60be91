-- ===== src/Reconciler/Secrets/Templates.antt =====
-- ApplyTemplate of templates whose entries are variables.
use secretgen_controller.Common.{
  Text, text_eq_instance, some, List, [], ◌∷◌, ◌≡◌, refl, sym, ap, ◌∙◌, subst, map, All,
}
use secretgen_controller.Common.Maps
use secretgen_controller.Common.Maps.{Map}
use secretgen_controller.Expansion.{expand, variable, mapping_func_for}
use secretgen_controller.Expansion.Grammar.{Open}
use secretgen_controller.Expansion.Variables.{expand-variable}
use secretgen_controller.Reconciler.Secrets.{
  SecretTemplateMetadata, SecretTemplate, OwnedSecret, expand_all, apply_data, apply_type,
  apply_metadata, apply_string_data, apply_template,
}

apply_metadata-values :
    (m : SecretTemplateMetadata) (p : OwnedSecret) → (apply_metadata m p).values ≡ p.values
unfolding apply_metadata
apply_metadata-values m p = refl

apply_type-values : (t : Text) (p : OwnedSecret) → (apply_type t p).values ≡ p.values
unfolding apply_type
apply_type-values [] p = refl
apply_type-values (c ∷ t) p = refl

mapping-value :
    (k v : Text) (p : OwnedSecret)
    → Maps.get k p.values ≡ some v
    → mapping_func_for (p.values ∷ []) k ≡ v
unfolding mapping_func_for
mapping-value k v p h = rw (mapping_func_for, h) refl

-- The entry of StringData for a variable, and the entry of the data that it becomes.
abbrev pub variable_entry : Text × Text → Text × Text
variable_entry (key, k) = (key, variable k)

abbrev pub value_entry : (Text → Text) → Text × Text → Text × Text
value_entry value_of (key, k) = (key, value_of k)

-- The name of a variable holds no closer, and has a value.
abbrev pub IsValued : Map Text Text → (Text → Text) → Text × Text → Type 0
IsValued values value_of (key, k) = Open k × (Maps.get k values ≡ some (value_of k))

expand_all-variables :
    (vars : List (Text × Text)) (value_of : Text → Text) (p : OwnedSecret)
    → All (IsValued p.values value_of) vars
    → expand_all (map variable_entry vars) (mapping_func_for (p.values ∷ []))
      ≡ some (map (value_entry value_of) vars)
unfolding expand_all
expand_all-variables [] value_of p h = refl
expand_all-variables ((key, k) ∷ vars) value_of p h =
    let here : expand (variable k) (mapping_func_for (p.values ∷ [])) ≡ some (value_of k) =
      expand-variable k (mapping_func_for (p.values ∷ [])) h.0.0
      ∙ ap some (mapping-value k (value_of k) p h.0.1) in
    rw (expand_all, here, expand_all-variables vars value_of p h.1) refl

apply_string_data-variables :
    (first : Text × Text) (vars : List (Text × Text)) (value_of : Text → Text) (p : OwnedSecret)
    → All (IsValued p.values value_of) (first ∷ vars)
    → (apply_string_data (map variable_entry (first ∷ vars)) p).secret.contents
      ≡ some (map (value_entry value_of) (first ∷ vars))
unfolding apply_string_data apply_data
apply_string_data-variables first vars value_of p h =
    rw (expand_all-variables (first ∷ vars) value_of p h) refl

-- A template whose entries are variables gives a secret whose data are the variables' values, under the
-- keys of the entries. There is an entry, and no variable's name holds a closing parenthesis.
pub apply_template-variables :
    (template : SecretTemplate) (first : Text × Text) (vars : List (Text × Text))
    (value_of : Text → Text) (p : OwnedSecret)
    → template.string_data ≡ some (map variable_entry (first ∷ vars))
    → All (IsValued p.values value_of) (first ∷ vars)
    → (apply_template template p).secret.contents ≡ some (map (value_entry value_of) (first ∷ vars))
unfolding apply_template
apply_template-variables template first vars value_of p only h =
    let typed = apply_type template.type (apply_metadata template.metadata p) in
    let kept =
      apply_type-values template.type (apply_metadata template.metadata p)
      ∙ apply_metadata-values template.metadata p in
    rw only (
      apply_string_data-variables first vars value_of typed
        (subst (λ m. All (IsValued m value_of) (first ∷ vars)) (sym kept) h))
