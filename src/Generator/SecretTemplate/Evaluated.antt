-- ===== src/Generator/SecretTemplate/Evaluated.antt =====
-- The values of an evaluated template.
use secretgen_controller.Common.{
  Text, text_eq, text_eq_iff, text_eq_instance, Option, none, some, [], ◌∷◌, ◌≡◌, refl, ◌∙◌, subst,
  Bool-cases, inl, inr,
}
use secretgen_controller.Common.Maps
use secretgen_controller.Common.Maps.{Map}
use secretgen_controller.Common.Go.{value}
use secretgen_controller.Kube.{Fetched, found, failed}
use secretgen_controller.Api.Templates.{JsonPathTemplate}
use secretgen_controller.Generator.SecretTemplate.Inputs.{Surroundings, evaluate_with}
use secretgen_controller.Generator.SecretTemplate.Evaluation.{
  EvaluatedSecret, evaluate_each, evaluate, evaluate_decoded, evaluate_bytes, evaluate_fields,
  evaluate_template,
}

-- The text of an expression that is evaluated, if there is an expression.
abbrev pub text_of : Fetched Text → Option Text
text_of (failed err) = none
text_of (found text) = some text

abbrev pub evaluated_at : (Text → Fetched Text) → Option Text → Option Text
evaluated_at f none = none
evaluated_at f (some expression) = text_of (f expression)

abbrev pub AllEvaluate : (Text → Fetched Text) → Map Text Text → Type 0
AllEvaluate f [] = Unit
AllEvaluate f ((k, expression) ∷ mapping) =
    ((v : Text) × (f expression ≡ found v)) × AllEvaluate f mapping

abbrev pub or_else : Option Text → Option Text → Option Text
or_else none other = other
or_else (some v) other = some v

module _ {W J : Type 0} (around : Surroundings W J) where
  evaluate_each_lem :
      (f : Text → Fetched Text) (mapping acc : Map Text Text)
      → Maps.IsMap mapping
      → AllEvaluate f mapping
      → (m : Map Text Text) × (evaluate_each around f mapping acc ≡ found m)
        × ((k : Text)
            → Maps.get k m ≡ or_else (evaluated_at f (Maps.get k mapping)) (Maps.get k acc))
  unfolding evaluate_each Maps.get
  evaluate_each_lem f [] acc h all = (acc, refl, λ k. refl)
  evaluate_each_lem f ((k0, e) ∷ mapping) acc h all =
      let (v, ok) = all.0 in
      let (m, ended, gets) = evaluate_each_lem f mapping (Maps.put k0 v acc) h.1 all.1 in
      (
        m,
        rw (ok, ended) refl,
        λ k. elim (Bool-cases (text_eq k0 k)) [
          | inl same ↦
              let absent =
                Maps.get-Absent k mapping
                  (subst (λ x. Maps.Absent x mapping) ((text_eq_iff k0 k).0 same) h.0) in
              gets k ∙ rw (absent, Maps.get-put k0 k v acc, same, ok) refl
          | inr other ↦ gets k ∙ rw (Maps.get-put k0 k v acc, other) refl
        ],
      )

  -- Every expression of the template has a value, decoded where it is for `data`.
  pub record IsEvaluable (template : JsonPathTemplate) (values : Map Text J) : Type 0 where
    pub data_map : Maps.IsMap template.data_paths
    pub data_values : AllEvaluate (evaluate_decoded around values) template.data_paths
    pub string_map : Maps.IsMap template.string_data
    pub string_values : AllEvaluate (λ e. evaluate_with around e values) template.string_data
    pub annotation_map : Maps.IsMap template.metadata.annotations
    pub annotation_values :
        AllEvaluate (λ e. evaluate_with around e values) template.metadata.annotations
    pub label_map : Maps.IsMap template.metadata.labels
    pub label_values : AllEvaluate (λ e. evaluate_with around e values) template.metadata.labels
    pub type_text : Text
    pub type_value : evaluate_with around template.type values ≡ found type_text

  -- Each field has a value where the template has an expression for it, and the value is the expression's.
  pub record IsEvaluation (template : JsonPathTemplate) (values : Map Text J)
      (secret : EvaluatedSecret) : Type 0 where
    pub contents_at :
        (k : Text)
        → Maps.get k secret.contents
          ≡ evaluated_at (evaluate_decoded around values) (Maps.get k template.data_paths)
    pub string_data_at :
        (k : Text)
        → Maps.get k secret.string_data
          ≡ evaluated_at (λ e. evaluate_with around e values) (Maps.get k template.string_data)
    pub annotations_at :
        (k : Text)
        → Maps.get k secret.annotations
          ≡ evaluated_at
              (λ e. evaluate_with around e values)
              (Maps.get k template.metadata.annotations)
    pub labels_at :
        (k : Text)
        → Maps.get k secret.labels
          ≡ evaluated_at (λ e. evaluate_with around e values) (Maps.get k template.metadata.labels)
    pub type_at : evaluate_with around template.type values ≡ found secret.type

  evaluated_alone :
      (f : Text → Fetched Text) (mapping : Map Text Text)
      → Maps.IsMap mapping
      → AllEvaluate f mapping
      → (m : Map Text Text) × (evaluate_each around f mapping [] ≡ found m)
        × ((k : Text) → Maps.get k m ≡ evaluated_at f (Maps.get k mapping))
  unfolding Maps.get
  evaluated_alone f mapping h all =
      let (m, ended, gets) = evaluate_each_lem f mapping [] h all in
      (m, ended, λ k. gets k ∙ or_else_none (evaluated_at f (Maps.get k mapping)))
    where
      or_else_none : (o : Option Text) → or_else o none ≡ o
      or_else_none none = refl
      or_else_none (some v) = refl

  -- evaluateTemplate returns a secret where every expression of the template has a value: each field of
  -- the secret then has the value of its expression, and no other entry.
  pub evaluate_template-IsEvaluation :
      (template : JsonPathTemplate) (values : Map Text J)
      → IsEvaluable template values
      → (secret : EvaluatedSecret) × (evaluate_template around (some template) values
          ≡ value (found secret))
        × IsEvaluation template values secret
  unfolding evaluate_template evaluate_fields evaluate evaluate_bytes
  evaluate_template-IsEvaluation template values h =
      let (contents, ok1, at1) =
        evaluated_alone (evaluate_decoded around values) template.data_paths h.data_map
          h.data_values in
      let (strings, ok2, at2) =
        evaluated_alone (λ e. evaluate_with around e values) template.string_data h.string_map
          h.string_values in
      let (annotations, ok3, at3) =
        evaluated_alone (λ e. evaluate_with around e values) template.metadata.annotations
          h.annotation_map h.annotation_values in
      let (labels, ok4, at4) =
        evaluated_alone (λ e. evaluate_with around e values) template.metadata.labels h.label_map
          h.label_values in
      (
        record {
          contents = contents;
          string_data = strings;
          annotations = annotations;
          labels = labels;
          type = h.type_text;
        },
        rw (ok1, ok2, ok3, ok4, h.type_value) refl,
        record {
          contents_at = at1;
          string_data_at = at2;
          annotations_at = at3;
          labels_at = at4;
          type_at = h.type_value;
        },
      )
