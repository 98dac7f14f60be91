-- ===== src/Generator/SecretTemplate/Evaluation.antt =====
-- evaluateTemplate of pkg/generator/secret_template_reconciler.go. The order of a map's entries is that
-- of its iteration.
use secretgen_controller.Common.{Text, codes, text_eq_instance, Option, none, some, [], ◌∷◌}
use secretgen_controller.Common.Maps
use secretgen_controller.Common.Maps.{Map}
use secretgen_controller.Common.Go.{Outcome, value, panicked}
use secretgen_controller.Kube.{Fetched, found, failed}
use secretgen_controller.Api.Errors.{errorf}
use secretgen_controller.Api.Templates.{JsonPathTemplate}
use secretgen_controller.Generator.SecretTemplate.Inputs.{Surroundings, evaluate_with}

-- The parts of the evaluated corev1.Secret. Its maps are never nil.
pub record EvaluatedSecret : Type 0 where
  pub labels : Map Text Text
  pub annotations : Map Text Text
  pub type : Text
  pub string_data : Map Text Text
  pub contents : Map Text Text

-- `if err != nil { return ..., err }`.
abbrev pub then_with : {A B : Type 0} → Fetched A → (A → Fetched B) → Fetched B
then_with (failed err) f = failed err
then_with (found a) f = f a

-- The error is wrapped with what was done.
abbrev pub doing : {A : Type 0} → Text → Fetched A → Fetched A
doing what (failed err) = failed (errorf what err)
doing what (found a) = found a

module _ {W J : Type 0} (around : Surroundings W J) where
  -- The loops of evaluate and evaluateBytes, with what is done to each expression.
  unfoldable pub evaluate_each :
      (Text → Fetched Text) → Map Text Text → Map Text Text → Fetched (Map Text Text)
  evaluate_each f [] evaluated = found evaluated
  evaluate_each f ((key, expression) ∷ mapping) evaluated =
      then_with (f expression) (λ v. evaluate_each f mapping (Maps.put key v evaluated))

  unfoldable pub evaluate : Map Text Text → Map Text J → Fetched (Map Text Text)
  unfolding evaluate_each evaluate_with
  evaluate mapping values = evaluate_each (λ e. evaluate_with around e values) mapping []

  unfoldable pub evaluate_decoded : Map Text J → Text → Fetched Text
  unfolding evaluate_with
  evaluate_decoded values e =
      then_with (evaluate_with around e values)
        (λ text. doing (codes "failed decoding base64 from a Secret") (around.decode_base64 text))

  unfoldable pub evaluate_bytes : Map Text Text → Map Text J → Fetched (Map Text Text)
  unfolding evaluate_each evaluate_decoded
  evaluate_bytes mapping values = evaluate_each (evaluate_decoded values) mapping []

  unfoldable pub evaluate_fields : JsonPathTemplate → Map Text J → Fetched EvaluatedSecret
  unfolding evaluate evaluate_bytes evaluate_with
  evaluate_fields template values =
      then_with (doing (codes "templating data") (evaluate_bytes template.data_paths values))
        (λ contents.
          then_with (doing (codes "templating stringData") (evaluate template.string_data values))
            (λ string_data.
              then_with
                (doing (codes "templating annotations")
                  (evaluate template.metadata.annotations values))
                (λ annotations.
                  then_with
                    (doing (codes "templating labels") (evaluate template.metadata.labels values))
                    (λ labels.
                      then_with
                        (doing (codes "templating type")
                          (evaluate_with around template.type values))
                        (λ type. found (record {
                          labels = labels;
                          annotations = annotations;
                          type = type;
                          string_data = string_data;
                          contents = contents;
                        }))))))

  -- A template that is left out is a nil pointer, which is dereferenced.
  unfoldable pub evaluate_template :
      Option JsonPathTemplate → Map Text J → Outcome (Fetched EvaluatedSecret)
  unfolding evaluate_fields
  evaluate_template none values =
      panicked (codes "invalid memory address or nil pointer dereference")
  evaluate_template (some template) values = value (evaluate_fields template values)
