-- ===== src/Generator/SecretTemplate/Values.antt =====
-- The values of an evaluated template, and the secret that they go to.
use secretgen_controller.Common.{
  Text, text_eq_instance, none, some, List, ◌≡◌, refl, ap, ◌∙◌, if◌then◌else◌,
}
use secretgen_controller.Common.Maps.{Map}
use secretgen_controller.Common.Go.{value}
use secretgen_controller.Kube.{Fetched, found}
use secretgen_controller.Api.{OwnerReference, Secret, key_of}
use secretgen_controller.Api.Templates.{JsonPathTemplate, SecretTemplate}
use secretgen_controller.Reconciler.Status.{done}
use secretgen_controller.Generator.SecretTemplate.Inputs.{
  Surroundings, Env, should_track, resolve_input_resources,
}
use secretgen_controller.Generator.SecretTemplate.Reconciler.{
  periodically, empty_secret, owned_by, fill_secret, written, reconcile_evaluated,
  reconcile_resolved, reconcile,
}
use secretgen_controller.Generator.SecretTemplate.Evaluation.{EvaluatedSecret, evaluate_template}
use secretgen_controller.Generator.SecretTemplate.Evaluated.{
  IsEvaluable, IsEvaluation, evaluate_template-IsEvaluation,
}

-- A secret that carries what was evaluated, and keeps what names and versions it.
pub record IsFilled (existing : Secret) (evaluated : EvaluatedSecret)
    (references : List OwnerReference) (secret : Secret) : Type 0 where
  pub same_key : key_of secret.meta ≡ key_of existing.meta
  pub same_version : secret.meta.resource_version ≡ existing.meta.resource_version
  pub owned : secret.meta.owner_references ≡ references
  pub contents : secret.contents ≡ some evaluated.contents
  pub string_data : secret.string_data ≡ some evaluated.string_data
  pub type : secret.type ≡ evaluated.type
  pub labels : secret.meta.labels ≡ some evaluated.labels
  pub annotations : secret.meta.annotations ≡ some evaluated.annotations

abbrev filled : EvaluatedSecret → List OwnerReference → Secret → Secret
filled evaluated references secret = record secret {
  contents = some evaluated.contents;
  string_data = some evaluated.string_data;
  type = evaluated.type;
  meta = record (secret.meta) {
    annotations = some evaluated.annotations;
    labels = some evaluated.labels;
    owner_references = references;
  };
}

module _ {W J : Type 0} (around : Surroundings W J) where
  fill_secret-IsFilled :
      (t : SecretTemplate) (evaluated : EvaluatedSecret) (existing : Secret)
      (references : List OwnerReference)
      → around.own t.meta existing.meta.owner_references ≡ found references
      → (secret : Secret) × (fill_secret around t evaluated existing ≡ found secret)
        × IsFilled existing evaluated references secret
  unfolding fill_secret owned_by
  fill_secret-IsFilled t evaluated existing references ok = (
    filled evaluated references existing,
    rw ok refl,
    record {
      same_key = refl;
      same_version = refl;
      owned = refl;
      contents = refl;
      string_data = refl;
      type = refl;
      labels = refl;
      annotations = refl;
    },
  )

  -- Once the inputs are resolved and every expression has a value, a reconcile makes one CreateOrUpdate
  -- call on the secret of the template's name and namespace. The call is given a function that puts the
  -- values of the expressions and the owner into any secret that the template can own. The reply is
  -- to come again after the sync period where the template has a service account, and else that it is done.
  pub reconcile-IsFilled :
      (t : SecretTemplate) (template : JsonPathTemplate) (values : Map Text J) (s s' : Env W)
      → t.spec.json_path_template ≡ some template
      → resolve_input_resources around t s ≡ (value (found values), s')
      → IsEvaluable around template values
      → (evaluated : EvaluatedSecret) × IsEvaluation around template values evaluated
        × ((fill : Secret → Fetched Secret) × ((existing : Secret)
                (references : List OwnerReference)
              → around.own t.meta existing.meta.owner_references ≡ found references
              → (secret : Secret) × (fill existing ≡ found secret)
                × IsFilled existing evaluated references secret)
            × (reconcile around t s ≡ (
                let (answer, w) = around.create_or_update (empty_secret t) fill s'.world in
                (value (written around t answer), record s' { world = w })))
            × (key_of (empty_secret t).meta ≡ key_of t.meta)
            × ((secret : Secret)
                → (written around t (found secret)).0
                  ≡ (if should_track t then done else periodically, none)))
  unfolding reconcile reconcile_resolved reconcile_evaluated written
  reconcile-IsFilled t template values s s' has resolved h =
      let (evaluated, ok, fields) = evaluate_template-IsEvaluation around template values h in
      let ran = ap (λ o. evaluate_template around o values) has ∙ ok in
      (
        evaluated,
        fields,
        (
          fill_secret around t evaluated,
          fill_secret-IsFilled t evaluated,
          rw (resolved, ran) refl,
          refl,
          λ secret. refl,
        ),
      )
