-- ===== src/Generator/SecretTemplate/Reconciler.antt =====
-- Reconcile, reconcile and updateStatus of pkg/generator/secret_template_reconciler.go, and the requests
-- for a tracked secret. Logging is left out.
use secretgen_controller.Common.{ℕ, Text, codes, false, Option, none, some, List, [], if◌then◌else◌}
use secretgen_controller.Common.Maps.{Map}
use secretgen_controller.Common.Go.{Go, Outcome, value, panicked, pure, panic, ◌>>=◌, ◌>>◌}
use secretgen_controller.Kube.{Fetched, found, failed}
use secretgen_controller.Api.{NamespacedName, OwnerReference, Secret, key_of, named}
use secretgen_controller.Api.Errors.{errorf, is_not_found}
use secretgen_controller.Api.Conditions.{GenericStatus}
use secretgen_controller.Api.Templates.{SecretTemplate, SecretTemplateStatus}
use secretgen_controller.Reconciler.Status.{
  Result, Reply, done, set_reconciling, with_reconcile_completed,
}
use secretgen_controller.Generator.SecretTemplate.Inputs.{
  Surroundings, Env, on_world, on_tracker, should_track, resolve_input_resources,
}
use secretgen_controller.Generator.SecretTemplate.Evaluation.{EvaluatedSecret, evaluate_template}
use secretgen_controller.Tracker.{Tracker, untrack_all, get_tracking}

-- reconcile.Result{RequeueAfter: syncPeriod}.
abbrev pub periodically : Result
periodically = record { requeue = false; requeue_after = 30000000000 }

abbrev with_generic_status : GenericStatus → SecretTemplate → SecretTemplate
with_generic_status st t = record t { status = record (t.status) { generic_status = st } }

abbrev with_secret_name : Text → SecretTemplate → SecretTemplate
with_secret_name name t = record t { status = record (t.status) { secret_name = name } }

abbrev with_template_status : SecretTemplateStatus → SecretTemplate → SecretTemplate
with_template_status st t = record t { status = st }

-- The secret that is handed to CreateOrUpdate.
abbrev pub empty_secret : SecretTemplate → Secret
empty_secret t = record {
  meta = named (key_of t.meta);
  type = [];
  contents = none;
  string_data = none;
}

unfoldable pub owned_by : Secret → Fetched (List OwnerReference) → Fetched Secret
owned_by secret (failed err) = failed err
owned_by secret (found references) =
    found (record secret { meta = record (secret.meta) { owner_references = references } })

-- The requests for a secret that changed, of the handler in AttachWatches.
unfoldable pub map_secret_to_templates : NamespacedName → Tracker → List NamespacedName
map_secret_to_templates secret tracker = get_tracking secret tracker

module _ {W J : Type 0} (around : Surroundings W J) where
  -- The function that CreateOrUpdate applies to the secret.
  unfoldable pub fill_secret : SecretTemplate → EvaluatedSecret → Secret → Fetched Secret
  unfolding owned_by
  fill_secret t evaluated secret =
      owned_by
        (record secret {
          contents = some evaluated.contents;
          string_data = some evaluated.string_data;
          type = evaluated.type;
          meta = record (secret.meta) {
            annotations = some evaluated.annotations;
            labels = some evaluated.labels;
          };
        })
        (around.own t.meta secret.meta.owner_references)

  unfoldable pub written : SecretTemplate → Fetched Secret → Reply × SecretTemplate
  written t (failed err) = ((done, some (errorf (codes "creating/updating secret") err)), t)
  written t (found secret) =
      ((if should_track t then done else periodically, none), with_secret_name secret.meta.name t)

  unfoldable pub reconcile_evaluated :
      SecretTemplate → Fetched EvaluatedSecret → Go (Env W) (Reply × SecretTemplate)
  unfolding written fill_secret
  reconcile_evaluated t (failed err) = pure ((done, some err), t)
  reconcile_evaluated t (found evaluated) = do
    secret ← on_world (around.create_or_update (empty_secret t) (fill_secret t evaluated))
    pure (written t secret)

  unfoldable pub reconcile_resolved :
      SecretTemplate → Fetched (Map Text J) → Go (Env W) (Reply × SecretTemplate)
  unfolding reconcile_evaluated evaluate_template
  reconcile_resolved t (failed err) = pure ((done, some err), t)
  reconcile_resolved t (found values) = do
    evaluated ← (λ s. (evaluate_template around t.spec.json_path_template values, s))
    reconcile_evaluated t evaluated

  -- The template is returned as the pointer leaves it.
  unfoldable pub reconcile : SecretTemplate → Go (Env W) (Reply × SecretTemplate)
  unfolding reconcile_resolved resolve_input_resources
  reconcile t = do values ← resolve_input_resources around t; reconcile_resolved t values

  -- updateStatus of a deferred call: its error is dropped.
  write_status : SecretTemplateStatus → Fetched SecretTemplate → Go (Env W) (Unit {0})
  write_status st (failed err) = pure tt
  write_status st (found existing) = do
    on_world (around.templates.update_status (with_template_status st existing))
    pure tt

  update_status : SecretTemplate → Go (Env W) (Unit {0})
  unfolding write_status
  update_status t = do
    existing ← on_world (around.templates.get (key_of t.meta))
    write_status t.status existing

  -- The deferred call runs behind a panic too.
  run_deferred :
      SecretTemplate → GenericStatus → Outcome (Reply × SecretTemplate) → Go (Env W) Reply
  unfolding update_status
  run_deferred t st (panicked message) = do update_status t; panic message
  run_deferred t st (value (reply, t')) = do
    let (reply', st') = with_reconcile_completed reply st
    update_status (with_generic_status st' t')
    pure reply'

  reconcile_existing : Option ℕ → SecretTemplate → Go (Env W) Reply
  unfolding reconcile run_deferred
  reconcile_existing (some deleted) t s = (value (done, none), s)
  reconcile_existing none t s =
      let st = set_reconciling t.meta t.status.generic_status in
      let started = with_generic_status st t in
      let (outcome, s') = reconcile started s in run_deferred started st outcome s'

  unfoldable pub reconcile_request : NamespacedName → Fetched SecretTemplate → Go (Env W) Reply
  unfolding reconcile_existing
  reconcile_request request (failed err) =
      if is_not_found err
      then (do on_tracker (untrack_all request); pure (done, none))
      else pure (done, some err)
  reconcile_request request (found t) = reconcile_existing t.meta.deletion_timestamp t

  unfoldable pub reconcile_template : NamespacedName → Go (Env W) Reply
  unfolding reconcile_request
  reconcile_template request = do
    t ← on_world (around.templates.get request)
    reconcile_request request t
