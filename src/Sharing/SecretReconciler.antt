-- ===== src/Sharing/SecretReconciler.antt =====
-- SecretReconciler of pkg/sharing/secret_reconciler.go, and its handler of SecretExport events.
-- Logging is left out. encoding/json of the status is a parameter.
pub mod Stable
use secretgen_controller.Common.{
  ℕ, Text, codes, text_eq, text_eq_instance, text_lt, Bool, true, false, not, ◌&&◌, Option, none,
  some, List, [], ◌∷◌, ◌++◌, map, keep, length, ◌==◌, if◌then◌else◌,
}
use secretgen_controller.Common.Maps
use secretgen_controller.Common.Maps.{Map}
use secretgen_controller.Common.Sort.{sort}
use secretgen_controller.Common.Go.{Go, Outcome, value, panicked, pure, ◌>>=◌, ◌>>◌}
use secretgen_controller.Kube.{Client, Fetched, found, failed}
use secretgen_controller.Api.{NamespacedName, ObjectMeta, Secret, key_of, entries, slash}
use secretgen_controller.Api.Errors.{Error, errorf, is_not_found}
use secretgen_controller.Api.Conditions.{Condition, reconcile_failed, reconcile_succeeded}
use secretgen_controller.Api.Exports.{SecretExport}
use secretgen_controller.Reconciler.Status.{Result, Reply, done, again}
use secretgen_controller.Sharing.Exports
use secretgen_controller.Sharing.Exports.{SecretMatcher}
use secretgen_controller.Sharing.Env.{Cluster, Env, on_cache, on_world}
use secretgen_controller.Sharing.Wildcards.{namespace_wildcard_exclusion_check}
use secretgen_controller.Sharing.DockerConfig.{
  AuthsJson, CombinedData, new_data, bad_data, new_combined_docker_config_json,
}
use secretgen_controller.Sharing.ExportReconciler.{matched_secrets_for_import, bare_export}

abbrev pub image_pull_secret_ann_key : Text
image_pull_secret_ann_key = codes "secretgen.carvel.dev/image-pull-secret"

abbrev pub status_field_ann_key : Text
status_field_ann_key = codes "secretgen.carvel.dev/status"

-- corev1.SecretTypeDockerConfigJson.
abbrev pub docker_config_json_type : Text
docker_config_json_type = codes "kubernetes.io/dockerconfigjson"

pub record SecretStatus : Type 0 where
  pub conditions : List Condition
  pub secret_names : List Text

is_some : Option Text → Bool
is_some none = false
is_some (some v) = true

unfoldable pub predict_want_to_reconcile : Secret → Bool
unfolding is_some
predict_want_to_reconcile secret =
    is_some (Maps.get image_pull_secret_ann_key (entries secret.meta.annotations))

unfoldable pub status_secret_names : List Secret → List Text
unfolding sort
status_secret_names secrets =
    sort text_lt (map (λ (s : Secret). slash s.meta.namespace s.meta.name) secrets)

abbrev pub wrong_type_status : SecretStatus
wrong_type_status = record {
  conditions =
      record {
        type = reconcile_failed;
        status = true;
        reason = [];
        message =
            codes "Expected secret to have type=corev1.SecretTypeDockerConfigJson, but did not";
      }
      ∷ [];
  secret_names = [];
}

abbrev pub filled_status : List Secret → SecretStatus
unfolding status_secret_names
filled_status secrets = record {
  conditions = record { type = reconcile_succeeded; status = true; reason = []; message = [] } ∷ [];
  secret_names = status_secret_names secrets;
}

is_text : Text → Option Text → Bool
is_text v none = false
is_text v (some w) = text_eq v w

-- reflect.DeepEqual of two Go maps.
unfoldable pub has_entries : Map Text Text → Map Text Text → Bool
unfolding is_text
has_entries [] n = true
has_entries ((k, v) ∷ m) n = is_text v (Maps.get k n) && has_entries m n

unfoldable pub same_map : Option (Map Text Text) → Option (Map Text Text) → Bool
unfolding has_entries
same_map none none = true
same_map none (some n) = false
same_map (some m) none = false
same_map (some m) (some n) = length m == length n && has_entries m n

-- reflect.DeepEqual of the secret and its copy, which differ at most in their annotations and data.
unfoldable pub same_secret : Secret → Secret → Bool
unfolding same_map
same_secret a b = same_map a.meta.annotations b.meta.annotations && same_map a.contents b.contents

-- `secret.Annotations[statusFieldAnnKey] = ...`, on an empty map where there is none.
unfoldable pub with_status : Text → Secret → Secret
with_status encoded secret = record secret {
  meta = record (secret.meta) {
    annotations = some (Maps.put status_field_ann_key encoded (entries secret.meta.annotations));
  };
}

abbrev pub with_contents : Map Text Text → Secret → Secret
with_contents new secret = record secret { contents = some new }

updated_reply : Option Error → Reply
updated_reply none = (done, none)
updated_reply (some err) = (again, some (errorf (codes "Updating secret") err))

-- `reconcile.Result{RequeueAfter: 3 * time.Second}`.
abbrev pub retry_later : Result
retry_later = record { requeue = false; requeue_after = 3000000000 }

abbrev pub placeholder_matcher : Secret → SecretMatcher
placeholder_matcher secret = record {
  from_name = [];
  from_namespace = [];
  to_namespace = secret.meta.namespace;
  subject = [];
  secret_type = secret.type;
}

abbrev request_for : Secret → NamespacedName
request_for secret = key_of secret.meta

-- mapSecretExportToSecret and mapNamespaceToSecret, on what the list call returned.
unfoldable pub map_secret_export_to_secret : Fetched (List Secret) → List NamespacedName
unfolding predict_want_to_reconcile
map_secret_export_to_secret (failed err) = []
map_secret_export_to_secret (found secrets) =
    map request_for (keep predict_want_to_reconcile secrets)

unfoldable pub map_namespace_to_secret : Fetched (List Secret) → List NamespacedName
map_namespace_to_secret (failed err) = []
map_namespace_to_secret (found secrets) = map request_for secrets

module _ {W F : Type 0} (cluster : Cluster W F) (json : AuthsJson)
    (marshal : SecretStatus → Text) where
  write_unless : Bool → Secret → Go (Env W) Reply
  unfolding updated_reply
  write_unless true secret = pure (done, none)
  write_unless false secret = do
    err ← on_world (cluster.secrets.update secret)
    pure (updated_reply err)

  unfoldable pub update_secret : Secret → SecretStatus → Secret → Go (Env W) Reply
  unfolding with_status same_secret write_unless
  update_secret secret status original =
      let annotated = with_status (marshal status) secret in
      write_unless (same_secret annotated original) annotated

  fill : Secret → List Secret → CombinedData → Go (Env W) Reply
  unfolding update_secret
  fill secret secrets (bad_data err) = pure (retry_later, some err)
  fill secret secrets (new_data new) =
      update_secret (with_contents new secret) (filled_status secrets) secret

  -- The type is the expected one.
  reconcile_typed : Secret → Go (Env W) Reply
  unfolding fill new_combined_docker_config_json
  reconcile_typed secret = do
    secrets ←
        matched_secrets_for_import cluster (placeholder_matcher secret)
          (namespace_wildcard_exclusion_check cluster.namespaces)
    fill secret secrets (new_combined_docker_config_json json secrets)

  unfoldable pub reconcile_placeholder : Secret → Go (Env W) Reply
  unfolding reconcile_typed update_secret predict_want_to_reconcile
  reconcile_placeholder secret =
      if not (predict_want_to_reconcile secret)
      then pure (done, none)
      else if not (text_eq secret.type docker_config_json_type)
      then update_secret secret wrong_type_status secret
      else reconcile_typed secret

  reconcile_existing : Option ℕ → Secret → Go (Env W) Reply
  unfolding reconcile_placeholder
  reconcile_existing (some t) secret = pure (done, none)
  reconcile_existing none secret = reconcile_placeholder secret

  reconcile_request : Fetched Secret → Go (Env W) Reply
  unfolding reconcile_existing
  reconcile_request (failed err) =
      if is_not_found err then pure (done, none) else pure (again, some err)
  reconcile_request (found secret) = reconcile_existing secret.meta.deletion_timestamp secret

  unfoldable pub reconcile_secret : NamespacedName → Go (Env W) Reply
  unfolding reconcile_request
  reconcile_secret request = do
    secret ← on_world (cluster.secrets.get request)
    reconcile_request secret
