-- ===== src/Generator/SecretTemplate/Inputs.antt =====
-- resolveInputResources of pkg/generator/secret_template_reconciler.go, and what the reconciler stands on.
-- The content of a resource is of a type `J`. The service account loader, client-go's jsonpath,
-- schema.ParseGroupVersion, base64 and controllerutil are parameters.
use mathlib.Core.Option.{get_or}
use secretgen_controller.Common.{
  Text, codes, text_eq, text_eq_instance, is_empty, Bool, not, ◌&&◌, List, [], ◌∷◌, ◌++◌,
  if◌then◌else◌,
}
use secretgen_controller.Common.Maps
use secretgen_controller.Common.Maps.{Map}
use secretgen_controller.Common.Go.{Go, value, pure, modify, ◌>>=◌, ◌>>◌}
use secretgen_controller.Kube.{Client, Fetched, found, failed}
use secretgen_controller.Api.{NamespacedName, ObjectMeta, OwnerReference, Secret, key_of}
use secretgen_controller.Api.Errors.{plain, errorf}
use secretgen_controller.Api.Templates.{InputResourceRef, InputResource, SecretTemplate}
use secretgen_controller.Generator.JsonPath.{to_k8s_json_path}
use secretgen_controller.Tracker.{Tracker, track, untrack_all}

pub record GroupVersionKind : Type 0 where
  pub group : Text
  pub version : Text
  pub kind : Text

-- The Get of an unstructured object.
abbrev pub Reader : Type 0 → Type 0 → Type 0
Reader W J = GroupVersionKind → NamespacedName → W → Fetched J × W

pub record Surroundings (W J : Type 0) : Type 0 where
  pub templates : Client W SecretTemplate
  pub reader : Reader W J
  -- ClientLoader.Client: a client for a service account of a namespace.
  pub load_client : (name namespace : Text) → W → Fetched (Reader W J) × W
  -- jsonpath's Parse and Execute, with missing keys an error.
  pub execute_path : Text → Map Text J → Fetched Text
  -- The group and the version.
  pub parse_group_version : Text → Fetched (Text × Text)
  pub decode_base64 : Text → Fetched Text
  -- controllerutil.CreateOrUpdate: the secret is fetched by its name, changed by the function, and
  -- created or updated, unless the function returns an error.
  pub create_or_update : Secret → (Secret → Fetched Secret) → W → Fetched Secret × W
  -- controllerutil.SetControllerReference, on the owner references.
  pub own : ObjectMeta → List OwnerReference → Fetched (List OwnerReference)

-- The cluster, and the tracker of the reconciler.
pub record Env (W : Type 0) : Type 0 where
  pub world : W
  pub tracker : Tracker

abbrev pub on_world : {W A : Type 0} → (W → A × W) → Go (Env W) A
on_world f s = let (a, world) = f s.world in (value a, record s { world = world })

abbrev pub on_tracker : {W : Type 0} → (Tracker → Tracker) → Go (Env W) (Unit {0})
on_tracker f = modify (λ s. record s { tracker = f s.tracker })

abbrev pub should_track : SecretTemplate → Bool
should_track t = is_empty t.spec.service_account_name

-- The inputs that are read without a service account.
abbrev pub is_secret_ref : InputResourceRef → Bool
is_secret_ref ref = text_eq ref.kind (codes "Secret") && text_eq ref.api_version (codes "v1")

abbrev pub in_namespace : (namespace name : Text) → NamespacedName
in_namespace namespace name = record { namespace = namespace; name = name }

-- The values by input name, or an error; and the keys of the inputs that were read, in order.
abbrev pub Resolved : Type 0 → Type 0
Resolved J = Fetched (Map Text J) × List NamespacedName

module _ {W J : Type 0} (around : Surroundings W J) where
  -- EvaluateWith, on the path as it is where its rewriting stops.
  unfoldable pub evaluate_with : Text → Map Text J → Fetched Text
  evaluate_with path values = around.execute_path (get_or (to_k8s_json_path path) path) values

  unfoldable pub to_unstructured :
      Text → Text → Fetched (Text × Text) → Fetched (GroupVersionKind × Text)
  to_unstructured kind name (failed err) = failed err
  to_unstructured kind name (found (group, version)) =
      found (record { group = group; version = version; kind = kind }, name)

  unfoldable pub named_as : InputResourceRef → Fetched Text → Fetched (GroupVersionKind × Text)
  unfolding to_unstructured
  named_as ref (failed err) = failed err
  named_as ref (found name) =
      to_unstructured ref.kind name (around.parse_group_version ref.api_version)

  -- The object's kind and its name: its namespace is the template's.
  unfoldable pub resolve_input_resource :
      InputResourceRef → Map Text J → Fetched (GroupVersionKind × Text)
  unfolding named_as evaluate_with
  resolve_input_resource ref values = named_as ref (evaluate_with ref.name values)

  -- Behind the Get of an input.
  unfoldable pub read_next :
      (Map Text J → List NamespacedName → Go (Env W) (Resolved J))
      → InputResource
      → Map Text J
      → NamespacedName
      → List NamespacedName
      → Fetched J
      → Go (Env W) (Resolved J)
  read_next next input values k keys (failed err) =
      pure (failed (errorf (codes "cannot fetch input resource " ++ k.name) err), keys)
  read_next next input values k keys (found content) =
      next (Maps.put input.name content values) (keys ++ (k ∷ []))

  -- Behind the resolution of an input's reference.
  unfoldable pub read_resolved :
      (Map Text J → List NamespacedName → Go (Env W) (Resolved J))
      → Reader W J
      → Text
      → InputResource
      → Map Text J
      → List NamespacedName
      → Fetched (GroupVersionKind × Text)
      → Go (Env W) (Resolved J)
  unfolding read_next
  read_resolved next reader namespace input values keys (failed err) =
      pure (failed (errorf (codes "unable to resolve input resource " ++ input.name) err), keys)
  read_resolved next reader namespace input values keys (found (gvk, name)) = do
    content ← on_world (reader gvk (in_namespace namespace name))
    read_next next input values (in_namespace namespace name) keys content

  -- The loop over the inputs.
  unfoldable pub read_inputs :
      Reader W J
      → SecretTemplate
      → List InputResource
      → Map Text J
      → List NamespacedName
      → Go (Env W) (Resolved J)
  unfolding read_resolved resolve_input_resource
  read_inputs reader t [] values keys = pure (found values, keys)
  read_inputs reader t (input ∷ inputs) values keys =
      if should_track t && not (is_secret_ref input.ref)
      then pure (
        failed (plain (codes "unable to load non-secrets without a specified serviceaccount")),
        keys,
      )
      else read_resolved (read_inputs reader t inputs) reader t.meta.namespace input values keys
          (resolve_input_resource input.ref values)

  -- The deferred function, with the result of the loop.
  unfoldable pub track_resolved : SecretTemplate → Resolved J → Go (Env W) (Fetched (Map Text J))
  track_resolved t (result, keys) =
      if should_track t
      then (do
        on_tracker (untrack_all (key_of t.meta))
        on_tracker (track (key_of t.meta) keys)
        pure result)
      else pure result

  unfoldable pub client_for_secret_template : SecretTemplate → Go (Env W) (Fetched (Reader W J))
  client_for_secret_template t =
      if should_track t
      then pure (found around.reader)
      else on_world (around.load_client t.spec.service_account_name t.meta.namespace)

  -- Without a client nothing is tracked: the deferred function is not set yet.
  unfoldable pub resolve_with :
      SecretTemplate → Fetched (Reader W J) → Go (Env W) (Fetched (Map Text J))
  unfolding read_inputs track_resolved
  resolve_with t (failed err) =
      pure (failed (errorf (codes "unable to load client for reading Input Resources") err))
  resolve_with t (found reader) = do
    resolved ← read_inputs reader t t.spec.input_resources [] []
    track_resolved t resolved

  unfoldable pub resolve_input_resources : SecretTemplate → Go (Env W) (Fetched (Map Text J))
  unfolding resolve_with client_for_secret_template
  resolve_input_resources t = do reader ← client_for_secret_template t; resolve_with t reader
