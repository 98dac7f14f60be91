-- ===== src/Sharing/SecretReconciler/Stable.antt =====
-- The reconcile of a placeholder secret, and of one that is filled.
use secretgen_controller.Common.{
  ℕ, Text, text_eq, text_eq_iff, text_eq_instance, Bool, true, false, not, Option, none, some, List,
  [], ◌∷◌, ◌≡◌, refl, arith, length, ==_iff,
}
use secretgen_controller.Common.Maps
use secretgen_controller.Common.Maps.{Map}
use secretgen_controller.Common.Go.{value}
use secretgen_controller.Kube.{Fetched, found, failed}
use secretgen_controller.Api.{NamespacedName, Secret, entries}
use secretgen_controller.Api.Errors.{is_not_found}
use secretgen_controller.Reconciler.Status.{done}
use secretgen_controller.Sharing.Exports.Cache.{IsCache}
use secretgen_controller.Sharing.Env.{Cluster, Env}
use secretgen_controller.Sharing.Wildcards.{namespace_wildcard_exclusion_check}
use secretgen_controller.Sharing.DockerConfig.{
  AuthsJson, CombinedData, new_data, bad_data, new_combined_docker_config_json,
}
use secretgen_controller.Sharing.ExportReconciler.{matched_secrets_for_import}
use secretgen_controller.Sharing.ExportReconciler.Caching.{ReturnsNamed}
use secretgen_controller.Sharing.ExportReconciler.WarmUp.{
  Returns, Returns-if, ListsNamed, matched_secrets_for_import-Queried,
}
use secretgen_controller.Sharing.SecretReconciler.{
  image_pull_secret_ann_key, status_field_ann_key, docker_config_json_type, SecretStatus,
  predict_want_to_reconcile, wrong_type_status, filled_status, has_entries, same_map, same_secret,
  with_status, with_contents, placeholder_matcher, write_unless, update_secret, fill,
  reconcile_typed, reconcile_placeholder, reconcile_existing, reconcile_request, reconcile_secret,
}

get-front :
    (k j : Text) (v : Text) (n : Map Text Text)
    → text_eq j k ≡ false
    → Maps.get k ((j, v) ∷ n) ≡ Maps.get k n
unfolding Maps.get
get-front k j v n h = ground arith

-- An entry of another key in front hides nothing.
has_entries-front :
    (k v : Text) (m n : Map Text Text)
    → Maps.Absent k m
    → has_entries m n ≡ true
    → has_entries m ((k, v) ∷ n) ≡ true
unfolding has_entries
has_entries-front k v [] n a h = refl
has_entries-front k v ((j, w) ∷ m) n a h =
    ground (arith, has_entries-front k v m n, text_eq_iff k j, text_eq_iff j k, get-front j k v n)

has_entries_self : (m : Map Text Text) → Maps.IsMap m → has_entries m m ≡ true
unfolding has_entries Maps.get
has_entries_self [] h = refl
has_entries_self ((k, v) ∷ m) h = ground (
  arith,
  text_eq_iff k k,
  text_eq_iff v v,
  has_entries-front k v m m h.0 (has_entries_self m h.1),
)

same_map_refl : (m : Map Text Text) → Maps.IsMap m → same_map (some m) (some m) ≡ true
unfolding same_map
same_map_refl m h = ground (arith, has_entries_self m h, ==_iff (length m) (length m))

put_idem : (k v : Text) (m : Map Text Text) → Maps.put k v (Maps.put k v m) ≡ Maps.put k v m
unfolding Maps.put
put_idem k v [] = ground (arith, text_eq_iff k k)
put_idem k v ((j, w) ∷ m) = ground (arith, text_eq_iff k k, text_eq_iff j k, put_idem k v m)

same_secret-written :
    (encoded : Text) (new : Map Text Text) (secret : Secret)
    → Maps.IsMap (entries secret.meta.annotations)
    → Maps.IsMap new
    → let written = with_status encoded (with_contents new secret) in
      same_secret (with_status encoded (with_contents new written)) written ≡ true
unfolding same_secret with_status
same_secret-written encoded new secret a b =
    let ann = Maps.put status_field_ann_key encoded (entries secret.meta.annotations) in
    rw (put_idem status_field_ann_key encoded (entries secret.meta.annotations)) (
      ground (
        arith,
        same_map_refl ann
            (Maps.put-IsMap status_field_ann_key encoded (entries secret.meta.annotations) a),
        same_map_refl new b,
      ))

keys-differ : text_eq status_field_ann_key image_pull_secret_ann_key ≡ false
keys-differ = ground (arith, text_eq_iff status_field_ann_key image_pull_secret_ann_key)

filled_wanted :
    (encoded : Text) (new : Map Text Text) (secret : Secret)
    → predict_want_to_reconcile secret ≡ true
    → predict_want_to_reconcile (with_status encoded (with_contents new secret)) ≡ true
unfolding predict_want_to_reconcile with_status
filled_wanted encoded new secret wanted =
    rw
      (
        Maps.get-put status_field_ann_key image_pull_secret_ann_key encoded
            (entries secret.meta.annotations),
        keys-differ,
      )
      wanted

module _ {W F : Type 0} (cluster : Cluster W F) (json : AuthsJson)
    (marshal : SecretStatus → Text) where
  write_unless-Returns :
      (same : Bool) (secret : Secret) (s : Env W)
      → Returns (write_unless cluster json marshal same secret) s
  unfolding write_unless
  write_unless-Returns true secret s = (_, refl)
  write_unless-Returns false secret s = (_, refl)

  update_secret-Returns :
      (secret original : Secret) (status : SecretStatus) (s : Env W)
      → Returns (update_secret cluster json marshal secret status original) s
  unfolding update_secret
  update_secret-Returns secret original status s = write_unless-Returns _ _ s

  fill-Returns :
      (secret : Secret) (secrets : List Secret) (r : CombinedData) (s : Env W)
      → Returns (fill cluster json marshal secret secrets r) s
  unfolding fill
  fill-Returns secret secrets (bad_data err) s = (_, refl)
  fill-Returns secret secrets (new_data new) s =
      update_secret-Returns (with_contents new secret) secret (filled_status secrets) s

  reconcile_typed-settled :
      (secret : Secret) (secrets : List Secret) (new : Map Text Text) (s t : Env W)
      → Maps.IsMap (entries secret.meta.annotations)
      → Maps.IsMap new
      → matched_secrets_for_import cluster
          (placeholder_matcher secret)
          (namespace_wildcard_exclusion_check cluster.namespaces)
          s
        ≡ (value secrets, t)
      → new_combined_docker_config_json json secrets ≡ new_data new
      → reconcile_typed cluster json marshal
          (with_status (marshal (filled_status secrets)) (with_contents new secret))
          s
        ≡ (value (done, none), t)
  unfolding reconcile_typed with_status fill update_secret write_unless
  reconcile_typed-settled secret secrets new s t ann map query combine =
      rw (query, combine, same_secret-written (marshal (filled_status secrets)) new secret ann map)
        refl

  reconcile_typed-Returns :
      (secret : Secret) (s : Env W)
      → ReturnsNamed cluster.secrets (λ x. x.meta)
      → ListsNamed cluster
      → IsCache s.cache
      → Returns (reconcile_typed cluster json marshal secret) s
  unfolding reconcile_typed
  reconcile_typed-Returns secret s named_secrets lists h =
      let (secrets, ok, _) =
        matched_secrets_for_import-Queried cluster named_secrets lists (placeholder_matcher secret)
          (namespace_wildcard_exclusion_check cluster.namespaces) s h in
      rw ok (fill-Returns secret secrets (new_combined_docker_config_json json secrets) _)

  reconcile_existing-Returns :
      (deleting : Option ℕ) (secret : Secret) (s : Env W)
      → ReturnsNamed cluster.secrets (λ x. x.meta)
      → ListsNamed cluster
      → IsCache s.cache
      → Returns (reconcile_existing cluster json marshal deleting secret) s
  unfolding reconcile_existing reconcile_placeholder
  reconcile_existing-Returns (some t) secret s named_secrets lists h = (_, refl)
  reconcile_existing-Returns none secret s named_secrets lists h =
      Returns-if (not (predict_want_to_reconcile secret)) _ _ s (_, refl)
        (Returns-if (not (text_eq secret.type docker_config_json_type)) _ _ s
          (update_secret-Returns secret secret wrong_type_status s)
          (reconcile_typed-Returns secret s named_secrets lists h))

  reconcile_request-Returns :
      (answer : Fetched Secret) (s : Env W)
      → ReturnsNamed cluster.secrets (λ x. x.meta)
      → ListsNamed cluster
      → IsCache s.cache
      → Returns (reconcile_request cluster json marshal answer) s
  unfolding reconcile_request
  reconcile_request-Returns (failed err) s named_secrets lists h =
      Returns-if (is_not_found err) _ _ s (_, refl) (_, refl)
  reconcile_request-Returns (found secret) s named_secrets lists h =
      reconcile_existing-Returns secret.meta.deletion_timestamp secret s named_secrets lists h

-- Reconciling a secret returns, whatever the API answers: the cache is well formed, and the objects
-- that are fetched or listed have names.
pub reconcile_secret-Returns :
    {W F : Type 0} (cluster : Cluster W F) (json : AuthsJson) (marshal : SecretStatus → Text)
    (request : NamespacedName) (s : Env W)
    → ReturnsNamed cluster.secrets (λ x. x.meta)
    → ListsNamed cluster
    → IsCache s.cache
    → Returns (reconcile_secret cluster json marshal request) s
unfolding reconcile_secret
reconcile_secret-Returns cluster json marshal request s named_secrets lists h =
    reconcile_request-Returns cluster json marshal (cluster.secrets.get request s.world).0 _
      named_secrets lists h

-- A placeholder that holds what its reconcile writes is left alone: with the same matched secrets,
-- the reconcile after the one that filled it replies done, and writes nothing. The query for the
-- matched secrets returns, they combine, and the annotations and the new data hold no key twice.
pub reconcile_placeholder-settled :
    {W F : Type 0} (cluster : Cluster W F) (json : AuthsJson) (marshal : SecretStatus → Text)
    (secret : Secret) (secrets : List Secret) (new : Map Text Text) (s t : Env W)
    → predict_want_to_reconcile secret ≡ true
    → secret.type ≡ docker_config_json_type
    → Maps.IsMap (entries secret.meta.annotations)
    → Maps.IsMap new
    → matched_secrets_for_import cluster
        (placeholder_matcher secret)
        (namespace_wildcard_exclusion_check cluster.namespaces)
        s
      ≡ (value secrets, t)
    → new_combined_docker_config_json json secrets ≡ new_data new
    → reconcile_placeholder cluster json marshal
        (with_status (marshal (filled_status secrets)) (with_contents new secret))
        s
      ≡ (value (done, none), t)
unfolding reconcile_placeholder with_status
reconcile_placeholder-settled cluster json marshal secret secrets new s t wanted type ann map query
      combine =
    rw
      (
        filled_wanted (marshal (filled_status secrets)) new secret wanted,
        (text_eq_iff secret.type docker_config_json_type).1 type,
      )
      (reconcile_typed-settled cluster json marshal secret secrets new s t ann map query combine)
