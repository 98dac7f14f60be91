-- ===== src/Examples/Sharing.antt =====
-- The theorems of Sharing at the example cluster and cache.
use mathlib.Core.List.{Permᴰ}
use mathlib.Core.List.Permᴰ
use secretgen_controller.Common.{
  ℕ, ◌≤◌, Text, codes, text_eq, text_lt, Bool, true, false, Option, none, some, List, [], ◌∷◌, map,
  ◌≡◌, ◌↔◌, refl, ap, arith, text_eq_instance, length, keep, if◌then◌else◌,
}
use secretgen_controller.Common.Maps
use secretgen_controller.Common.Sort.{IsSorted}
use secretgen_controller.Common.Go.{value}
use secretgen_controller.Api.{Secret, slash, named, Namespace, NamespacedName, entries}
use secretgen_controller.Sharing.Exports
use secretgen_controller.Sharing.Exports.{
  ExportedSecret, SortKey, matches, key, sorts_before, less, contains, SecretMatcher,
}
use secretgen_controller.Sharing.Exports.Cache.{IsCache, entry_of}
use secretgen_controller.Sharing.Exports.Matching.{IsMatch, matches_iff}
use secretgen_controller.Sharing.Exports.Order.{AllWeighted, less-nan_cycle}
use secretgen_controller.Sharing.Exports.Returned.{
  InOrder, matched_secrets_for_import-InOrder, matched_secrets_for_import_unique,
}
use secretgen_controller.Sharing.ExportReconciler.{reconcile_export, matched_secrets_for_import}
use secretgen_controller.Sharing.ExportReconciler.Caching.{Ends, entry_for, reconcile_export-cache}
use secretgen_controller.Sharing.ExportReconciler.Safety.{KeepsCache, reconcile_export-KeepsCache}
use secretgen_controller.Sharing.ExportReconciler.WarmUp.{Returns}
use secretgen_controller.Sharing.ImportReconciler.{
  reconcile_import, copy_associated_secret, updated_reply,
}
use secretgen_controller.Sharing.ImportReconciler.Single.{reconcile_import-Returns}
use secretgen_controller.Common.Maps.{Map}
use secretgen_controller.Reconciler.Status.{done}
use secretgen_controller.Sharing.Env.{Env, Cluster}
use secretgen_controller.Sharing.Wildcards.{namespace_wildcard_exclusion_check, exclusion_ann_key}
use secretgen_controller.Sharing.DockerConfig.{
  AuthsJson, auths, new_data, docker_config_json_key, new_combined_docker_config_json,
}
use secretgen_controller.Sharing.SecretReconciler.{
  SecretStatus, image_pull_secret_ann_key, predict_want_to_reconcile, placeholder_matcher,
  filled_status, with_status, with_contents, reconcile_placeholder,
}
use secretgen_controller.Sharing.SecretReconciler.Stable.{reconcile_placeholder-settled}
use secretgen_controller.Sharing.Exports.Reachable.{
  Reachable, initial, exported, Reachable-one_match,
}
use secretgen_controller.Kube.{Client, found}
use secretgen_controller.Api.Exports.{static_to_namespaces, validate}
use secretgen_controller.Api.Exports.Valid.{IsValid, validate_iff}
use secretgen_controller.Api.Exports.{SecretExport, SecretExportStatus}
use secretgen_controller.Sharing.ExportReconciler.{bare_export}
use secretgen_controller.Sharing.Exports.Lookup.{accepted_of, matched_secrets_for_import-get}
use secretgen_controller.Sharing.Exports.{SecretExports}
use secretgen_controller.Sharing.Watches.{
  ToRequests, updated, deleted, import_requests, enqueue_secret_export,
}
use secretgen_controller.Sharing.Watches.Requested.{
  enqueue_secret_export-updated, enqueue_secret_export-deleted,
}
use secretgen_controller.Sharing.Wildcards.Excluded.{matches-excluded_ns}
use secretgen_controller.Examples.Data.{
  client, import_at, weights, weights-IsFloat64, app, secret_at, export_at, cluster, exports_named,
  secrets_named, imports_named, exports_listed, cache, cache-IsCache, env, reader, matcher, never,
}
use secretgen_controller.Api.Errors.{api, already_exists}
use secretgen_controller.Reconciler.Secrets.Copies.{IsCopy}
use secretgen_controller.Sharing.ImportReconciler.Copies.{copy_associated_secret-overwrites}

abbrev entry : ExportedSecret
entry = entry_of (export_at app) (secret_at app)

cache-AllWeighted : AllWeighted weights cache
unfolding Exports.weight_of Maps.get
cache-AllWeighted = (refl, tt)

matches_iff_example :
    (matches entry matcher never reader ≡ true) ↔ IsMatch entry matcher never reader
matches_iff_example = matches_iff entry matcher never reader

reconcile_export-cache_example :
    Ends
      (slash app.namespace app.name)
      (entry_for
        (cluster.exports.get app env.world).0
        (cluster.secrets.get app (cluster.exports.get app env.world).1).0
        (Maps.get (slash app.namespace app.name) env.cache))
      env
      (reconcile_export cluster app env)
reconcile_export-cache_example =
    reconcile_export-cache cluster env app exports_named secrets_named (λ e. ground arith)
      (λ e. ground arith)

reconcile_import-Returns_example : Returns (reconcile_import cluster app) env
reconcile_import-Returns_example =
    reconcile_import-Returns cluster app env imports_named secrets_named exports_listed
      (λ e. ground arith) cache-IsCache

matched_secrets_for_import-InOrder_example :
    (xs : List ExportedSecret) × Permᴰ xs
      (keep (λ es. matches es matcher never reader) (map (λ entry. entry.1) cache))
    × InOrder weights matcher.to_namespace xs
    × (Exports.matched_secrets_for_import weights cache matcher never reader
        ≡ map (λ (es : ExportedSecret). es.secret) xs)
matched_secrets_for_import-InOrder_example =
    matched_secrets_for_import-InOrder weights weights-IsFloat64 matcher never reader cache
      cache-AllWeighted

abbrev web : NamespacedName
web = record { namespace = codes "prod"; name = codes "web" }

abbrev web_entry : Text × ExportedSecret
web_entry = (key (export_at web), entry_of (export_at web) (secret_at web))

abbrev app_entry : Text × ExportedSecret
app_entry = (key (export_at app), entry)

two-IsCache : IsCache (app_entry ∷ web_entry ∷ [])
unfolding key text_eq
two-IsCache = record {
  is_map = ((refl, tt), (tt, tt));
  all_exported = (
    record { at_key = refl; namespace = refl; name = refl; selectors = refl },
    (record { at_key = refl; namespace = refl; name = refl; selectors = refl }, tt),
  );
}

two-AllWeighted : AllWeighted weights (app_entry ∷ web_entry ∷ [])
unfolding Exports.weight_of Maps.get
two-AllWeighted = (refl, (refl, tt))

-- An import of any name.
abbrev any_name : SecretMatcher
any_name = record matcher { from_name = [] }

one-IsSorted :
    (b : Bool) → IsSorted (sorts_before weights matcher.to_namespace) (if b then entry ∷ [] else [])
one-IsSorted true = (tt, tt)
one-IsSorted false = tt

matched_secrets_for_import_unique_example :
    Exports.matched_secrets_for_import weights cache matcher never reader
    ≡ map
        (λ (es : ExportedSecret). es.secret)
        (keep (λ es. matches es matcher never reader) (map (λ entry. entry.1) cache))
matched_secrets_for_import_unique_example =
    matched_secrets_for_import_unique weights weights-IsFloat64 matcher never reader cache
      cache-IsCache cache-AllWeighted (Permᴰ.refl _)
      (one-IsSorted (matches entry matcher never reader))

reconcile_export-KeepsCache_example : KeepsCache (reconcile_export cluster app)
reconcile_export-KeepsCache_example = reconcile_export-KeepsCache cluster app

-- Three keys that differ in weight and name only; the middle weight is not a number.
abbrev sort_key_with : Option ℕ → Text → SortKey (Option ℕ)
sort_key_with weight name = record {
  weight = weight;
  within_to_ns = false;
  matches_to_ns_exactly = true;
  secret_ns_name = name;
}

less-nan_cycle_example :
    (less weights (sort_key_with (some 1) (codes "c")) (sort_key_with none (codes "b")) ≡ true)
    × (less weights (sort_key_with none (codes "b")) (sort_key_with (some 2) (codes "a")) ≡ true)
    × (less weights (sort_key_with (some 2) (codes "a")) (sort_key_with (some 1) (codes "c"))
        ≡ true)
unfolding text_lt
less-nan_cycle_example =
    less-nan_cycle weights-IsFloat64 (sort_key_with (some 1) (codes "c"))
      (sort_key_with none (codes "b")) (sort_key_with (some 2) (codes "a")) refl refl (refl, refl)
      (refl, refl) refl refl

-- A placeholder for image pull secrets, in a cluster that was warmed up.
abbrev placeholder : Secret
placeholder = record (secret_at app) {
  meta = record (named app) { annotations = some ((image_pull_secret_ann_key, []) ∷ []) };
}

abbrev json : AuthsJson
json = record { unmarshal = λ bytes. auths []; marshal = λ all. codes "{}" }

abbrev marshal : SecretStatus → Text
marshal status = codes "status"

abbrev warm : Env ℕ
warm = record { world = 0; cache = []; warmed_up = true }

abbrev combined_data : Map Text Text
combined_data = (docker_config_json_key, codes "{}") ∷ []

placeholder-wanted : predict_want_to_reconcile placeholder ≡ true
unfolding predict_want_to_reconcile Maps.get text_eq
placeholder-wanted = refl

none_matched :
    matched_secrets_for_import cluster
      (placeholder_matcher placeholder)
      (namespace_wildcard_exclusion_check cluster.namespaces)
      warm
    ≡ (value [], warm)
unfolding matched_secrets_for_import Exports.matched_secrets_for_import
none_matched = refl

none_combined : new_combined_docker_config_json json [] ≡ new_data combined_data
unfolding new_combined_docker_config_json
none_combined = refl

reconcile_placeholder-settled_example :
    reconcile_placeholder cluster json marshal
      (with_status (marshal (filled_status [])) (with_contents combined_data placeholder))
      warm
    ≡ (value (done, none), warm)
reconcile_placeholder-settled_example =
    reconcile_placeholder-settled cluster json marshal placeholder [] combined_data warm warm
      placeholder-wanted refl (tt, tt) (tt, tt) none_matched none_combined

exported_once :
    Reachable (Exports.export (export_at app) (secret_at app) Exports.new_secret_exports).1
exported_once = exported (export_at app) (secret_at app) initial

Reachable-one_match_example :
    length (
      Exports.matched_secrets_for_import weights
        (Exports.export (export_at app) (secret_at app) Exports.new_secret_exports).1
        matcher
        never
        reader)
    ≤ 1
Reachable-one_match_example =
    Reachable-one_match weights matcher never reader exported_once (λ e. ground arith)
      (λ e. ground arith)

-- A cluster in which every secret exists.
abbrev full : Cluster ℕ (Option ℕ)
full = record cluster {
  secrets = record (cluster.secrets) {
    create = λ obj w. (some (api already_exists (codes "exists")), w);
  };
}

copy_associated_secret-overwrites_example :
    (copy : Secret) × IsCopy (import_at app).meta (secret_at app) copy
    × (copy.meta.uid ≡ [])
    × (copy.meta.resource_version ≡ [])
    × (copy_associated_secret full (import_at app) (secret_at app) env
        ≡ (value (updated_reply none), record env { world = 1 }))
copy_associated_secret-overwrites_example =
    copy_associated_secret-overwrites full (import_at app) (secret_at app) (secret_at app)
      (api already_exists (codes "exists")) env refl refl refl

abbrev excluded_namespace : Namespace
excluded_namespace = record {
  meta = record (named (record { namespace = []; name = codes "team" })) {
    annotations = some ((exclusion_ann_key, []) ∷ []);
  };
}

abbrev namespaces : Client ℕ Namespace
namespaces = client (λ k. found excluded_namespace) []

-- An export of prod/app to every namespace.
abbrev entry_for_all : ExportedSecret
entry_for_all =
    entry_of
      (record (export_at app) { spec = record ((export_at app).spec) { to_namespace = codes "*" } })
      (secret_at app)

annotation_found :
    Maps.get exclusion_ann_key (entries excluded_namespace.meta.annotations) ≡ some []
unfolding Maps.put
annotation_found = Maps.get-put_self exclusion_ann_key [] []

team_unnamed : contains (codes "team") (static_to_namespaces entry_for_all.export) ≡ false
unfolding contains static_to_namespaces text_eq
team_unnamed = refl

matches-excluded_ns_example :
    matches entry_for_all matcher (namespace_wildcard_exclusion_check namespaces 0) reader ≡ false
matches-excluded_ns_example =
    matches-excluded_ns namespaces 0 excluded_namespace [] entry_for_all matcher reader refl
      annotation_found team_unnamed refl

validate_iff_example : (validate (export_at app) ≡ none) ↔ IsValid (export_at app)
validate_iff_example = validate_iff (export_at app)

abbrev newer_export : SecretExport
newer_export = record (export_at app) {
  status = record ((export_at app).status) { observed_secret_resource_version = codes "2" };
}

-- A cluster with one import.
abbrev importing : Cluster ℕ (Option ℕ)
importing = record cluster { imports = client (λ k. found (import_at k)) (import_at app ∷ []) }

enqueue_secret_export-updated_example :
    enqueue_secret_export
      (import_requests importing)
      (updated (some (export_at app)) (some newer_export))
      env
    ≡ (value (app ∷ []), env)
enqueue_secret_export-updated_example =
    enqueue_secret_export-updated importing (export_at app) newer_export (import_at app ∷ []) env 0
      (λ e. ground (arith, ap (λ (st : SecretExportStatus). st.observed_secret_resource_version) e))
      refl

-- One request for each entry of the cache.
abbrev count_requests : ToRequests ℕ
count_requests s = (value (map (λ _. app) s.cache), s)

enqueue_secret_export-deleted_example :
    (cleared : SecretExports) × (enqueue_secret_export count_requests (deleted app) env
      ≡ count_requests (record env { cache = cleared }))
    × (Maps.get (key (bare_export app)) cleared ≡ (
        if text_eq (key (bare_export app)) (key (bare_export app))
        then none
        else Maps.get (key (bare_export app)) cache))
    × (import_requests importing (record env { cache = cleared })
        ≡ (value (app ∷ []), record env { cache = cleared; world = 0 }))
enqueue_secret_export-deleted_example =
    enqueue_secret_export-deleted importing count_requests app (import_at app ∷ []) env 0
      (key (bare_export app))
      (record { has_namespace = λ e. ground arith; has_name = λ e. ground arith }) refl

matched_secrets_for_import-get_example :
    Exports.matched_secrets_for_import weights cache matcher never reader
    ≡ map
        (λ (es : ExportedSecret). es.secret)
        (accepted_of
          (λ es. matches es matcher never reader)
          (Maps.get (slash (codes "prod") (codes "app")) cache))
matched_secrets_for_import-get_example =
    matched_secrets_for_import-get matcher never reader (λ e. ground arith) (λ e. ground arith)
      weights cache cache-IsCache
