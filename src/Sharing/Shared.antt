-- ===== src/Sharing/Shared.antt =====
-- An export's reconcile, and the import's that follows it: secret_export_reconciler.go,
-- secret_exports.go and secret_import_reconciler.go together.
use secretgen_controller.Common.{
  text_eq_iff, text_eq_instance, true, Option, none, some, [], ◌∷◌, ◌≡◌, ◌≢◌, refl, sym, ap, ap₂,
  ◌∙◌, inl, inr, Bool-cases,
}
use secretgen_controller.Common.Maps
use secretgen_controller.Common.Go.{value}
use secretgen_controller.Kube.{found}
use secretgen_controller.Api.{NamespacedName, Secret, key_of, slash}
use secretgen_controller.Api.Exports.{SecretExport, static_to_namespaces}
use secretgen_controller.Api.Exports as ApiExports
use secretgen_controller.Api.Imports.{SecretImport}
use secretgen_controller.Api.Imports as ApiImports
use secretgen_controller.Reconciler.Status.{set_reconciling}
use secretgen_controller.Sharing.Exports
use secretgen_controller.Sharing.Exports.{
  ExportedSecret, SecretExports, SecretMatcher, K8sReader, matches,
}
use secretgen_controller.Sharing.Exports.Cache.{IsCache, entry_of}
use secretgen_controller.Sharing.Exports.Matching.{Has, IsOffered, matches_iff}
use secretgen_controller.Sharing.Exports.Lookup.{matched_secrets_for_import-get}
use secretgen_controller.Sharing.Env.{Cluster, Env, reader_of}
use secretgen_controller.Sharing.Wildcards.{namespace_wildcard_exclusion_check}
use secretgen_controller.Sharing.ExportReconciler.{
  with_version, with_generic_status, reconcile_export, once, matched_secrets_for_import,
}
use secretgen_controller.Sharing.ExportReconciler.Caching.{
  ReturnsNamed, entry_for, entry_if_live, entry_if_valid, reconcile_export-cache,
}
use secretgen_controller.Sharing.ExportReconciler.Safety.{reconcile_export-KeepsCache}
use secretgen_controller.Sharing.ImportReconciler.{
  matcher_for, reconcile_matched, reconcile_validated, reconcile, copy_associated_secret,
}
use secretgen_controller.Sharing.ImportReconciler.Unmatched.{removed, reconcile_matched-removed}

-- The export as it is kept with its secret.
abbrev kept : SecretExport → Secret → SecretExport
kept e secret =
    with_version secret.meta.resource_version
      (with_version [] (with_generic_status (set_reconciling e.meta e.status.generic_status) e))

validate-kept :
    (e : SecretExport)
    → ApiExports.validate
        (with_version [] (with_generic_status (set_reconciling e.meta e.status.generic_status) e))
      ≡ ApiExports.validate e
unfolding ApiExports.validate static_to_namespaces
validate-kept e = refl

entry_for_lem :
    (e : SecretExport) (secret : Secret) (old : Option ExportedSecret)
    → e.meta.deletion_timestamp ≡ none
    → ApiExports.validate e ≡ none
    → entry_for (found e) (found secret) old ≡ some (entry_of (kept e secret) secret)
entry_for_lem e secret old live valid =
    let started =
      with_version [] (with_generic_status (set_reconciling e.meta e.status.generic_status) e) in
    ap (λ deleting. entry_if_live deleting e (found secret) old) live
    ∙ ap (λ err. entry_if_valid started err (found secret) old) (validate-kept e ∙ valid)

-- A warmed-up state with a cache, at whatever state of the cluster.
abbrev pub warm_env : {W : Type 0} → W → SecretExports → Env W
warm_env world cache = record { world = world; cache = cache; warmed_up = true }

module _ {W F : Type 0} (cluster : Cluster W F)
    (exports : ReturnsNamed cluster.exports (λ e. e.meta))
    (secrets : ReturnsNamed cluster.secrets (λ x. x.meta)) where
  exported :
      (s : Env W) (request : NamespacedName) (e : SecretExport) (secret : Secret)
      → request.namespace ≢ []
      → request.name ≢ []
      → (cluster.exports.get request s.world).0 ≡ found e
      → (cluster.secrets.get request (cluster.exports.get request s.world).1).0 ≡ found secret
      → e.meta.deletion_timestamp ≡ none
      → ApiExports.validate e ≡ none
      → Maps.get (slash request.namespace request.name) (reconcile_export cluster request s).1.cache
        ≡ some (entry_of (kept e secret) secret)
  exported s request e secret ns name has_export has_secret live valid =
      let k = slash request.namespace request.name in
      let (reply, ok, records) = reconcile_export-cache cluster s request exports secrets ns name in
      records k
      ∙ rw ((text_eq_iff k k).1 refl, has_export, has_secret)
          (entry_for_lem e secret (Maps.get k s.cache) live valid)

  -- The query of an import, from a warmed-up cache that has an entry for its namespace.
  queried :
      (i : SecretImport) (es : ExportedSecret) (world : W) (cache : SecretExports)
      → IsCache cache
      → i.meta.name ≢ []
      → i.spec.from_namespace ≢ []
      → key_of es.secret.meta ≡ record { namespace = i.spec.from_namespace; name = i.meta.name }
      → Maps.get (slash i.spec.from_namespace i.meta.name) cache ≡ some es
      → Has i.meta.namespace (static_to_namespaces es.export)
      → matched_secrets_for_import cluster
          (matcher_for i)
          (namespace_wildcard_exclusion_check cluster.namespaces)
          (warm_env world cache)
        ≡ (value (es.secret ∷ []), warm_env world cache)
  unfolding matched_secrets_for_import once
  queried i es world cache h name ns named at_key offered =
      let excluded = namespace_wildcard_exclusion_check cluster.namespaces world in
      let matched : matches es (matcher_for i) excluded (reader_of cluster world) ≡ true =
        (matches_iff es (matcher_for i) excluded (reader_of cluster world)).1 (record {
          no_subject = refl;
          type = inl refl;
          name = inr (sym (ap (λ (k : NamespacedName). k.name) named));
          namespace = inr (sym (ap (λ (k : NamespacedName). k.namespace) named));
          offered = inl offered;
        }) in
      let all =
        matched_secrets_for_import-get (matcher_for i) excluded (reader_of cluster world) name ns
          cluster.float cache h in
      let one : Exports.matched_secrets_for_import cluster.float cache (matcher_for i) excluded
            (reader_of cluster world)
          ≡ es.secret ∷ [] =
        all ∙ rw (at_key, matched) refl in
      ap (λ xs. (value xs, warm_env world cache)) one

  -- A shared secret arrives: behind the reconcile of a valid export, for an import of its secret in a
  -- namespace that the export lists, the reconcile copies that secret. The cache has been warmed up, and
  -- the cluster may be in any state by then.
  pub reconcile-copies_exported :
      (s : Env W) (request : NamespacedName) (e : SecretExport) (secret : Secret) (i : SecretImport)
      (world : W)
      → IsCache s.cache
      → request.namespace ≢ []
      → request.name ≢ []
      → (cluster.exports.get request s.world).0 ≡ found e
      → (cluster.secrets.get request (cluster.exports.get request s.world).1).0 ≡ found secret
      → e.meta.deletion_timestamp ≡ none
      → ApiExports.validate e ≡ none
      → ApiImports.validate i ≡ none
      → record { namespace = i.spec.from_namespace; name = i.meta.name } ≡ request
      → Has i.meta.namespace (static_to_namespaces e)
      → reconcile cluster i (warm_env world (reconcile_export cluster request s).1.cache)
        ≡ copy_associated_secret cluster i secret
            (warm_env world (reconcile_export cluster request s).1.cache)
  unfolding reconcile reconcile_validated reconcile_matched static_to_namespaces
  reconcile-copies_exported s request e secret i world h ns name has_export has_secret live valid
        asked asks offered =
      let cache = (reconcile_export cluster request s).1.cache in
      let space = ap (λ (k : NamespacedName). k.namespace) asks in
      let same_name = ap (λ (k : NamespacedName). k.name) asks in
      let entry = exported s request e secret ns name has_export has_secret live valid in
      let at_key = ap₂ (λ a b. Maps.get (slash a b) cache) space same_name ∙ entry in
      let named = secrets.get_named request (cluster.exports.get request s.world).1 has_secret in
      let query =
        queried i (entry_of (kept e secret) secret) world cache
          ((reconcile_export-KeepsCache cluster request).at s h) (λ p. name (sym same_name ∙ p))
          (λ p. ns (sym space ∙ p)) (named ∙ sym asks) at_key offered in
      rw (asked, query) refl

  -- The query of an import, where the entry is not for its namespace.
  refused :
      (i : SecretImport) (es : ExportedSecret) (world : W) (cache : SecretExports)
      → IsCache cache
      → i.meta.name ≢ []
      → i.spec.from_namespace ≢ []
      → Maps.get (slash i.spec.from_namespace i.meta.name) cache ≡ some es
      → ¬ IsOffered es i.meta.namespace
          (namespace_wildcard_exclusion_check cluster.namespaces world)
          (reader_of cluster world)
      → matched_secrets_for_import cluster
          (matcher_for i)
          (namespace_wildcard_exclusion_check cluster.namespaces)
          (warm_env world cache)
        ≡ (value [], warm_env world cache)
  unfolding matched_secrets_for_import once
  refused i es world cache h name ns at_key not_offered =
      let excluded = namespace_wildcard_exclusion_check cluster.namespaces world in
      let all =
        matched_secrets_for_import-get (matcher_for i) excluded (reader_of cluster world) name ns
          cluster.float cache h in
      elim (Bool-cases (matches es (matcher_for i) excluded (reader_of cluster world))) [
        | inl taken ↦ absurd (
            not_offered
              ((matches_iff es (matcher_for i) excluded (reader_of cluster world)).0 taken).offered)
        | inr left ↦ ap (λ xs. (value xs, warm_env world cache)) (all ∙ rw (at_key, left) refl)
      ]

  -- A secret that is not shared does not arrive: behind the reconcile of a valid export, for an import of
  -- its secret in a namespace that the export is not for, by its list, by a wildcard or by its selectors,
  -- the reconcile makes one Get call for the import's secret, and where that finds it one Delete call for
  -- it, and writes nothing else. It replies that there is no match, or the error of a Delete call that failed
  -- other than by finding the secret gone. The cache has been warmed up, and stays as it is.
  pub reconcile-withholds :
      (s : Env W) (request : NamespacedName) (e : SecretExport) (secret : Secret) (i : SecretImport)
      (world : W)
      → IsCache s.cache
      → request.namespace ≢ []
      → request.name ≢ []
      → (cluster.exports.get request s.world).0 ≡ found e
      → (cluster.secrets.get request (cluster.exports.get request s.world).1).0 ≡ found secret
      → e.meta.deletion_timestamp ≡ none
      → ApiExports.validate e ≡ none
      → ApiImports.validate i ≡ none
      → record { namespace = i.spec.from_namespace; name = i.meta.name } ≡ request
      → ¬ IsOffered
          (entry_of e secret)
          i.meta.namespace
          (namespace_wildcard_exclusion_check cluster.namespaces world)
          (reader_of cluster world)
      → reconcile cluster i (warm_env world (reconcile_export cluster request s).1.cache) ≡ (
          let (reply, w) = removed cluster (cluster.secrets.get (key_of i.meta) world) in
          (value reply, warm_env w (reconcile_export cluster request s).1.cache))
  unfolding reconcile reconcile_validated static_to_namespaces
  reconcile-withholds s request e secret i world h ns name has_export has_secret live valid asked
        asks not_offered =
      let cache = (reconcile_export cluster request s).1.cache in
      let space = ap (λ (k : NamespacedName). k.namespace) asks in
      let same_name = ap (λ (k : NamespacedName). k.name) asks in
      let entry = exported s request e secret ns name has_export has_secret live valid in
      let at_key = ap₂ (λ a b. Maps.get (slash a b) cache) space same_name ∙ entry in
      let query =
        refused i (entry_of (kept e secret) secret) world cache
          ((reconcile_export-KeepsCache cluster request).at s h) (λ p. name (sym same_name ∙ p))
          (λ p. ns (sym space ∙ p)) at_key not_offered in
      rw (asked, query) (reconcile_matched-removed cluster i (warm_env world cache))
