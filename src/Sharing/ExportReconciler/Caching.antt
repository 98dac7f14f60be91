-- ===== src/Sharing/ExportReconciler/Caching.antt =====
-- The entry of the cache that a reconcile leaves for its export, on every branch.
use secretgen_controller.Common.{
  ℕ, Text, text_eq, text_eq_iff, text_eq_instance, ◌≡◌, ◌≢◌, refl, sym, ap, ◌∙◌, subst, Option,
  none, some, [], if◌then◌else◌, Bool-cases, inl, inr,
}
use secretgen_controller.Common.Maps
use secretgen_controller.Common.Go.{Go, Outcome, value, pure, ◌>>=◌, ◌>>◌}
use secretgen_controller.Kube.{Client, Fetched, found, failed}
use secretgen_controller.Api.{NamespacedName, ObjectMeta, Secret, key_of, named, slash}
use secretgen_controller.Api.Errors.{Error, is_not_found}
use secretgen_controller.Api.Conditions.{GenericStatus}
use secretgen_controller.Api.Exports.{SecretExport, validate}
use secretgen_controller.Reconciler.Status.{Reply, set_reconciling}
use secretgen_controller.Sharing.Exports
use secretgen_controller.Sharing.Exports.{SecretExports, ExportedSecret, key}
use secretgen_controller.Sharing.Exports.Cache.{
  entry_of, IsNamed, IsNamedAs, get-export, get-unexport,
}
use secretgen_controller.Sharing.Env.{Cluster, Env, on_cache}
use secretgen_controller.Sharing.ExportReconciler.{
  bare_export, with_version, with_generic_status, reconcile_fetched, reconcile_validated, reconcile,
  update_status, complete, reconcile_existing, reconcile_request, reconcile_export,
}

-- Behind a step the cache holds `entry` under `k`, and what it held under every other key.
abbrev pub Records : SecretExports → SecretExports → Text → Option ExportedSecret → Type 0
Records before after k entry =
    (j : Text) → Maps.get j after ≡ (if text_eq k j then entry else Maps.get j before)

-- A step that does not panic, and records an entry.
abbrev pub Ends : {W A : Type 0} → Text → Option ExportedSecret → Env W → Outcome A × Env W → Type 0
Ends {W} {A} k entry s r = (a : A) × (r.0 ≡ value a) × Records s.cache r.1.cache k entry

Records-same : (cache : SecretExports) (k : Text) → Records cache cache k (Maps.get k cache)
Records-same cache k j = elim (Bool-cases (text_eq k j)) [
  | inl same ↦ rw (same, (text_eq_iff k j).0 same)
  | inr other ↦ rw other
]

module _ {W A : Type 0} (s : Env W) where
  Ends-pure : (k : Text) (a : A) → Ends k (Maps.get k s.cache) s (pure a s)
  Ends-pure k a = (a, refl, Records-same s.cache k)

  Ends-unexport :
      (e : SecretExport) (a : A)
      → IsNamed e
      → Ends (key e) none s ((on_cache (Exports.unexport e) >> pure a) s)
  Ends-unexport e a h =
      rw (get-unexport e s.cache [] h).0 (a, refl, λ j. (get-unexport e s.cache j h).1)

  Ends-export :
      (e : SecretExport) (secret : Secret) (a : A)
      → IsNamed e
      → IsNamedAs e secret
      → Ends (key e) (some (entry_of e secret)) s ((on_cache (Exports.export e secret) >> pure a) s)
  Ends-export e secret a h n =
      rw (get-export e secret s.cache [] h n).0
        (a, refl, λ j. (get-export e secret s.cache j h n).1)

  -- What follows may touch the cluster, and leaves the cache alone.
  Ends-bind :
      {B : Type 0} (k : Text) (entry : Option ExportedSecret) (m : Go (Env W) A)
      (f : A → Go (Env W) B)
      → Ends k entry s (m s)
      → ((a : A) (t : Env W) → (b : B) × ((f a t).0 ≡ value b) × ((f a t).1.cache ≡ t.cache))
      → Ends k entry s ((m >>= f) s)
  Ends-bind k entry m f (a, ok, rec) quiet =
      let (b, ok', same) = quiet a (m s).1 in rw ok (b, ok', rw same rec)

-- The entry that the fetched secret of a valid export calls for: none where it is missing, the old
-- one where it cannot be fetched.
abbrev pub entry_for_secret :
    SecretExport → Fetched Secret → Option ExportedSecret → Option ExportedSecret
entry_for_secret e (failed err) old = if is_not_found err then none else old
entry_for_secret e (found secret) old =
    some (entry_of (with_version secret.meta.resource_version e) secret)

abbrev pub entry_if_valid :
    SecretExport → Option Error → Fetched Secret → Option ExportedSecret → Option ExportedSecret
entry_if_valid e (some err) secret old = none
entry_if_valid e none secret old = entry_for_secret e secret old

abbrev pub entry_if_live :
    Option ℕ → SecretExport → Fetched Secret → Option ExportedSecret → Option ExportedSecret
entry_if_live (some t) e secret old = none
entry_if_live none e secret old =
    let reconciled =
      with_version [] (with_generic_status (set_reconciling e.meta e.status.generic_status) e) in
    entry_if_valid reconciled (validate reconciled) secret old

-- The entry that the answers of the API call for: none for an export that is gone, on its way out or
-- invalid.
abbrev pub entry_for :
    Fetched SecretExport → Fetched Secret → Option ExportedSecret → Option ExportedSecret
entry_for (failed err) secret old = if is_not_found err then none else old
entry_for (found e) secret old = entry_if_live e.meta.deletion_timestamp e secret old

-- A client returns the object that it was asked for.
pub record ReturnsNamed {W Obj : Type 0} (client : Client W Obj) (meta : Obj → ObjectMeta)
    : Type 0 where
  pub get_named :
      (k : NamespacedName) (w : W) {obj : Obj}
      → (client.get k w).0 ≡ found obj
      → key_of (meta obj) ≡ k

IsNamedAs-key : {e : SecretExport} {x : Secret} → key_of x.meta ≡ key_of e.meta → IsNamedAs e x
IsNamedAs-key p = record {
  namespace = ap (λ (k : NamespacedName). k.namespace) (sym p);
  name = ap (λ (k : NamespacedName). k.name) (sym p);
}

module _ {W F : Type 0} (cluster : Cluster W F) (s : Env W) where
  reconcile_fetched-Ends :
      (e : SecretExport) (secret : Fetched Secret)
      → IsNamed e
      → ((x : Secret) → secret ≡ found x → IsNamedAs e x)
      → Ends
          (key e)
          (entry_for_secret e secret (Maps.get (key e) s.cache))
          s
          (reconcile_fetched cluster e secret s)
  unfolding reconcile_fetched key
  reconcile_fetched-Ends e (found secret) h n =
      Ends-export s (with_version secret.meta.resource_version e) secret _
        (record { has_namespace = h.has_namespace; has_name = h.has_name })
        (record { namespace = (n secret refl).namespace; name = (n secret refl).name })
  reconcile_fetched-Ends e (failed err) h n = elim (Bool-cases (is_not_found err)) [
    | inl gone ↦ rw gone (Ends-unexport s e _ h)
    | inr other ↦ rw other (Ends-pure s (key e) _)
  ]

module _ {W F : Type 0} (cluster : Cluster W F) (s : Env W)
    (named_secrets : ReturnsNamed cluster.secrets (λ x. x.meta)) where
  pub reconcile_validated-Ends :
      (e : SecretExport) (invalid : Option Error)
      → IsNamed e
      → Ends
          (key e)
          (entry_if_valid e invalid
            (cluster.secrets.get (key_of e.meta) s.world).0
            (Maps.get (key e) s.cache))
          s
          (reconcile_validated cluster e invalid s)
  unfolding reconcile_validated
  reconcile_validated-Ends e (some err) h = Ends-unexport s e _ h
  reconcile_validated-Ends e none h =
      let (secret, world) = cluster.secrets.get (key_of e.meta) s.world in
      reconcile_fetched-Ends cluster (record s { world = world }) e secret h
        (λ x p. IsNamedAs-key (named_secrets.get_named (key_of e.meta) s.world p))

  quiet_update :
      (e : SecretExport) (reply : Reply) (t : Env W)
      → (b : Reply) × ((update_status cluster e reply t).0 ≡ value b)
        × ((update_status cluster e reply t).1.cache ≡ t.cache)
  unfolding update_status
  quiet_update e reply t = (_, refl, refl)

  quiet_complete :
      (st : GenericStatus) (reconciled : Reply × SecretExport) (t : Env W)
      → (b : Reply) × ((complete cluster st reconciled t).0 ≡ value b)
        × ((complete cluster st reconciled t).1.cache ≡ t.cache)
  unfolding complete
  quiet_complete st (reply, e) t = quiet_update _ _ t

  reconcile_existing-Ends :
      (deleting : Option ℕ) (e : SecretExport)
      → IsNamed e
      → Ends
          (key e)
          (entry_if_live deleting e
            (cluster.secrets.get (key_of e.meta) s.world).0
            (Maps.get (key e) s.cache))
          s
          (reconcile_existing cluster deleting e s)
  unfolding reconcile_existing reconcile key
  reconcile_existing-Ends (some t) e h = Ends-unexport s e _ h
  reconcile_existing-Ends none e h =
      let st = set_reconciling e.meta e.status.generic_status in
      let started = with_version [] (with_generic_status st e) in
      Ends-bind s (key e) _ (reconcile_validated cluster started (validate started))
        (complete cluster st)
        (reconcile_validated-Ends started (validate started)
          (record { has_namespace = h.has_namespace; has_name = h.has_name }))
        (quiet_complete st)

  reconcile_request-Ends :
      (request : NamespacedName) (answer : Fetched SecretExport)
      → request.namespace ≢ []
      → request.name ≢ []
      → ((e : SecretExport) → answer ≡ found e → key_of e.meta ≡ request)
      → Ends
          (slash request.namespace request.name)
          (entry_for answer
            (cluster.secrets.get request s.world).0
            (Maps.get (slash request.namespace request.name) s.cache))
          s
          (reconcile_request cluster request answer s)
  unfolding reconcile_request key
  reconcile_request-Ends request (found e) ns name named =
      subst
        (λ (k : NamespacedName).
          Ends (slash k.namespace k.name)
            (entry_for (found e) (cluster.secrets.get k s.world).0
              (Maps.get (slash k.namespace k.name) s.cache))
            s (reconcile_request cluster k (found e) s))
        (named e refl)
        (reconcile_existing-Ends e.meta.deletion_timestamp e (record {
          has_namespace =
              λ p. ns (ap (λ (k : NamespacedName). k.namespace) (sym (named e refl)) ∙ p);
          has_name = λ p. name (ap (λ (k : NamespacedName). k.name) (sym (named e refl)) ∙ p);
        }))
  reconcile_request-Ends request (failed err) ns name named = elim (Bool-cases (is_not_found err)) [
    | inl gone ↦
        rw gone
          (Ends-unexport s (bare_export request) _ (record { has_namespace = ns; has_name = name }))
    | inr other ↦ rw other (Ends-pure s (slash request.namespace request.name) _)
  ]

-- A reconcile of a named request does not panic, and leaves in the cache, under the request's name,
-- the entry that the API's answers call for; no other entry changes.
pub reconcile_export-cache :
    {W F : Type 0} (cluster : Cluster W F) (s : Env W) (request : NamespacedName)
    → ReturnsNamed cluster.exports (λ e. e.meta)
    → ReturnsNamed cluster.secrets (λ x. x.meta)
    → request.namespace ≢ []
    → request.name ≢ []
    → Ends
        (slash request.namespace request.name)
        (entry_for
          (cluster.exports.get request s.world).0
          (cluster.secrets.get request (cluster.exports.get request s.world).1).0
          (Maps.get (slash request.namespace request.name) s.cache))
        s
        (reconcile_export cluster request s)
unfolding reconcile_export
reconcile_export-cache cluster s request exports secrets ns name =
    let (answer, world) = cluster.exports.get request s.world in
    reconcile_request-Ends cluster (record s { world = world }) secrets request answer ns name
      (λ e p. exports.get_named request s.world p)
