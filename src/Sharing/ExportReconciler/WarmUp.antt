-- ===== src/Sharing/ExportReconciler/WarmUp.antt =====
-- The warm-up before the first query, and what a query reads.
use secretgen_controller.Common.{
  Text, Bool, true, false, List, [], ◌∷◌, ◌≡◌, refl, All, if◌then◌else◌,
}
use secretgen_controller.Common.Go.{Go, value, ◌>>=◌}
use secretgen_controller.Kube.{Fetched, found, failed}
use secretgen_controller.Api.{Secret}
use secretgen_controller.Api.Exports.{SecretExport, validate}
use secretgen_controller.Sharing.Exports
use secretgen_controller.Sharing.Exports.{SecretMatcher}
use secretgen_controller.Sharing.Exports.Cache.{IsCache, IsNamed}
use secretgen_controller.Sharing.Env.{Cluster, Env, reader_of}
use secretgen_controller.Sharing.ExportReconciler.{
  with_version, reconcile, warm_up_all, warm_up_found, warm_up, once, matched_secrets_for_import,
}
use secretgen_controller.Sharing.ExportReconciler.Caching.{ReturnsNamed, reconcile_validated-Ends}
use secretgen_controller.Sharing.ExportReconciler.Safety.{once-KeepsCache}

-- The action returns, and does not panic.
abbrev pub Returns : {W A : Type 0} → Go (Env W) A → Env W → Type 0
Returns {W} {A} m s = (a : A) × ((m s).0 ≡ value a)

pub Returns-bind :
    {W A B : Type 0} (m : Go (Env W) A) (f : A → Go (Env W) B) (s : Env W)
    → Returns m s
    → ((a : A) (t : Env W) → Returns (f a) t)
    → Returns (m >>= f) s
Returns-bind m f s (a, e) k = rw e (k a (m s).1)

pub Returns-if :
    {W A : Type 0} (b : Bool) (m n : Go (Env W) A) (s : Env W)
    → Returns m s
    → Returns n s
    → Returns (if b then m else n) s
Returns-if true m n s x y = x
Returns-if false m n s x y = y

-- A listed object has a name.
pub record ListsNamed {W F : Type 0} (cluster : Cluster W F) : Type 0 where
  pub list_named :
      (w : W) {es : List SecretExport} → (cluster.exports.list w).0 ≡ found es → All IsNamed es

-- A query answers from one well-formed cache, at one state of the cluster.
pub record Queried {W F : Type 0} (cluster : Cluster W F) (matcher : SecretMatcher)
    (excluded : W → Text → Bool) (secrets : List Secret) : Type 0 where
  pub env : Env W
  pub is_cache : IsCache env.cache
  pub answer :
      secrets
      ≡ Exports.matched_secrets_for_import cluster.float env.cache matcher
          (excluded env.world)
          (reader_of cluster env.world)

module _ {W F : Type 0} (cluster : Cluster W F)
    (named_secrets : ReturnsNamed cluster.secrets (λ x. x.meta)) (lists : ListsNamed cluster) where
  warm_up_all-Returns :
      (es : List SecretExport) (s : Env W) → All IsNamed es → Returns (warm_up_all cluster es) s
  unfolding warm_up_all reconcile
  warm_up_all-Returns [] s h = (tt, refl)
  warm_up_all-Returns (e ∷ es) s h =
      let cleared = with_version [] e in
      let (a, ok, _) =
        reconcile_validated-Ends cluster s named_secrets cleared (validate cleared)
          (record { has_namespace = h.0.has_namespace; has_name = h.0.has_name }) in
      Returns-bind (reconcile cluster e) (λ _. warm_up_all cluster es) s (a, ok)
        (λ _ t. warm_up_all-Returns es t h.1)

  warm_up_found-Returns :
      (answer : Fetched (List SecretExport)) (s : Env W)
      → ((es : List SecretExport) → answer ≡ found es → All IsNamed es)
      → Returns (warm_up_found cluster answer) s
  unfolding warm_up_found
  warm_up_found-Returns (failed err) s h = (tt, refl)
  warm_up_found-Returns (found es) s h = warm_up_all-Returns es s (h es refl)

  -- The warm-up does not panic: every export that it reconciles has a name.
  pub warm_up-Returns : (s : Env W) → Returns (warm_up cluster) s
  unfolding warm_up
  warm_up-Returns s =
      warm_up_found-Returns (cluster.exports.list s.world).0 _ (λ es p. lists.list_named s.world p)

  once-Returns : (warmed : Bool) (s : Env W) → Returns (once cluster warmed) s
  unfolding once
  once-Returns true s = (tt, refl)
  once-Returns false s = warm_up-Returns (record s { warmed_up = true })

  pub matched_secrets_for_import-Queried :
      (matcher : SecretMatcher) (excluded : W → Text → Bool) (s : Env W)
      → IsCache s.cache
      → (secrets : List Secret) × ((matched_secrets_for_import cluster matcher excluded s).0
          ≡ value secrets)
        × Queried cluster matcher excluded secrets
  unfolding matched_secrets_for_import
  matched_secrets_for_import-Queried matcher excluded s h =
      let (_, ok) = once-Returns s.warmed_up s in
      let env = (once cluster s.warmed_up s).1 in
      rw ok (
        _,
        refl,
        record {
          env = env;
          is_cache = (once-KeepsCache cluster s.warmed_up).at s h;
          answer = refl;
        },
      )
