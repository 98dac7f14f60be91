-- ===== src/Sharing/Exports/Reachable.antt =====
-- The states of the cache: the lock makes each call one step, so whatever the reconcilers that run at
-- once do, the cache went through a sequence of calls of Export and Unexport.
use secretgen_controller.Common.{Text, Bool, [], ◌≢◌, ◌≤◌, length}
use secretgen_controller.Api.{Secret}
use secretgen_controller.Api.Exports.{SecretExport}
use secretgen_controller.Sharing.Floats.{Float64}
use secretgen_controller.Sharing.Exports.{
  SecretExports, SecretMatcher, K8sReader, new_secret_exports, export, unexport,
  matched_secrets_for_import,
}
use secretgen_controller.Sharing.Exports.Cache.{IsCache, export-IsCache, unexport-IsCache}
use secretgen_controller.Sharing.Exports.Single.{length-matched_secrets_for_import-le-one}

-- Any arguments, also those that a call panics on.
pub data Reachable : SecretExports → Type 0 where
  initial : Reachable new_secret_exports
  exported :
      {cache : SecretExports} (e : SecretExport) (s : Secret)
      → Reachable cache
      → Reachable (export e s cache).1
  unexported :
      {cache : SecretExports} (e : SecretExport) → Reachable cache → Reachable (unexport e cache).1

pub Reachable-IsCache : {cache : SecretExports} → Reachable cache → IsCache cache
Reachable-IsCache initial = record { is_map = tt; all_exported = tt }
Reachable-IsCache (exported {cache} e s r) = export-IsCache e s cache (Reachable-IsCache r)
Reachable-IsCache (unexported {cache} e r) = unexport-IsCache e cache (Reachable-IsCache r)

-- Whatever calls of Export and Unexport were made, in whatever order, at most one secret of the cache
-- matches a name and a namespace.
pub Reachable-one_match :
    {F : Type 0} (float : Float64 F) {cache : SecretExports} (matcher : SecretMatcher)
    (excluded : Text → Bool) (reader : K8sReader)
    → Reachable cache
    → matcher.from_name ≢ []
    → matcher.from_namespace ≢ []
    → length (matched_secrets_for_import float cache matcher excluded reader) ≤ 1
Reachable-one_match float {cache} matcher excluded reader r name ns =
    length-matched_secrets_for_import-le-one float cache matcher excluded reader
      (Reachable-IsCache r) name ns
