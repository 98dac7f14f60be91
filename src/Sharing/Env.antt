-- ===== src/Sharing/Env.antt =====
-- What the three sharing reconcilers stand on: the cluster, and the cache that they share.
use secretgen_controller.Common.{Text, Bool, Option, none, some, []}
use secretgen_controller.Common.Go.{Go, Outcome}
use secretgen_controller.Kube.{Client, Fetched, found, failed}
use secretgen_controller.Api.{Namespace, Secret}
use secretgen_controller.Api.Exports.{SecretExport}
use secretgen_controller.Api.Imports.{SecretImport}
use secretgen_controller.Reconciler.Secrets.{SetControllerReference}
use secretgen_controller.Sharing.Floats.{Float64}
use secretgen_controller.Sharing.Exports.{SecretExports, K8sReader}

-- Everything that is not in this repository.
pub record Cluster (W F : Type 0) : Type 0 where
  pub secrets : Client W Secret
  pub exports : Client W SecretExport
  pub imports : Client W SecretImport
  pub namespaces : Client W Namespace
  pub jsonpath : Text → Namespace → Option Text
  pub set_reference : SetControllerReference
  pub float : Float64 F

-- The cluster's state, SecretExports, and the sync.Once of SecretExportsWarmedUp.
pub record Env (W : Type 0) : Type 0 where
  pub world : W
  pub cache : SecretExports
  pub warmed_up : Bool

abbrev pub on_cache : {W A : Type 0} → Go SecretExports A → Go (Env W) A
on_cache m s = let (r, cache) = m s.cache in (r, record s { cache = cache })

abbrev pub on_world : {W A : Type 0} → (W → A × W) → Go (Env W) A
on_world f s = let (a, world) = f s.world in (Outcome.value a, record s { world = world })

abbrev namespace_of : Fetched Namespace → Option Namespace
namespace_of (found ns) = some ns
namespace_of (failed err) = none

-- The reads of namespaces during one call, at the cluster's state then.
abbrev pub reader_of : {W F : Type 0} → Cluster W F → W → K8sReader
reader_of cluster world = record {
  get_namespace =
      λ ns. namespace_of (cluster.namespaces.get (record { namespace = []; name = ns }) world).0;
  jsonpath = cluster.jsonpath;
}
