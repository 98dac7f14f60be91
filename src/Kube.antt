-- ===== src/Kube.antt =====
-- The Kubernetes API as the controllers use it: sigs.k8s.io/controller-runtime's client.Client and
-- client-go's clientsets are parameters of the model. Every call takes the state of the cluster and
-- returns the state that it leaves, so what others do meanwhile is part of a call.
use secretgen_controller.Common.{Text, Option, List}
use secretgen_controller.Api.{NamespacedName}
use secretgen_controller.Api.Errors.{Error}

pub data Fetched (A : Type 0) : Type 0 where
  found : A → Fetched A
  failed : Error → Fetched A

-- The calls for one kind of object.
pub record Client (W Obj : Type 0) : Type 0 where
  pub get : NamespacedName → W → Fetched Obj × W
  pub list : W → Fetched (List Obj) × W
  -- List with client.InNamespace.
  pub list_in : Text → W → Fetched (List Obj) × W
  pub create : Obj → W → Option Error × W
  pub update : Obj → W → Option Error × W
  pub delete : NamespacedName → W → Option Error × W
  pub update_status : Obj → W → Option Error × W
