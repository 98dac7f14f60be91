-- ===== src/Generator/SecretTemplate/Accounts.antt =====
-- The SecretTemplateReconciler as cmd/controller/main.go builds it: its clients for service accounts are
-- those of the ServiceAccountLoader, over the token manager.
use secretgen_controller.Common.{Text, codes, text_eq_instance, [], ◌≡◌}
use secretgen_controller.Common.Maps.{Map}
use secretgen_controller.Common.Go.{Outcome, value, panicked}
use secretgen_controller.Kube.{Fetched, found, failed}
use secretgen_controller.Api.Errors.{plain, errorf}
use secretgen_controller.Api.Templates.{SecretTemplate}
use secretgen_controller.Tokens.{TokenRequest, Services, State}
use secretgen_controller.Generator.ServiceAccounts
use secretgen_controller.Generator.ServiceAccounts.{RestConfig, Machine, rest_config}
use secretgen_controller.Generator.ServiceAccounts.Tokens.{IsConfigFor}
use secretgen_controller.Generator.SecretTemplate.Inputs.{
  Reader, Surroundings, Env, resolve_input_resources,
}
use secretgen_controller.Generator.SecretTemplate.Delegated.{ReadsBy}

-- The loader returns a client or an error. A panic would end the call.
abbrev pub loaded : {A : Type 0} → Outcome (Fetched A) → Fetched A
loaded (value answer) = answer
loaded (panicked message) = failed (plain message)

-- The readers of a cluster with a token manager.
abbrev pub AccountReader : (W J : Type 0) → Type 0
AccountReader W J = Reader (State W) J

module _ {W J : Type 0} (services : Services W) (machine : Machine W (AccountReader W J)) where
  unfoldable pub load_client :
      (name namespace : Text) → State W → Fetched (AccountReader W J) × State W
  load_client name namespace s =
      let (outcome, s') = ServiceAccounts.client services machine name namespace s in
      (loaded outcome, s')

  abbrev pub with_loader : Surroundings (State W) J → Surroundings (State W) J
  unfolding load_client
  with_loader around = record around { load_client = load_client }

  -- How resolveInputResources ends, by the client that was loaded.
  abbrev pub EndsWith :
      Surroundings (State W) J
      → SecretTemplate
      → Env (State W)
      → Fetched (AccountReader W J)
      → Type 0
  EndsWith around t s (failed err) =
      (w : State W) × (resolve_input_resources (with_loader around) t s ≡ (
        value (failed (errorf (codes "unable to load client for reading Input Resources") err)),
        record s { world = w },
      ))
  EndsWith around t s (found reader) =
      (w : State W) × (w' : State W) × (result : Fetched (Map Text J)) × ReadsBy
        (with_loader around) reader t.meta.namespace t.spec.input_resources [] w result w'
      × (resolve_input_resources (with_loader around) t s ≡ (value result, record s { world = w' }))

module _ {W J : Type 0} (services : Services W) (machine : Machine W (AccountReader W J))
    (For : (name namespace : Text) → TokenRequest → Type 0) where
  -- A client that was made from a configuration with a token of the account.
  abbrev pub IsClientFor : (name namespace : Text) → Fetched (AccountReader W J) → Type 0
  IsClientFor name namespace (failed err) = Unit
  IsClientFor name namespace (found reader) =
      (config : RestConfig) × (w : W) × IsConfigFor services machine For name namespace
        (found config)
      × ((machine.new_client config w).0 ≡ found reader)

  abbrev GivesClientFor :
      (name namespace : Text) → Outcome (Fetched (AccountReader W J)) × State W → Type 0
  GivesClientFor name namespace (outcome, s) =
      (answer : Fetched (AccountReader W J)) × (outcome ≡ value answer)
      × IsClientFor name namespace answer
