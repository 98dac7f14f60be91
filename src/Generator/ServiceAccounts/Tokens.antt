-- ===== src/Generator/ServiceAccounts/Tokens.antt =====
-- Whose token a configuration carries.
use secretgen_controller.Common.{
  Text, is_empty, Option, none, some, ◌≡◌, refl, Bool-cases, inl, inr,
}
use secretgen_controller.Common.Go.{Outcome, value}
use secretgen_controller.Kube.{Fetched, found, failed}
use secretgen_controller.Api.Errors.{Error}
use secretgen_controller.Tokens.{TokenRequest, Services, State}
use secretgen_controller.Tokens.Origin.{
  IsQuote, IsIssuer, IsAnswer, Reachable, get_service_account_token-IsAnswer,
}
use secretgen_controller.Generator.ServiceAccounts.{
  RestConfig, Machine, hour_request, pool_checked, check_pool, read_ca, get_ca_cert, config_of,
  config_with, config_from, rest_config,
}

module _ {W Cl : Type 0} (services : Services W) (machine : Machine W Cl)
    (For : (name namespace : Text) → TokenRequest → Type 0) where
  -- A configuration carries the token of the account, and authorities that make a pool.
  abbrev pub IsConfigFor : (name namespace : Text) → Fetched RestConfig → Type 0
  IsConfigFor name namespace (failed err) = Unit
  IsConfigFor name namespace (found config) =
      (t : TokenRequest) × For name namespace t
      × (config.bearer_token ≡ t.token)
      × (machine.pool_error config.ca_data ≡ none)

  -- A computation of a configuration that returns.
  abbrev GivesConfigFor : (name namespace : Text) → Outcome (Fetched RestConfig) × State W → Type 0
  GivesConfigFor name namespace (outcome, s) =
      (config : Fetched RestConfig) × (outcome ≡ value config) × IsConfigFor name namespace config

  check_pool_lem :
      (cfg : RestConfig) (t : TokenRequest) (name namespace : Text) (ca : Fetched Text)
      → For name namespace t
      → IsConfigFor name namespace
          (config_of services machine cfg t (check_pool services machine ca))
  unfolding check_pool config_of
  check_pool_lem cfg t name namespace (failed err) for = tt
  check_pool_lem cfg t name namespace (found ca_data) for =
      by_pool (machine.pool_error ca_data) refl
    where
      by_pool :
          (err : Option Error)
          → machine.pool_error ca_data ≡ err
          → IsConfigFor name namespace
              (config_of services machine cfg t (pool_checked services machine ca_data err))
      by_pool none ok = unfold pool_checked in (t, for, refl, ok)
      by_pool (some err) bad = unfold pool_checked in tt

  config_with-Gives :
      (cfg : RestConfig) (answer : Fetched TokenRequest) (name namespace : Text) (s : State W)
      → IsAnswer services For name namespace answer
      → GivesConfigFor name namespace (config_with services machine cfg answer s)
  unfolding config_with get_ca_cert read_ca
  config_with-Gives cfg (failed err) name namespace s for = (_, refl, tt)
  config_with-Gives cfg (found t) name namespace s for = elim (Bool-cases (is_empty cfg.ca_file)) [
    | inl data_only ↦
        rw data_only (_, refl, check_pool_lem cfg t name namespace (found cfg.ca_data) for)
    | inr file ↦
        rw file (
          _,
          refl,
          check_pool_lem cfg t name namespace (machine.read_file cfg.ca_file s.world).0 for,
        )
  ]

  -- The loader's configurations act for the account that they are asked for: the bearer token is one that
  -- the API issued for the account of that name and namespace, whatever the manager was asked before; and
  -- the authorities are ones that a pool is made of. Every call returns.
  pub rest_config-IsConfigFor :
      (quotes : IsQuote services.quote) (issuer : IsIssuer services For) {s : State W}
      (sa_name sa_namespace : Text)
      → Reachable services s
      → (config : Fetched RestConfig) × ((rest_config services machine sa_name sa_namespace s).0
          ≡ value config)
        × IsConfigFor sa_name sa_namespace config
  unfolding rest_config
  rest_config-IsConfigFor quotes issuer {s} sa_name sa_namespace r =
      by_config (machine.get_config s.world).0 (record s { world = (machine.get_config s.world).1 })
        (Reachable.elsewhere (machine.get_config s.world).1 r)
    where
      by_config :
          (cfg : Fetched RestConfig) (s : State W)
          → Reachable services s
          → GivesConfigFor sa_name sa_namespace
              (config_from services machine sa_name sa_namespace cfg s)
      by_config (failed err) s r = unfold config_from in (_, refl, tt)
      by_config (found cfg) s r =
          let (answer, ok, for) =
            get_service_account_token-IsAnswer services For quotes issuer sa_namespace sa_name
              hour_request r in
          unfold config_from in rw ok (config_with-Gives cfg answer sa_name sa_namespace _ for)
