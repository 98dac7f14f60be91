-- ===== src/Generator/ServiceAccounts.antt =====
-- ServiceAccountLoader of pkg/generator/service_account_loader.go, with the token manager of pkg/satoken.
-- The controller's own configuration, the files, certutil.NewPoolFromBytes and client.New are parameters.
pub mod Tokens
use secretgen_controller.Common.{
  ℕ, Text, codes, is_empty, Bool, Option, none, some, List, [], ◌∷◌, if◌then◌else◌,
}
use secretgen_controller.Common.Go.{Go, Outcome, value, pure, ◌>>=◌}
use secretgen_controller.Kube.{Fetched, found, failed}
use secretgen_controller.Api.Errors.{Error, errorf}
use secretgen_controller.Tokens.{TokenRequest, Services, State, on_world, get_service_account_token}

-- The fields of rest.Config that are used.
pub record RestConfig : Type 0 where
  pub host : Text
  pub ca_data : Text
  pub ca_file : Text
  pub bearer_token : Text

pub record Machine (W Cl : Type 0) : Type 0 where
  pub get_config : W → Fetched RestConfig × W
  pub read_file : Text → W → Fetched Text × W
  -- The error of NewPoolFromBytes.
  pub pool_error : Text → Option Error
  pub new_client : RestConfig → W → Fetched Cl × W

-- One hour.
abbrev pub hour_request : TokenRequest
hour_request = record { expiration_seconds = some 3600; token = []; expiration_timestamp = 0 }

module _ {W Cl : Type 0} (services : Services W) (machine : Machine W Cl) where
  unfoldable pub pool_checked : Text → Option Error → Fetched Text
  pool_checked ca_data none = found ca_data
  pool_checked ca_data (some err) =
      failed (errorf (codes "expected to load root CA config, but got err") err)

  unfoldable pub check_pool : Fetched Text → Fetched Text
  unfolding pool_checked
  check_pool (failed err) = failed err
  check_pool (found ca_data) = pool_checked ca_data (machine.pool_error ca_data)

  unfoldable pub read_ca : RestConfig → Go (State W) (Fetched Text)
  read_ca cfg =
      if is_empty cfg.ca_file
      then pure (found cfg.ca_data)
      else on_world (machine.read_file cfg.ca_file)

  -- The file goes before the data.
  unfoldable pub get_ca_cert : RestConfig → Go (State W) (Fetched Text)
  unfolding read_ca check_pool
  get_ca_cert cfg = do ca_data ← read_ca cfg; pure (check_pool ca_data)

  unfoldable pub config_of : RestConfig → TokenRequest → Fetched Text → Fetched RestConfig
  config_of cfg tr (failed err) = failed err
  config_of cfg tr (found ca_data) =
      found (record { host = cfg.host; ca_data = ca_data; ca_file = []; bearer_token = tr.token })

  unfoldable pub config_with : RestConfig → Fetched TokenRequest → Go (State W) (Fetched RestConfig)
  unfolding get_ca_cert config_of
  config_with cfg (failed err) = pure (failed err)
  config_with cfg (found tr) = do ca_data ← get_ca_cert cfg; pure (config_of cfg tr ca_data)

  unfoldable pub config_from :
      (sa_name sa_namespace : Text) → Fetched RestConfig → Go (State W) (Fetched RestConfig)
  unfolding config_with get_service_account_token
  config_from sa_name sa_namespace (failed err) = pure (failed err)
  config_from sa_name sa_namespace (found cfg) = do
    tr ← get_service_account_token services sa_namespace sa_name hour_request
    config_with cfg tr

  unfoldable pub rest_config : (sa_name sa_namespace : Text) → Go (State W) (Fetched RestConfig)
  unfolding config_from
  rest_config sa_name sa_namespace = do
    cfg ← on_world machine.get_config
    config_from sa_name sa_namespace cfg

  unfoldable pub client_with : Fetched RestConfig → Go (State W) (Fetched Cl)
  client_with (failed err) = pure (failed err)
  client_with (found config) = on_world (machine.new_client config)

  unfoldable pub client : (sa_name sa_namespace : Text) → Go (State W) (Fetched Cl)
  unfolding client_with rest_config
  client sa_name sa_namespace = do config ← rest_config sa_name sa_namespace; client_with config
