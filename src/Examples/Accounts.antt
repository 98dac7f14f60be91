-- ===== src/Examples/Accounts.antt =====
-- The theorems of Tokens, Generator/ServiceAccounts and Controller at a manager that has issued a token.
use secretgen_controller.Common.{
  ℕ, suc, Text, codes, true, false, none, some, [], ◌∷◌, ◌++◌, ◌≡◌, ◌↔◌, refl, sym, ap, arith,
}
use secretgen_controller.Common.Go.{Outcome, value}
use secretgen_controller.Kube.{Client, Fetched, found, failed}
use secretgen_controller.Api.{named}
use secretgen_controller.Api.Errors.{plain}
use secretgen_controller.Api.Templates.{SecretTemplate}
use secretgen_controller.Examples.Data.{app, no_status, missing}
use secretgen_controller.Tokens.{
  TokenRequest, Services, State, get_service_account_token, reviewed, requires_refresh,
}
use secretgen_controller.Tokens.Origin.{
  IsQuote, IsIssuer, IsAnswer, Reachable, started, asked, get_service_account_token-IsAnswer,
}
use secretgen_controller.Tokens.Freshness.{IsFresh, world_reviewed, requires_refresh_iff}
use secretgen_controller.Generator.ServiceAccounts.{RestConfig, Machine}
use secretgen_controller.Generator.SecretTemplate.Inputs.{Surroundings, Env}
use secretgen_controller.Generator.SecretTemplate.Accounts.{AccountReader}
use secretgen_controller.Controller.{Runtime, main}
use secretgen_controller.Controller.Runs.{Runs, main-Runs}

-- Each byte behind a one, and a zero at the end.
abbrev marked : Text → Text
marked [] = 0 ∷ []
marked (c ∷ s) = 1 ∷ c ∷ marked s

marked-ends : (a b s t : Text) → marked a ++ s ≡ marked b ++ t → a ≡ b
marked-ends [] [] s t h = refl
marked-ends [] (d ∷ b) s t h = absurd (ground (arith, h))
marked-ends (c ∷ a) [] s t h = absurd (ground (arith, h))
marked-ends (c ∷ a) (d ∷ b) s t h = ground (arith, h, marked-ends a b s t (ground (arith, h)))

-- A token is the name and the namespace of its account.
abbrev token_for : (name namespace : Text) → TokenRequest → TokenRequest
token_for name namespace tr = record tr {
  token = name ++ namespace;
  expiration_timestamp = 9000000000000;
}

abbrev services : Services ℕ
services = record {
  get_token = λ name namespace tr w. (found (token_for name namespace tr), suc w);
  review_token = λ token w. (found true, suc w);
  now = λ w. (w, suc w);
  jitter = λ w. (0, suc w);
  quote = marked;
}

abbrev For : (name namespace : Text) → TokenRequest → Type 0
For name namespace t = t.token ≡ name ++ namespace

abbrev token_or : Text → Fetched TokenRequest → Text
token_or other (found t) = t.token
token_or other (failed err) = other

quotes : IsQuote services.quote
quotes = record { ends = marked-ends }

issuer : IsIssuer services For
issuer = record { issued = λ name namespace tr w {t} h. sym (ap (token_or (name ++ namespace)) h) }

abbrev an_hour : TokenRequest
an_hour = record { expiration_seconds = some 3600; token = []; expiration_timestamp = 0 }

abbrev first_state : State ℕ
first_state = record { world = 0; cache = [] }

-- Behind a call for another account, and a cleanup.
used :
    Reachable services
      (get_service_account_token services (codes "prod") (codes "builder") an_hour first_state).1
used = asked (codes "prod") (codes "builder") an_hour (started 0)

get_service_account_token-IsAnswer_example :
    (answer : Fetched TokenRequest) × ((get_service_account_token services
        (codes "prod")
        (codes "reader")
        an_hour
        (get_service_account_token services
          (codes "prod")
          (codes "builder")
          an_hour
          first_state).1).0
      ≡ value answer)
    × IsAnswer services For (codes "reader") (codes "prod") answer
get_service_account_token-IsAnswer_example =
    get_service_account_token-IsAnswer services For quotes issuer (codes "prod") (codes "reader")
      an_hour used

requires_refresh_iff_example : ((requires_refresh services an_hour first_state).0 ≡ value false) ↔ (
    (reviewed (services.review_token an_hour.token first_state.world).0 ≡ true)
    × IsFresh
        (services.now (world_reviewed services an_hour first_state.world)).0
        an_hour.expiration_timestamp
        3600
        (services.jitter (services.now (world_reviewed services an_hour first_state.world)).1).0)
requires_refresh_iff_example = requires_refresh_iff services an_hour 3600 first_state refl

-- A cluster in which nothing is found and every write succeeds.
abbrev idle : {W Obj : Type 0} → Client W Obj
idle = record {
  get = λ k w. (missing, w);
  list = λ w. (found [], w);
  list_in = λ ns w. (found [], w);
  create = λ obj w. (none, w);
  update = λ obj w. (none, w);
  delete = λ k w. (none, w);
  update_status = λ obj w. (none, w);
}

abbrev around : Surroundings (State ℕ) Text
around = record {
  templates = idle;
  reader = λ gvk k w. (missing, w);
  load_client = λ name namespace w. (missing, w);
  execute_path = λ path values. found path;
  parse_group_version = λ version. found ([], version);
  decode_base64 = λ text. found text;
  create_or_update = λ secret f w. (f secret, w);
  own = λ owner references. found references;
}

-- A client reads the token that it was made with.
abbrev token_reader : RestConfig → AccountReader ℕ Text
token_reader config gvk k s = (found config.bearer_token, s)

abbrev machine : Machine ℕ (AccountReader ℕ Text)
machine = record {
  get_config = λ w. (
    found (record {
      host = codes "host";
      ca_data = codes "authority";
      ca_file = [];
      bearer_token = [];
    }),
    w,
  );
  read_file = λ name w. (found [], w);
  pool_error = λ ca_data. none;
  new_client = λ config w. (found (token_reader config), w);
}

abbrev template : SecretTemplate
template = record {
  meta = named app;
  spec = record {
    input_resources =
        record {
          name = codes "creds";
          ref = record { api_version = codes "v1"; kind = codes "ConfigMap"; name = codes "db" };
        }
        ∷ [];
    json_path_template = none;
    service_account_name = codes "reader";
  };
  status = record {
    secret_name = [];
    generic_status = no_status;
    observed_secret_resource_version = [];
  };
}

abbrev used_env : Env (State ℕ)
used_env = record {
  world =
      (get_service_account_token services (codes "prod") (codes "builder") an_hour first_state).1;
  tracker = [];
}

-- Every call is counted, and succeeds until the manager ends.
abbrev runtime : Runtime ℕ Text
runtime = record {
  new_manager = λ w. (none, suc w);
  new_core_client = λ w. (none, suc w);
  new_sg_client = λ w. (none, suc w);
  new_controller = λ name reconciler limiter w. (found name, suc w);
  watch = λ ctrl x w. (none, suc w);
  start = λ w. (some (plain (codes "stopped")), suc w);
}

main-Runs_example :
    (outcome : Outcome (Unit {0})) × (w' : ℕ) × (main runtime 0 ≡ (outcome, w'))
    × Runs runtime 0 outcome w'
main-Runs_example = main-Runs runtime 0
