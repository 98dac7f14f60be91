-- ===== src/Examples/Texts.antt =====
-- The theorems of Expansion, Reconciler and the registry credentials at short texts.
use secretgen_controller.Common.{
  Text, codes, text_eq, text_eq_instance, true, false, none, some, [], ◌∷◌, ◌++◌, map, ◌≡◌, refl,
  subst, arith, length, take, ltb, if◌then◌else◌,
}
use secretgen_controller.Common.Maps
use secretgen_controller.Common.Maps.{Map}
use secretgen_controller.Api.{Secret, slash}
use secretgen_controller.Api.Errors.{Error, plain, terminal, error_text, errorf}
use secretgen_controller.Expansion.{expand}
use secretgen_controller.Expansion.Grammar.{Open, Expands}
use secretgen_controller.Expansion.Total.{expand-Expands}
use secretgen_controller.Reconciler.Status.{
  done, again, friendly_err_msg, is_reconcile_succeeded, with_reconcile_completed,
}
use secretgen_controller.Api.Conditions.{GenericStatus, reconcile_failed}
use secretgen_controller.Reconciler.Status.Messages.{
  first_line, has_newline, friendly_err_msg_lem, with_reconcile_completed_lem,
}
use secretgen_controller.Reconciler.Secrets.{SecretTemplate, OwnedSecret}
use secretgen_controller.Reconciler.Secrets.Templates.{variable_entry}
use secretgen_controller.Sharing.DockerConfig.{
  Auths, AuthsJson, Decoded, auths, invalid, docker_config_json_key, secret_data, new_data,
  bad_data, new_combined_docker_config_json,
}
use secretgen_controller.Sharing.DockerConfig.Merging.{
  IsAuthsJson, AllDecode, last_auth, new_combined_docker_config_json_lem,
  new_combined_docker_config_json-invalid,
}
use secretgen_controller.Examples.Data.{app, secret_at}

expand-Expands_example :
    (out : Text) × (expand (codes "a$(b)") (λ name. codes "c") ≡ some out)
    × Expands (λ name. codes "c") (codes "a$(b)") out
expand-Expands_example = expand-Expands (codes "a$(b)") (λ name. codes "c")

b-Open : Open (codes "b")
b-Open = ground arith

friendly_err_msg_lem_example : friendly_err_msg (codes "no\nyes") ≡ (
    if ltb 80 (length (first_line (codes "no\nyes")))
    then take 80 (first_line (codes "no\nyes")) ++ codes "..."
    else if has_newline (codes "no\nyes")
    then first_line (codes "no\nyes") ++ codes "..."
    else codes "no\nyes")
friendly_err_msg_lem_example = friendly_err_msg_lem (codes "no\nyes")

abbrev template : SecretTemplate
template = record {
  metadata = record { annotations = none; labels = none };
  type = [];
  string_data = some (map variable_entry ((codes "password", codes "value") ∷ []));
}

abbrev owned : OwnedSecret
owned = record { secret = secret_at app; values = (codes "value", codes "secret") ∷ [] }

value-Open : Open (codes "value")
value-Open = ground arith

value-found : Maps.get (codes "value") owned.values ≡ some (codes "secret")
unfolding Maps.get text_eq
value-found = refl

-- A decoder of texts that are not empty.
abbrev decode : Text → Decoded
decode [] = invalid (plain (codes "unexpected end of JSON input"))
decode (c ∷ t) =
    auths ((codes "registry", record { username = c ∷ t; password = []; auth = [] }) ∷ [])

abbrev json : AuthsJson
json = record { unmarshal = decode; marshal = λ all. codes "{}" }

abbrev map_of : Decoded → Auths
map_of (auths m) = m
map_of (invalid err) = []

decode-IsMap : (bytes : Text) → Maps.IsMap (map_of (decode bytes))
decode-IsMap [] = tt
decode-IsMap (c ∷ t) = (tt, tt)

json-IsAuthsJson : IsAuthsJson json
json-IsAuthsJson = record {
  decoded_map = λ bytes h. subst (λ d. Maps.IsMap (map_of d)) h (decode-IsMap bytes);
}

abbrev empty_secret : Secret
empty_secret = record (secret_at app) { contents = none }

app-decodes : AllDecode json (secret_at app ∷ [])
unfolding secret_data Maps.get text_eq
app-decodes = ((_, refl), tt)

empty-invalid :
    json.unmarshal (secret_data empty_secret)
    ≡ invalid (plain (codes "unexpected end of JSON input"))
unfolding secret_data Maps.get
empty-invalid = refl

new_combined_docker_config_json_lem_example :
    (all : Auths) × (new_combined_docker_config_json json (secret_at app ∷ [])
      ≡ new_data ((docker_config_json_key, json.marshal all) ∷ []))
    × ((server : Text) → Maps.get server all ≡ last_auth json server (secret_at app ∷ []))
new_combined_docker_config_json_lem_example =
    new_combined_docker_config_json_lem json (secret_at app ∷ []) json-IsAuthsJson app-decodes

new_combined_docker_config_json-invalid_example :
    new_combined_docker_config_json json ((secret_at app ∷ []) ++ (empty_secret ∷ []))
    ≡ bad_data (
        errorf
          (codes "Unmarshaling secret '" ++ (slash (codes "prod") (codes "app") ++ codes "'"))
          (plain (codes "unexpected end of JSON input")))
new_combined_docker_config_json-invalid_example =
    new_combined_docker_config_json-invalid json (secret_at app ∷ []) empty_secret []
      (plain (codes "unexpected end of JSON input")) app-decodes empty-invalid

abbrev bad_input : Error
bad_input = terminal (plain (codes "bad"))

abbrev old_status : GenericStatus
old_status = record { observed_generation = 7; conditions = []; friendly_description = [] }

with_reconcile_completed_lem_example :
    ((with_reconcile_completed (again, some bad_input) old_status).1.conditions
      ≡ record { type = reconcile_failed; status = true; reason = []; message = codes "bad" } ∷ [])
    × ((with_reconcile_completed (again, some bad_input) old_status).1.observed_generation ≡ 7)
    × ((with_reconcile_completed (again, some bad_input) old_status).0 ≡ (done, none))
    × (is_reconcile_succeeded (with_reconcile_completed (again, some bad_input) old_status).1
        ≡ false)
unfolding error_text
with_reconcile_completed_lem_example =
    with_reconcile_completed_lem again (some bad_input) old_status
