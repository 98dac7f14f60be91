-- ===== src/Sharing/DockerConfig.antt =====
-- NewCombinedDockerConfigJSON of pkg/sharing/dockerconfigjson.go. encoding/json on the secret's bytes
-- is a parameter.
pub mod Merging
use secretgen_controller.Common.{
  Text, codes, text_eq_instance, Option, none, some, List, [], ◌∷◌, ◌++◌,
}
use secretgen_controller.Common.Maps
use secretgen_controller.Common.Maps.{Map}
use secretgen_controller.Api.{Secret, entries, slash}
use secretgen_controller.Api.Errors.{Error, plain, errorf}

pub record AuthConf : Type 0 where
  pub username : Text
  pub password : Text
  pub auth : Text

-- authsConf.
abbrev pub Auths : Type 0
Auths = Map Text AuthConf

pub data Decoded : Type 0 where
  auths : Auths → Decoded
  invalid : Error → Decoded

-- json.Unmarshal and json.Marshal at authsConf.
pub record AuthsJson : Type 0 where
  pub unmarshal : Text → Decoded
  pub marshal : Auths → Text

pub data Combined : Type 0 where
  combined : Auths → Combined
  not_combined : Error → Combined

-- The map for the secret's data, or an error.
pub data CombinedData : Type 0 where
  new_data : Map Text Text → CombinedData
  bad_data : Error → CombinedData

abbrev pub docker_config_json_key : Text
docker_config_json_key = codes ".dockerconfigjson"

-- `for server, auth := range auths.Auths { combined.Auths[server] = auth }`.
unfoldable pub put_auths : Auths → Auths → Auths
put_auths [] all = all
put_auths ((server, auth) ∷ rest) all = put_auths rest (Maps.put server auth all)

-- A missing entry reads as no bytes.
data_at : Option Text → Text
data_at none = []
data_at (some bytes) = bytes

unfoldable pub secret_data : Secret → Text
unfolding data_at
secret_data secret = data_at (Maps.get docker_config_json_key (entries secret.contents))

module _ (json : AuthsJson) where
  combine_decoded : (Auths → Combined) → Secret → Decoded → Auths → Combined
  unfolding put_auths
  combine_decoded next secret (invalid err) all = not_combined (
      errorf
        (codes "Unmarshaling secret '"
          ++ (slash secret.meta.namespace secret.meta.name ++ codes "'"))
        err)
  combine_decoded next secret (auths these) all = next (put_auths these all)

  unfoldable pub combine : List Secret → Auths → Combined
  unfolding combine_decoded secret_data
  combine [] all = combined all
  combine (secret ∷ secrets) all =
      combine_decoded (combine secrets) secret (json.unmarshal (secret_data secret)) all

  encode : Combined → CombinedData
  encode (combined all) = new_data ((docker_config_json_key, json.marshal all) ∷ [])
  encode (not_combined err) = bad_data err

  unfoldable pub new_combined_docker_config_json : List Secret → CombinedData
  unfolding combine encode
  new_combined_docker_config_json secrets = encode (combine secrets [])
