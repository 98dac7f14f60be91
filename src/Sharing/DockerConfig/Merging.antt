-- ===== src/Sharing/DockerConfig/Merging.antt =====
-- Which credentials the combined configuration holds for each server.
use secretgen_controller.Common.{
  Text, codes, text_eq, text_eq_iff, text_eq_instance, ◌≡◌, refl, sym, ap, ◌∙◌, Option, none, some,
  List, [], ◌∷◌, ◌++◌, All, Bool-cases, inl, inr,
}
use secretgen_controller.Common.Maps
use secretgen_controller.Common.Maps.{Map, Absent, IsMap, get-put}
use secretgen_controller.Api.{Secret, slash}
use secretgen_controller.Api.Errors.{Error, errorf}
use secretgen_controller.Sharing.DockerConfig.{
  AuthConf, Auths, Decoded, auths, invalid, AuthsJson, Combined, combined, not_combined, put_auths,
  secret_data, combine_decoded, combine, new_data, bad_data, encode,
  new_combined_docker_config_json, docker_config_json_key,
}

abbrev pub or_else : Option AuthConf → Option AuthConf → Option AuthConf
or_else (some a) other = some a
or_else none other = other

abbrev pub auth_for : Text → Decoded → Option AuthConf
auth_for server (auths m) = Maps.get server m
auth_for server (invalid err) = none

-- The credentials that the last secret with the server has for it.
abbrev pub last_auth : AuthsJson → Text → List Secret → Option AuthConf
last_auth json server [] = none
last_auth json server (x ∷ xs) =
    or_else (last_auth json server xs) (auth_for server (json.unmarshal (secret_data x)))

-- A decoded Go map has each key once.
pub record IsAuthsJson (json : AuthsJson) : Type 0 where
  pub decoded_map : (bytes : Text) {m : Auths} → json.unmarshal bytes ≡ auths m → IsMap m

get-put_auths :
    (k : Text) (m all : Auths)
    → IsMap m
    → Maps.get k (put_auths m all) ≡ or_else (Maps.get k m) (Maps.get k all)
unfolding put_auths Maps.get
get-put_auths k [] all h = refl
get-put_auths k ((j, x) ∷ m) all h = elim (Bool-cases (text_eq j k)) [
  | inl same ↦
      rw (get-put_auths k m (Maps.put j x all) h.1, get-put j k x all, same)
        (rw (← (text_eq_iff j k).0 same, Maps.get-Absent j m h.0) refl)
  | inr other ↦ rw (get-put_auths k m (Maps.put j x all) h.1, get-put j k x all, other) refl
]

or_else_assoc : (a b c : Option AuthConf) → or_else a (or_else b c) ≡ or_else (or_else a b) c
or_else_assoc none b c = refl
or_else_assoc (some x) b c = refl

module _ (json : AuthsJson) (laws : IsAuthsJson json) where
  get-combine :
      (secrets : List Secret) (all result : Auths) (server : Text)
      → combine json secrets all ≡ combined result
      → Maps.get server result ≡ or_else (last_auth json server secrets) (Maps.get server all)
  unfolding combine
  get-combine [] all result server h = ap (read server) (sym h)
    where
      read : Text → Combined → Option AuthConf
      read k (combined m) = Maps.get k m
      read k (not_combined err) = none
  get-combine (x ∷ xs) all result server h =
      go (λ m. get-combine xs (put_auths m all) result server) (json.unmarshal (secret_data x)) refl
        h
    where
      go :
          ((m : Auths)
            → combine json xs (put_auths m all) ≡ combined result
            → Maps.get server result
              ≡ or_else (last_auth json server xs) (Maps.get server (put_auths m all)))
          → (d : Decoded) → json.unmarshal (secret_data x) ≡ d
          → combine_decoded json (combine json xs) x d all ≡ combined result
          → Maps.get server result ≡ or_else (last_auth json server (x ∷ xs)) (Maps.get server all)
      go rec (invalid err) e k = cc
      go rec (auths m) e k =
          rec m k
          ∙ rw (e, get-put_auths server m all (laws.decoded_map (secret_data x) e))
              (or_else_assoc (last_auth json server xs) (Maps.get server m) (Maps.get server all))

-- Every secret decodes.
abbrev pub AllDecode : AuthsJson → List Secret → Type 0
AllDecode json secrets = All (λ x. (m : Auths) × (json.unmarshal (secret_data x) ≡ auths m)) secrets

combine-total :
    (json : AuthsJson) (secrets : List Secret) (all : Auths)
    → AllDecode json secrets
    → (result : Auths) × (combine json secrets all ≡ combined result)
unfolding combine
combine-total json [] all h = (all, refl)
combine-total json (x ∷ xs) all h =
    let (result, e) = combine-total json xs (put_auths h.0.0 all) h.1 in (result, rw h.0.1 e)

-- Where every secret decodes, the data is one JSON text under ".dockerconfigjson", and it holds for
-- each server the credentials of the last secret that has some.
pub new_combined_docker_config_json_lem :
    (json : AuthsJson) (secrets : List Secret)
    → IsAuthsJson json
    → AllDecode json secrets
    → (all : Auths) × (new_combined_docker_config_json json secrets
        ≡ new_data ((docker_config_json_key, json.marshal all) ∷ []))
      × ((server : Text) → Maps.get server all ≡ last_auth json server secrets)
unfolding new_combined_docker_config_json Maps.get
new_combined_docker_config_json_lem json secrets laws h =
    let (all, e) = combine-total json secrets [] h in
    (
      all,
      ap (encode json) e,
      λ server.
          get-combine json laws secrets [] all server e
          ∙ last_alone (last_auth json server secrets),
    )
  where
    last_alone : (o : Option AuthConf) → or_else o none ≡ o
    last_alone none = refl
    last_alone (some a) = refl

combine-invalid :
    (json : AuthsJson) (before : List Secret) (x : Secret) (after : List Secret) (all : Auths)
    (err : Error)
    → AllDecode json before
    → json.unmarshal (secret_data x) ≡ invalid err
    → combine json (before ++ (x ∷ after)) all
      ≡ not_combined (
          errorf
            (codes "Unmarshaling secret '" ++ (slash x.meta.namespace x.meta.name ++ codes "'"))
            err)
unfolding combine
combine-invalid json [] x after all err h bad = rw bad
combine-invalid json (y ∷ before) x after all err h bad =
    rw h.0.1 (combine-invalid json before x after (put_auths h.0.0 all) err h.1 bad)

-- The first secret that does not decode is named in the error, and nothing is combined.
pub new_combined_docker_config_json-invalid :
    (json : AuthsJson) (before : List Secret) (x : Secret) (after : List Secret) (err : Error)
    → AllDecode json before
    → json.unmarshal (secret_data x) ≡ invalid err
    → new_combined_docker_config_json json (before ++ (x ∷ after))
      ≡ bad_data (
          errorf
            (codes "Unmarshaling secret '" ++ (slash x.meta.namespace x.meta.name ++ codes "'"))
            err)
unfolding new_combined_docker_config_json Maps.get
new_combined_docker_config_json-invalid json before x after err h bad =
    ap (encode json) (combine-invalid json before x after [] err h bad)
