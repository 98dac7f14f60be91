-- ===== src/Examples/Templates.antt =====
-- The theorems of Generator/JsonPath and Generator/SecretTemplate at a template with one input.
use secretgen_controller.Common.{
  ℕ, suc, ◌≤◌, Text, codes, text_eq, text_eq_instance, false, none, some, List, [], ◌∷◌, ◌++◌, ◌≡◌,
  refl, ap, length, if◌then◌else◌,
}
use secretgen_controller.Common.Maps
use secretgen_controller.Common.Maps.{Map}
use secretgen_controller.Common.Go.{value}
use secretgen_controller.Kube.{Fetched, found}
use secretgen_controller.Api.{NamespacedName, OwnerReference, Secret, named, key_of, name_eq}
use secretgen_controller.Api.Templates.{InputResource, JsonPathTemplate, SecretTemplate}
use secretgen_controller.Api.Errors.{api, not_found}
use secretgen_controller.Reconciler.Status.{done}
use secretgen_controller.Tracker.{Tracker, new_tracker}
use secretgen_controller.Tracker.Relation.{is_in, tracks, run_all, run_all-IsMap}
use secretgen_controller.Generator.JsonPath.{to_k8s_json_path}
use secretgen_controller.Generator.JsonPath.Grammar.{Converts}
use secretgen_controller.Generator.JsonPath.Total.{to_k8s_json_path-Ends}
use secretgen_controller.Generator.JsonPath.Rewriting.{to_k8s_json_path-Converts}
use secretgen_controller.Generator.SecretTemplate.Inputs.{
  Reader, Surroundings, Env, resolve_input_resources, client_for_secret_template, resolve_with,
  track_resolved, read_inputs, read_resolved, read_next, resolve_input_resource, named_as,
  to_unstructured, evaluate_with,
}
use secretgen_controller.Generator.SecretTemplate.Evaluation.{EvaluatedSecret, evaluate_decoded}
use secretgen_controller.Generator.SecretTemplate.Reconciler.{
  map_secret_to_templates, empty_secret, written, reconcile, reconcile_template,
}
use secretgen_controller.Generator.SecretTemplate.Reading.{Reads}
use secretgen_controller.Generator.SecretTemplate.Tracking.{
  resolve_input_resources-Reads, reconcile_template-untracks,
}
use secretgen_controller.Generator.SecretTemplate.Evaluated.{IsEvaluable, IsEvaluation}
use secretgen_controller.Generator.SecretTemplate.Values.{IsFilled, reconcile-IsFilled}
use secretgen_controller.Examples.Data.{app, no_status, missing, client}

to_k8s_json_path-Ends_example :
    (t : Text) × (to_k8s_json_path (codes "$(.a") ≡ some t) × (length t ≤ length (codes "$(.a"))
to_k8s_json_path-Ends_example = to_k8s_json_path-Ends (codes "$(.a")

-- $(.a[?(@.b)])
nested : Converts (codes "$(.a[?(@.b)])") (codes "{.a[?(@.b)]}")
nested =
    Converts.reference
      (bytes5
        (Converts.group (bytes3 Converts.nothing) (Converts.byte refl refl refl Converts.nothing)))
      Converts.nothing
  where
    bytes3 : {s o : Text} → Converts s o → Converts (codes "@.b" ++ s) (codes "@.b" ++ o)
    bytes3 c =
        Converts.byte refl refl refl (Converts.byte refl refl refl (Converts.byte refl refl refl c))

    bytes5 : {s o : Text} → Converts s o → Converts (codes ".a[?" ++ s) (codes ".a[?" ++ o)
    bytes5 c = Converts.byte refl refl refl (
        Converts.byte refl refl refl
          (Converts.byte refl refl refl (Converts.byte refl refl refl c)))

to_k8s_json_path-Converts_example :
    to_k8s_json_path (codes "$(.a[?(@.b)])") ≡ some (codes "{.a[?(@.b)]}")
to_k8s_json_path-Converts_example = to_k8s_json_path-Converts nested

abbrev names : Reader ℕ Text
names gvk k w = (found k.name, suc w)

-- Objects whose content is their name, and paths that give `db`.
abbrev around : Surroundings ℕ Text
around = record {
  templates = client (λ k. missing) [];
  reader = names;
  load_client = λ name namespace w. (found names, w);
  execute_path = λ path values. found (codes "db");
  parse_group_version = λ version. found ([], version);
  decode_base64 = λ text. found text;
  create_or_update = λ secret f w. (f secret, suc w);
  own = λ owner references. found references;
}

abbrev creds : InputResource
creds = record {
  name = codes "creds";
  ref = record { api_version = codes "v1"; kind = codes "Secret"; name = codes "db" };
}

abbrev json_template : JsonPathTemplate
json_template = record {
  string_data = (codes "user", codes "$(.creds)") ∷ [];
  data_paths = (codes "password", codes "$(.creds.data)") ∷ [];
  type = codes "Opaque";
  metadata = record { annotations = []; labels = [] };
}

abbrev template : SecretTemplate
template = record {
  meta = named app;
  spec = record {
    input_resources = creds ∷ [];
    json_path_template = some json_template;
    service_account_name = [];
  };
  status = record {
    secret_name = [];
    generic_status = no_status;
    observed_secret_resource_version = [];
  };
}

abbrev start : Env ℕ
start = record { world = 0; tracker = [] }

resolve_input_resources-Reads_example :
    (keys : List NamespacedName) × (result : Fetched (Map Text Text)) × (w : ℕ)
    × (tracker : Tracker) × (resolve_input_resources around template start
        ≡ (value result, record { world = w; tracker = tracker }))
    × Reads around (codes "prod") (creds ∷ []) [] 0 keys result w
    × ((x k : NamespacedName)
        → is_in x (map_secret_to_templates k tracker) ≡ (
            if name_eq (key_of template.meta) x
            then is_in k keys
            else is_in x (map_secret_to_templates k [])))
resolve_input_resources-Reads_example = resolve_input_resources-Reads around template refl start tt

abbrev db_values : Map Text Text
db_values = (codes "creds", codes "db") ∷ []

resolved : (resolve_input_resources around template start).0 ≡ value (found db_values)
unfolding resolve_input_resources client_for_secret_template resolve_with track_resolved read_inputs
    read_resolved read_next resolve_input_resource named_as to_unstructured evaluate_with Maps.put
    text_eq
resolved = refl

abbrev env_at : ℕ → Env ℕ
env_at w = record { world = w; tracker = (resolve_input_resources around template start).1.tracker }

abbrev db_secret : NamespacedName
db_secret = record { namespace = codes "prod"; name = codes "db" }

-- Two templates that read the secret.
abbrev tracking : Env ℕ
tracking = record {
  world = 0;
  tracker =
      run_all (tracks app (db_secret ∷ []) ∷ tracks db_secret (db_secret ∷ []) ∷ []) new_tracker;
}

reconcile_template-untracks_example :
    (tracker : Tracker) × (reconcile_template around app tracking
      ≡ (value (done, none), record { world = 0; tracker = tracker }))
    × ((x k : NamespacedName)
        → is_in x (map_secret_to_templates k tracker)
          ≡ (if name_eq app x then false else is_in x (map_secret_to_templates k tracking.tracker)))
reconcile_template-untracks_example =
    reconcile_template-untracks around app tracking (api not_found (codes "not found")) 0 refl refl
      (run_all-IsMap (tracks app (db_secret ∷ []) ∷ tracks db_secret (db_secret ∷ []) ∷ [])
        new_tracker tt)

evaluable : IsEvaluable around json_template db_values
unfolding evaluate_with evaluate_decoded
evaluable = record {
  data_map = (tt, tt);
  data_values = ((codes "db", refl), tt);
  string_map = (tt, tt);
  string_values = ((codes "db", refl), tt);
  annotation_map = tt;
  annotation_values = tt;
  label_map = tt;
  label_values = tt;
  type_text = codes "db";
  type_value = refl;
}

reconcile-IsFilled_example :
    (evaluated : EvaluatedSecret) × IsEvaluation around json_template db_values evaluated
    × ((fill : Secret → Fetched Secret) × ((existing : Secret) (references : List OwnerReference)
          → found existing.meta.owner_references ≡ found references
          → (secret : Secret) × (fill existing ≡ found secret)
            × IsFilled existing evaluated references secret)
        × (reconcile around template start ≡ (
            let (answer, w) =
              around.create_or_update
                (empty_secret template)
                fill
                (resolve_input_resources around template start).1.world in
            (value (written around template answer), env_at w)))
        × (key_of (empty_secret template).meta ≡ app)
        × ((secret : Secret) → (written around template (found secret)).0 ≡ (done, none)))
reconcile-IsFilled_example =
    reconcile-IsFilled around template json_template db_values start
      (resolve_input_resources around template start).1 refl
      (ap (λ o. (o, (resolve_input_resources around template start).1)) resolved) evaluable
