-- ===== src/Examples/Data.antt =====
-- The inputs of the examples: weights that are natural numbers or a NaN, and a cluster that answers
-- every Get with an object of the name that is asked for. Its state counts the calls that write.
use secretgen_controller.Common.{
  ℕ, suc, Text, codes, Bool, true, false, Option, none, some, List, [], ◌∷◌, ◌≡◌, refl, sym, ap,
  subst, All, ◌⊎◌, arith, length, ltb,
}
use secretgen_controller.Kube.{Client, Fetched, found, failed}
use secretgen_controller.Api.{NamespacedName, Secret, named, key_of}
use secretgen_controller.Api.Errors.{api, not_found}
use secretgen_controller.Api.Conditions.{GenericStatus}
use secretgen_controller.Api.Exports.{SecretExport}
use secretgen_controller.Api.Imports.{SecretImport}
use secretgen_controller.Sharing.Floats.{Float64, IsFloat64}
use secretgen_controller.Sharing.Exports.{SecretExports, SecretMatcher, K8sReader, key}
use secretgen_controller.Sharing.Exports.Cache.{IsCache, IsNamed, IsNamedAs, entry_of}
use secretgen_controller.Sharing.Env.{Cluster, Env}
use secretgen_controller.Sharing.ExportReconciler.Caching.{ReturnsNamed}
use secretgen_controller.Sharing.ExportReconciler.WarmUp.{ListsNamed}

abbrev is_below : Option ℕ → Option ℕ → Bool
is_below (some a) (some b) = ltb a b
is_below _ _ = false

abbrev is_absent : Option ℕ → Bool
is_absent none = true
is_absent (some a) = false

-- A weight text stands for its length.
abbrev pub weights : Float64 (Option ℕ)
weights = record {
  less = is_below;
  is_nan = is_absent;
  zero = some 0;
  parse = λ t. some (some (length t));
}

below_asym : (a b : Option ℕ) → is_below a b ≡ true → is_below b a ≡ false
below_asym (some a) (some b) h = ground arith
below_asym none _ h = ground arith
below_asym (some a) none h = ground arith

below_cotrans :
    (a b c : Option ℕ)
    → is_absent b ≡ false
    → is_below a c ≡ true
    → (is_below a b ≡ true) ⊎ (is_below b c ≡ true)
below_cotrans (some a) (some b) (some c) n h = ground arith
below_cotrans _ none _ n h = ground arith
below_cotrans none (some b) _ n h = ground arith
below_cotrans (some a) (some b) none n h = ground arith

nan_left : (a b : Option ℕ) → is_absent a ≡ true → is_below a b ≡ false
nan_left none b h = refl
nan_left (some a) b h = ground arith

nan_right : (a b : Option ℕ) → is_absent b ≡ true → is_below a b ≡ false
nan_right none b h = refl
nan_right (some a) none h = refl
nan_right (some a) (some b) h = ground arith

pub weights-IsFloat64 : IsFloat64 weights
weights-IsFloat64 = record {
  asym = below_asym;
  cotrans = below_cotrans;
  nan_left = nan_left;
  nan_right = nan_right;
  zero_number = refl;
}

abbrev pub no_status : GenericStatus
no_status = record { observed_generation = 0; conditions = []; friendly_description = [] }

abbrev pub app : NamespacedName
app = record { namespace = codes "prod"; name = codes "app" }

abbrev pub secret_at : NamespacedName → Secret
secret_at k = record {
  meta = named k;
  type = codes "kubernetes.io/dockerconfigjson";
  contents = some ((codes ".dockerconfigjson", codes "registry") ∷ []);
  string_data = none;
}

abbrev pub export_at : NamespacedName → SecretExport
export_at k = record {
  meta = named k;
  spec = record { to_namespace = codes "team"; to_namespaces = []; to_namespaces_selector = [] };
  status = record { generic_status = no_status; observed_secret_resource_version = [] };
}

abbrev pub import_at : NamespacedName → SecretImport
import_at k = record {
  meta = named k;
  spec = record { from_namespace = codes "prod" };
  status = record { generic_status = no_status };
}

abbrev pub missing : {A : Type 0} → Fetched A
missing = failed (api not_found (codes "not found"))

-- A client whose Get answers as given, and whose writes succeed.
abbrev pub client : {Obj : Type 0} → (NamespacedName → Fetched Obj) → List Obj → Client ℕ Obj
client answer all = record {
  get = λ k w. (answer k, w);
  list = λ w. (found all, w);
  list_in = λ ns w. (found all, w);
  create = λ obj w. (none, suc w);
  update = λ obj w. (none, suc w);
  delete = λ k w. (none, suc w);
  update_status = λ obj w. (none, suc w);
}

abbrev pub cluster : Cluster ℕ (Option ℕ)
cluster = record {
  secrets = client (λ k. found (secret_at k)) [];
  exports = client (λ k. found (export_at k)) (export_at app ∷ []);
  imports = client (λ k. found (import_at k)) [];
  namespaces = client (λ k. missing) [];
  jsonpath = λ path ns. none;
  set_reference = λ owner references. references;
  float = weights;
}

abbrev found_or : {A : Type 0} → A → Fetched A → A
found_or a (found b) = b
found_or a (failed err) = a

pub exports_named : ReturnsNamed cluster.exports (λ e. e.meta)
exports_named = record { get_named = λ k w {obj} h. sym (ap (λ f. key_of (found_or obj f).meta) h) }

pub secrets_named : ReturnsNamed cluster.secrets (λ x. x.meta)
secrets_named = record { get_named = λ k w {obj} h. sym (ap (λ f. key_of (found_or obj f).meta) h) }

pub imports_named : ReturnsNamed cluster.imports (λ i. i.meta)
imports_named = record { get_named = λ k w {obj} h. sym (ap (λ f. key_of (found_or obj f).meta) h) }

pub app-IsNamed : IsNamed (export_at app)
app-IsNamed = record { has_namespace = λ e. ground arith; has_name = λ e. ground arith }

pub app-IsNamedAs : IsNamedAs (export_at app) (secret_at app)
app-IsNamedAs = record { namespace = refl; name = refl }

pub exports_listed : ListsNamed cluster
exports_listed = record {
  list_named = λ w h. subst (λ f. All IsNamed (found_or [] f)) h (app-IsNamed, tt);
}

-- A cache of one entry.
abbrev pub cache : SecretExports
cache = (key (export_at app), entry_of (export_at app) (secret_at app)) ∷ []

pub cache-IsCache : IsCache cache
cache-IsCache = record {
  is_map = (tt, tt);
  all_exported = (record { at_key = refl; namespace = refl; name = refl; selectors = refl }, tt);
}

abbrev pub env : Env ℕ
env = record { world = 0; cache = cache; warmed_up = false }

abbrev pub reader : K8sReader
reader = record { get_namespace = λ ns. none; jsonpath = λ path ns. none }

-- The import of prod/app into the namespace team.
abbrev pub matcher : SecretMatcher
matcher = record {
  from_name = codes "app";
  from_namespace = codes "prod";
  to_namespace = codes "team";
  subject = [];
  secret_type = [];
}

abbrev pub never : Text → Bool
never ns = false
