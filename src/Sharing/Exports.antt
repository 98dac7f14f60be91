-- ===== src/Sharing/Exports.antt =====
-- SecretExports of pkg/sharing/secret_exports.go: the in-memory cache of exported secrets. The
-- read-write lock makes each method one step on the map.
pub mod Cache
pub mod Matching
pub mod Order
pub mod Single
pub mod Lookup
pub mod Returned
pub mod Reachable
use mathlib.Core.Option.{get_or}
use secretgen_controller.Common.{
  Text, codes, text_eq, text_eq_instance, text_lt, Bool, true, false, not, ◌&&◌, Option, none, some,
  List, [], ◌∷◌, ◌++◌, map, is_empty, keep, if◌then◌else◌,
}
use secretgen_controller.Common.Maps
use secretgen_controller.Common.Maps.{Map}
use secretgen_controller.Common.Sort.{sort}
use secretgen_controller.Common.Go.{Outcome, value, panicked, Go}
use secretgen_controller.Api.{ObjectMeta, Secret, Namespace, named, entries, slash}
use secretgen_controller.Api.Exports.{
  SecretExport, SelectorMatchField, SelectorOperator, operator_in, operator_not_in, operator_exists,
  operator_does_not_exist, operator_unknown, static_to_namespaces, all_namespaces,
}
use secretgen_controller.Sharing.Floats.{Float64}

abbrev pub weight_ann_key : Text
weight_ann_key = codes "secretgen.carvel.dev/weight"

-- An entry of the cache. Its secret is never nil: `Export` panics on a nil secret.
pub record ExportedSecret : Type 0 where
  pub export : SecretExport
  pub secret : Secret
  pub namespaces_matcher : List SelectorMatchField

abbrev pub SecretExports : Type 0
SecretExports = Map Text ExportedSecret

abbrev pub new_secret_exports : SecretExports
new_secret_exports = []

pub record SecretMatcher : Type 0 where
  pub from_name : Text
  pub from_namespace : Text
  pub to_namespace : Text
  pub subject : Text
  pub secret_type : Text

-- What the matching reads from outside: K8sReader.Get of a namespace, `none` where it fails, and
-- client-go's jsonpath on the namespace's JSON, `none` where the path does not parse and else the
-- text that Execute writes.
pub record K8sReader : Type 0 where
  pub get_namespace : Text → Option Namespace
  pub jsonpath : Text → Namespace → Option Text

export_guards : SecretExport → Outcome (Unit {0})
export_guards export =
    if is_empty export.meta.namespace
    then panicked (codes "Internal inconsistency: missing export namespace")
    else if is_empty export.meta.name
    then panicked (codes "Internal inconsistency: missing export name")
    else value tt

unfoldable pub key : SecretExport → Text
key export = slash export.meta.namespace export.meta.name

-- newExportedSecret with a secret.
pub new_exported_secret : SecretExport → Secret → Outcome ExportedSecret
unfolding export_guards
new_exported_secret export secret = elim (export_guards export) [
  | panicked message ↦ panicked message
  | value _ ↦
      if text_eq export.meta.namespace secret.meta.namespace
        && text_eq export.meta.name secret.meta.name
      then value (record {
        export = export;
        secret = secret;
        namespaces_matcher = export.spec.to_namespaces_selector;
      })
      else panicked (codes "Internal inconsistency: export and secret names do not match")
]

stored : Outcome ExportedSecret → Go SecretExports (Unit {0})
unfolding key
stored (panicked message) cache = (panicked message, cache)
stored (value entry) cache = (value tt, Maps.put (key entry.export) entry cache)

unfoldable pub export : SecretExport → Secret → Go SecretExports (Unit {0})
unfolding new_exported_secret stored
export e secret cache = stored (new_exported_secret e secret) cache

dropped : Text → Outcome (Unit {0}) → Go SecretExports (Unit {0})
dropped k (panicked message) cache = (panicked message, cache)
dropped k (value _) cache = (value tt, Maps.delete k cache)

-- newExportedSecret with a nil secret: only the key of its result is used.
unfoldable pub unexport : SecretExport → Go SecretExports (Unit {0})
unfolding export_guards key dropped
unexport e cache = dropped (key e) (export_guards e) cache

unfoldable pub contains : Text → List Text → Bool
contains t [] = false
contains t (u ∷ us) = if text_eq u t then true else contains t us

pub selector_passes : SelectorOperator → List Text → Text → Bool
unfolding contains
selector_passes operator_in values v = contains v values
selector_passes operator_not_in values v = not (contains v values)
selector_passes operator_exists values v = not (is_empty v)
selector_passes operator_does_not_exist values v = is_empty v
selector_passes (operator_unknown t) values v = true

-- One round of the loop of MatchNamespace: a path that does not parse ends it.
selector_matches : (Text → Option Text) → SelectorMatchField → Bool
unfolding selector_passes
selector_matches path s = elim (path (codes "{." ++ (s.key ++ codes "}"))) [
  | none ↦ false
  | some v ↦ selector_passes s.operator s.values v
]

pub selectors_pass : (Text → Option Text) → List SelectorMatchField → Bool
unfolding selector_matches
selectors_pass path [] = true
selectors_pass path (s ∷ ss) =
    let rest = selectors_pass path ss in if selector_matches path s then rest else false

-- A namespace that cannot be fetched is logged, and matched as an empty one.
pub empty_namespace : Namespace
empty_namespace = record { meta = named (record { namespace = []; name = [] }) }

pub match_namespace : List SelectorMatchField → SecretMatcher → K8sReader → Bool
unfolding selectors_pass empty_namespace
match_namespace selectors matcher reader =
    let namespace = get_or (reader.get_namespace matcher.to_namespace) empty_namespace in
    selectors_pass (λ path. reader.jsonpath path namespace) selectors

-- The loop of matchesNamespace over the static namespaces.
matches_some : List Text → Text → (Text → Bool) → Bool
matches_some [] ns excluded = false
matches_some (t ∷ ts) ns excluded =
    let rest = matches_some ts ns excluded in
    if text_eq t ns
    then true
    else if text_eq t all_namespaces && not (excluded ns)
    then true
    else rest

pub matches_namespace : ExportedSecret → Text → (Text → Bool) → Bool
unfolding matches_some static_to_namespaces
matches_namespace es ns excluded = matches_some (static_to_namespaces es.export) ns excluded

-- `len(wanted) > 0` and `wanted != actual`.
mismatch : Text → Text → Bool
mismatch wanted actual = if is_empty wanted then false else not (text_eq wanted actual)

pub matches : ExportedSecret → SecretMatcher → (Text → Bool) → K8sReader → Bool
unfolding matches_namespace match_namespace mismatch
matches es matcher excluded reader =
    if not (is_empty matcher.subject)
    then false
    else if mismatch matcher.secret_type es.secret.type
    then false
    else if mismatch matcher.from_name es.secret.meta.name
    then false
    else if mismatch matcher.from_namespace es.secret.meta.namespace
    then false
    else if matches_namespace es matcher.to_namespace excluded
    then true
    else if not (is_empty es.namespaces_matcher)
    then match_namespace es.namespaces_matcher matcher reader
    else false

pub record SortKey (F : Type 0) : Type 0 where
  pub weight : F
  pub within_to_ns : Bool
  pub matches_to_ns_exactly : Bool
  pub secret_ns_name : Text

module _ {F : Type 0} (float : Float64 F) where
  unfoldable pub weight_of : ExportedSecret → F
  weight_of es = elim (Maps.get weight_ann_key (entries es.export.meta.annotations)) [
    | none ↦ float.zero
    | some val ↦ get_or (float.parse val) float.zero
  ]

  pub sort_key : ExportedSecret → Text → SortKey F
  unfolding weight_of contains static_to_namespaces
  sort_key es to_ns = record {
    weight = weight_of es;
    within_to_ns = text_eq es.secret.meta.namespace to_ns;
    matches_to_ns_exactly = contains to_ns (static_to_namespaces es.export);
    secret_ns_name = slash es.secret.meta.namespace es.secret.meta.name;
  }

  pub less : SortKey F → SortKey F → Bool
  less k o =
      if float.less o.weight k.weight
      then true
      else if float.less k.weight o.weight
      then false
      else if k.within_to_ns && not o.within_to_ns
      then true
      else if not k.within_to_ns && o.within_to_ns
      then false
      else if k.matches_to_ns_exactly && not o.matches_to_ns_exactly
      then true
      else if not k.matches_to_ns_exactly && o.matches_to_ns_exactly
      then false
      else text_lt o.secret_ns_name k.secret_ns_name

  -- The order given to sort.Slice, with the two keys flipped.
  pub sorts_before : Text → ExportedSecret → ExportedSecret → Bool
  unfolding sort_key less
  sorts_before to_ns a b = less (sort_key b to_ns) (sort_key a to_ns)

  -- The entries that match, in the order in which the map is iterated.
  pub matched : SecretExports → SecretMatcher → (Text → Bool) → K8sReader → List ExportedSecret
  unfolding matches
  matched cache matcher excluded reader =
      keep (λ es. matches es matcher excluded reader) (map (λ entry. entry.1) cache)

  unfoldable pub matched_secrets_for_import :
      SecretExports → SecretMatcher → (Text → Bool) → K8sReader → List Secret
  unfolding matched sorts_before sort
  matched_secrets_for_import cache matcher excluded reader =
      map (λ (es : ExportedSecret). es.secret)
        (sort (sorts_before matcher.to_namespace) (matched cache matcher excluded reader))
