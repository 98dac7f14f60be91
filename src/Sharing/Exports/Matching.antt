-- ===== src/Sharing/Exports/Matching.antt =====
-- `Matches` and `MatchNamespace` against the conditions that the fields of SecretExport and
-- SecretMatcher describe.
use mathlib.Core.Option.{get_or}
use secretgen_controller.Common.{
  Text, codes, text_eq_iff, ◌≡◌, ap, ◌≢◌, ◌↔◌, ◌⊎◌, refl, Bool, true, false, not, Option, some,
  List, [], ◌∷◌, ◌++◌, arith, is_empty, if◌then◌else◌, Bool-cases, Option-cases, subst, sym, inl,
  inr,
}
use secretgen_controller.Api.Exports.{
  SelectorMatchField, SelectorOperator, operator_in, operator_not_in, operator_exists,
  operator_does_not_exist, operator_unknown, static_to_namespaces, all_namespaces,
}
use secretgen_controller.Sharing.Exports.{
  ExportedSecret, SecretMatcher, K8sReader, contains, selector_passes, selector_matches,
  selectors_pass, empty_namespace, match_namespace, matches_some, matches_namespace, mismatch,
  matches,
}

-- `t` stands in the list.
abbrev pub Has : Text → List Text → Type 0
Has t [] = ⊥
Has t (u ∷ us) = (u ≡ t) ⊎ Has t us

-- What each operator asks of the text found in the namespace.
abbrev pub Holds : SelectorOperator → List Text → Text → Type 0
Holds operator_in values v = Has v values
Holds operator_not_in values v = ¬ Has v values
Holds operator_exists values v = v ≢ []
Holds operator_does_not_exist values v = v ≡ []
Holds (operator_unknown t) values v = Unit

abbrev pub path_of : SelectorMatchField → Text
path_of s = codes "{." ++ (s.key ++ codes "}")

-- Every selector has a path that parses and an operator that holds.
abbrev pub AllHold : (Text → Option Text) → List SelectorMatchField → Type 0
AllHold path [] = Unit
AllHold path (s ∷ ss) =
    ((v : Text) × (path (path_of s) ≡ some v) × Holds s.operator s.values v) × AllHold path ss

-- The namespace's selector paths, on the empty namespace where it cannot be fetched.
abbrev pub read_path : K8sReader → Text → Text → Option Text
read_path reader ns path = reader.jsonpath path (get_or (reader.get_namespace ns) empty_namespace)

-- The export is for this namespace: it names it, or names all and the namespace is not excluded, or
-- has selectors and all hold.
abbrev pub IsOffered : ExportedSecret → Text → (Text → Bool) → K8sReader → Type 0
IsOffered es ns excluded reader =
    Has ns (static_to_namespaces es.export)
    ⊎ ((Has all_namespaces (static_to_namespaces es.export) × (excluded ns ≡ false))
        ⊎ ((es.namespaces_matcher ≢ []) × AllHold (read_path reader ns) es.namespaces_matcher))

pub record IsMatch (es : ExportedSecret) (matcher : SecretMatcher) (excluded : Text → Bool)
    (reader : K8sReader) : Type 0 where
  pub no_subject : matcher.subject ≡ []
  pub type : (matcher.secret_type ≡ []) ⊎ (matcher.secret_type ≡ es.secret.type)
  pub name : (matcher.from_name ≡ []) ⊎ (matcher.from_name ≡ es.secret.meta.name)
  pub namespace :
      (matcher.from_namespace ≡ []) ⊎ (matcher.from_namespace ≡ es.secret.meta.namespace)
  pub offered : IsOffered es matcher.to_namespace excluded reader

pub contains_iff : (t : Text) (us : List Text) → (contains t us ≡ true) ↔ Has t us
unfolding contains
contains_iff t [] = ground arith
contains_iff t (u ∷ us) = ground (arith, text_eq_iff u t, contains_iff t us)

selector_passes_iff :
    (o : SelectorOperator) (values : List Text) (v : Text)
    → (selector_passes o values v ≡ true) ↔ Holds o values v
unfolding selector_passes
selector_passes_iff operator_in values v = contains_iff v values
selector_passes_iff operator_not_in values v = elim (Bool-cases (contains v values)) [
  | inl has ↦ rw has (λ e. cc, λ h. absurd (h ((contains_iff v values).0 has)))
  | inr lacks ↦ rw lacks (λ _ h. cc (lacks, (contains_iff v values).1 h), λ _. refl)
]
selector_passes_iff operator_exists values v = ground arith
selector_passes_iff operator_does_not_exist values v = ground arith
selector_passes_iff (operator_unknown t) values v = ground arith

selector_matches_iff :
    (path : Text → Option Text) (s : SelectorMatchField)
    → (selector_matches path s ≡ true)
      ↔ ((v : Text) × (path (path_of s) ≡ some v) × Holds s.operator s.values v)
unfolding selector_matches
selector_matches_iff path s = elim (Option-cases (path (path_of s))) [
  | inl bad ↦ rw (bad, selector_matches) (λ e. absurd (cc), λ h. cc (h.1))
  | inr (v, eq) ↦
      rw (eq, selector_matches)
        (
          λ e. (v, refl, (selector_passes_iff s.operator s.values v).0 e),
          λ h.
              (selector_passes_iff s.operator s.values v).1
                (subst (Holds s.operator s.values) (ap (λ o. get_or o v) (sym h.1)) h.2),
        )
]

pub selectors_pass_iff :
    (path : Text → Option Text) (ss : List SelectorMatchField)
    → (selectors_pass path ss ≡ true) ↔ AllHold path ss
unfolding selectors_pass
selectors_pass_iff path [] = ground arith
selectors_pass_iff path (s ∷ ss) = elim (Bool-cases (selector_matches path s)) [
  | inl ok ↦
      rw (ok, selectors_pass)
        (
          λ e. ((selector_matches_iff path s).0 ok, (selectors_pass_iff path ss).0 e),
          λ h. (selectors_pass_iff path ss).1 h.1,
        )
  | inr bad ↦
      rw (bad, selectors_pass)
        (λ e. absurd (cc), λ h. cc (bad, (selector_matches_iff path s).1 h.0))
]

matches_some_iff :
    (ts : List Text) (ns : Text) (excluded : Text → Bool)
    → (matches_some ts ns excluded ≡ true)
      ↔ (Has ns ts ⊎ (Has all_namespaces ts × (excluded ns ≡ false)))
unfolding matches_some
matches_some_iff [] ns excluded = ground arith
matches_some_iff (t ∷ ts) ns excluded =
    ground (arith, text_eq_iff t ns, text_eq_iff t all_namespaces, matches_some_iff ts ns excluded)

mismatch_iff :
    (wanted actual : Text) → (mismatch wanted actual ≡ false) ↔ ((wanted ≡ []) ⊎ (wanted ≡ actual))
unfolding mismatch
mismatch_iff wanted actual = ground (arith, text_eq_iff wanted actual)

-- The last tests of `Matches`.
abbrev offered : ExportedSecret → SecretMatcher → (Text → Bool) → K8sReader → Bool
offered es matcher excluded reader =
    if matches_namespace es matcher.to_namespace excluded
    then true
    else if not (is_empty es.namespaces_matcher)
    then match_namespace es.namespaces_matcher matcher reader
    else false

offered_iff :
    (es : ExportedSecret) (matcher : SecretMatcher) (excluded : Text → Bool) (reader : K8sReader)
    → (offered es matcher excluded reader ≡ true)
      ↔ IsOffered es matcher.to_namespace excluded reader
unfolding matches_namespace match_namespace
offered_iff es matcher excluded reader = ground (
  arith,
  matches_some_iff (static_to_namespaces es.export) matcher.to_namespace excluded,
  selectors_pass_iff (read_path reader matcher.to_namespace) es.namespaces_matcher,
)

-- An exported secret matches exactly when no subject is asked for, its type, name and namespace are
-- those asked for (an empty field asks for nothing), and its export is for the namespace: by its list, by
-- the wildcard, unless the namespace is excluded, or by its selectors, excluded or not. A selector
-- compares the text at its path, and Exists and DoesNotExist ask whether that text is empty.
pub matches_iff :
    (es : ExportedSecret) (matcher : SecretMatcher) (excluded : Text → Bool) (reader : K8sReader)
    → (matches es matcher excluded reader ≡ true) ↔ IsMatch es matcher excluded reader
unfolding matches
matches_iff es matcher excluded reader = (
  λ e. record {
    no_subject = ground arith;
    type = ground (arith, mismatch_iff matcher.secret_type es.secret.type);
    name = ground (arith, mismatch_iff matcher.from_name es.secret.meta.name);
    namespace = ground (arith, mismatch_iff matcher.from_namespace es.secret.meta.namespace);
    offered = (offered_iff es matcher excluded reader).0 (ground arith);
  },
  λ h. ground (
    arith,
    mismatch_iff matcher.secret_type es.secret.type,
    mismatch_iff matcher.from_name es.secret.meta.name,
    mismatch_iff matcher.from_namespace es.secret.meta.namespace,
    (offered_iff es matcher excluded reader).1 h.offered,
    h.no_subject,
    h.type,
    h.name,
    h.namespace,
  ),
)
