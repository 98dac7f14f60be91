-- ===== src/Api/Exports/Valid.antt =====
-- Which exports Validate accepts.
use secretgen_controller.Common.{
  Text, codes, none, List, [], ◌∷◌, ◌++◌, ◌≡◌, ◌≢◌, ◌↔◌, ◌⊎◌, arith, All, is_empty, ◌&&◌,
  if◌then◌else◌,
}
use secretgen_controller.Api.Errors.{combined_errs}
use secretgen_controller.Api.Exports.{
  SecretExport, SelectorMatchField, SelectorOperator, operator_in, operator_not_in, operator_exists,
  operator_does_not_exist, operator_unknown, static_to_namespaces, target_errs, selector_errs_of,
  selector_errs, no_target, validate,
}

-- `In` and `NotIn` have values, `Exists` and `DoesNotExist` have none.
abbrev pub IsSelector : SelectorOperator → List Text → Type 0
IsSelector operator_in values = values ≢ []
IsSelector operator_not_in values = values ≢ []
IsSelector operator_exists values = values ≡ []
IsSelector operator_does_not_exist values = values ≡ []
IsSelector (operator_unknown t) values = Unit

abbrev pub AllSelectors : List SelectorMatchField → Type 0
AllSelectors [] = Unit
AllSelectors (s ∷ ss) = IsSelector s.operator s.values × AllSelectors ss

pub record IsValid (e : SecretExport) : Type 0 where
  pub has_target : (static_to_namespaces e ≢ []) ⊎ (e.spec.to_namespaces_selector ≢ [])
  pub targets_named : All (λ ns. ns ≢ []) (static_to_namespaces e)
  pub selectors : AllSelectors e.spec.to_namespaces_selector

target_errs_iff : (nses : List Text) → (target_errs nses ≡ []) ↔ All (λ ns. ns ≢ []) nses
unfolding target_errs
target_errs_iff [] = ground arith
target_errs_iff (ns ∷ nses) = ground (arith, target_errs_iff nses)

selector_errs_of_iff :
    (o : SelectorOperator) (values : List Text)
    → (selector_errs_of o values ≡ []) ↔ IsSelector o values
unfolding selector_errs_of
selector_errs_of_iff operator_in values = ground arith
selector_errs_of_iff operator_not_in values = ground arith
selector_errs_of_iff operator_exists values = ground arith
selector_errs_of_iff operator_does_not_exist values = ground arith
selector_errs_of_iff (operator_unknown t) values = ground arith

append_empty_iff : (a b : List Text) → (a ++ b ≡ []) ↔ ((a ≡ []) × (b ≡ []))
append_empty_iff [] b = ground arith
append_empty_iff (x ∷ a) b = ground arith

selector_errs_iff : (ss : List SelectorMatchField) → (selector_errs ss ≡ []) ↔ AllSelectors ss
unfolding selector_errs
selector_errs_iff [] = ground arith
selector_errs_iff (s ∷ ss) = ground (
  arith,
  selector_errs_of_iff s.operator s.values,
  selector_errs_iff ss,
  append_empty_iff (selector_errs_of s.operator s.values) (selector_errs ss),
)

combined_errs_iff :
    (title : Text) (errs : List Text) → (combined_errs title errs ≡ none) ↔ (errs ≡ [])
unfolding combined_errs
combined_errs_iff title [] = ground arith
combined_errs_iff title (e ∷ errs) = ground arith

target_missing : List Text → List SelectorMatchField → List Text
target_missing nses ss = if is_empty nses && is_empty ss then no_target ∷ [] else []

target_missing_iff :
    (nses : List Text) (ss : List SelectorMatchField)
    → (target_missing nses ss ≡ []) ↔ ((nses ≢ []) ⊎ (ss ≢ []))
unfolding target_missing
target_missing_iff nses ss = ground arith

errs_iff :
    (nses : List Text) (ss : List SelectorMatchField)
    → (target_missing nses ss ++ (target_errs nses ++ selector_errs ss) ≡ [])
      ↔ (((nses ≢ []) ⊎ (ss ≢ [])) × All (λ ns. ns ≢ []) nses × AllSelectors ss)
errs_iff nses ss = ground (
  arith,
  target_missing_iff nses ss,
  target_errs_iff nses,
  selector_errs_iff ss,
  append_empty_iff (target_missing nses ss) (target_errs nses ++ selector_errs ss),
  append_empty_iff (target_errs nses) (selector_errs ss),
)

-- Validate accepts an export exactly when it names a target or a selector, names no empty namespace, and
-- every selector of a known operator has values where its operator takes some, and only there.
pub validate_iff : (e : SecretExport) → (validate e ≡ none) ↔ IsValid e
unfolding validate target_missing
validate_iff e =
    let nses = static_to_namespaces e in
    let ss = e.spec.to_namespaces_selector in
    (
      λ accepted.
          let h =
            (errs_iff nses ss).0 ((combined_errs_iff (codes "Validation errors") _).0 accepted) in
          record { has_target = h.0; targets_named = h.1; selectors = h.2 },
      λ h.
          (combined_errs_iff (codes "Validation errors") _).1
            ((errs_iff nses ss).1 (h.has_target, h.targets_named, h.selectors)),
    )
