-- ===== src/Sharing/Exports/Lookup.antt =====
-- A query by name and namespace as a lookup of one key.
use secretgen_controller.Common.{
  Text, text_eq, text_eq_iff, text_eq_instance, ◌≡◌, ◌≢◌, refl, ap, ◌∙◌, Bool, Option, none, some,
  List, [], ◌∷◌, map, keep, if◌then◌else◌, Bool-cases, inl, inr,
}
use secretgen_controller.Common.Maps
use secretgen_controller.Common.Maps.{IsMap}
use secretgen_controller.Common.Sort.{insert, sort}
use secretgen_controller.Api.{slash}
use secretgen_controller.Sharing.Floats.{Float64}
use secretgen_controller.Sharing.Exports.{
  ExportedSecret, SecretExports, SecretMatcher, K8sReader, matches, matched,
  matched_secrets_for_import, sorts_before,
}
use secretgen_controller.Sharing.Exports.Cache.{AllExported, IsCache}
use secretgen_controller.Sharing.Exports.Single.{accepted_key, others_refused}

-- The entry, if it is accepted.
abbrev pub accepted_of : (ExportedSecret → Bool) → Option ExportedSecret → List ExportedSecret
accepted_of p none = []
accepted_of p (some es) = if p es then es ∷ [] else []

module _ (matcher : SecretMatcher) (excluded : Text → Bool) (reader : K8sReader)
    (by_name : matcher.from_name ≢ []) (by_namespace : matcher.from_namespace ≢ []) where
  abbrev asked_key : Text
  asked_key = slash matcher.from_namespace matcher.from_name

  keep-accepted :
      (m : SecretExports)
      → IsMap m
      → AllExported m
      → keep (λ es. matches es matcher excluded reader) (map (λ entry. entry.1) m)
        ≡ accepted_of (λ es. matches es matcher excluded reader) (Maps.get asked_key m)
  unfolding Maps.get
  keep-accepted [] u x = refl
  keep-accepted ((j, es) ∷ m) u x = elim (Bool-cases (text_eq j asked_key)) [
    | inl same ↦
        let none_left =
          others_refused matcher excluded reader by_name by_namespace j m
            ((text_eq_iff j asked_key).0 same) u.0 x.1 in
        rw (same, none_left) refl
    | inr other ↦ elim (Bool-cases (matches es matcher excluded reader)) [
      | inl taken ↦ cc (
        other,
        (text_eq_iff j asked_key).1
            (accepted_key matcher excluded reader by_name by_namespace x.0 taken),
      )
      | inr left ↦ rw (other, left) (keep-accepted m u.1 x.1)
    ]
  ]

  -- In a well-formed cache a query by name and namespace returns the secret of the entry under that one
  -- key, where the entry matches, and else nothing.
  pub matched_secrets_for_import-get :
      {F : Type 0} (float : Float64 F) (cache : SecretExports)
      → IsCache cache
      → matched_secrets_for_import float cache matcher excluded reader
        ≡ map
            (λ (es : ExportedSecret). es.secret)
            (accepted_of (λ es. matches es matcher excluded reader) (Maps.get asked_key cache))
  unfolding matched_secrets_for_import matched insert
  matched_secrets_for_import-get float cache h =
      ap
        (λ xs.
          map (λ (es : ExportedSecret). es.secret)
            (sort (sorts_before float matcher.to_namespace) xs))
        (keep-accepted cache h.is_map h.all_exported)
      ∙ ap (map (λ (es : ExportedSecret). es.secret)) (sorted (Maps.get asked_key cache))
    where
      sorted :
          (entry : Option ExportedSecret)
          → sort
              (sorts_before float matcher.to_namespace)
              (accepted_of (λ es. matches es matcher excluded reader) entry)
            ≡ accepted_of (λ es. matches es matcher excluded reader) entry
      sorted none = refl
      sorted (some es) = elim (Bool-cases (matches es matcher excluded reader)) [
        | inl taken ↦ rw taken refl
        | inr left ↦ rw left refl
      ]
