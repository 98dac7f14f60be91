-- ===== src/Sharing/Exports/Single.antt =====
-- Queries by name and namespace, as a SecretImport makes them.
use secretgen_controller.Common.{
  ◌≤◌, Text, text_eq_iff, text_eq_instance, ◌≡◌, ◌≢◌, refl, sym, ap₂, ◌∙◌, Bool, true, [], ◌∷◌, map,
  arith, keep, length, length-map, length-perm, Bool-cases, inl, inr,
}
use secretgen_controller.Common.Maps.{Absent, IsMap}
use secretgen_controller.Common.Sort.{sort-perm}
use secretgen_controller.Api.{slash}
use secretgen_controller.Sharing.Floats.{Float64}
use secretgen_controller.Sharing.Exports.{
  ExportedSecret, SecretExports, SecretMatcher, K8sReader, key, matches, matched,
  matched_secrets_for_import, sorts_before,
}
use secretgen_controller.Sharing.Exports.Cache.{IsExported, AllExported, IsCache}

module _ (matcher : SecretMatcher) (excluded : Text → Bool) (reader : K8sReader)
    (by_name : matcher.from_name ≢ []) (by_namespace : matcher.from_namespace ≢ []) where
  abbrev pub accepts : ExportedSecret → Bool
  accepts es = matches es matcher excluded reader

  pub matches_names :
      (es : ExportedSecret)
      → accepts es ≡ true
      → (es.secret.meta.namespace ≡ matcher.from_namespace)
        × (es.secret.meta.name ≡ matcher.from_name)
  unfolding matches
  matches_names es h = ground (
    arith,
    by_name,
    by_namespace,
    text_eq_iff matcher.from_name es.secret.meta.name,
    text_eq_iff matcher.from_namespace es.secret.meta.namespace,
  )

  pub accepted_key :
      {k : Text} {es : ExportedSecret}
      → IsExported k es
      → accepts es ≡ true
      → k ≡ slash matcher.from_namespace matcher.from_name
  unfolding key
  accepted_key {k} {es} x h =
      let n = matches_names es h in x.at_key ∙ ap₂ slash (x.namespace ∙ n.0) (x.name ∙ n.1)

  pub others_refused :
      (k : Text) (m : SecretExports)
      → k ≡ slash matcher.from_namespace matcher.from_name
      → Absent k m
      → AllExported m
      → keep accepts (map (λ entry. entry.1) m) ≡ []
  others_refused k [] e a x = refl
  others_refused k ((j, es) ∷ m) e a x = elim (Bool-cases (accepts es)) [
    | inl taken ↦ cc (a.0, (text_eq_iff j k).1 (accepted_key x.0 taken ∙ sym e))
    | inr left ↦ rw left (others_refused k m e a.1 x.1)
  ]

  matched-le-one :
      (m : SecretExports)
      → IsMap m
      → AllExported m
      → length (keep accepts (map (λ entry. entry.1) m)) ≤ 1
  matched-le-one [] u x = omega arith
  matched-le-one ((j, es) ∷ m) u x = elim (Bool-cases (accepts es)) [
    | inl taken ↦ rw (taken, others_refused j m (accepted_key x.0 taken) u.0 x.1) (omega arith)
    | inr left ↦ rw left (matched-le-one m u.1 x.1)
  ]

-- At most one secret matches a name and a namespace, whatever the cache went through: the panic on
-- several matches is out of reach.
pub length-matched_secrets_for_import-le-one :
    {F : Type 0} (float : Float64 F) (cache : SecretExports) (matcher : SecretMatcher)
    (excluded : Text → Bool) (reader : K8sReader)
    → IsCache cache
    → matcher.from_name ≢ []
    → matcher.from_namespace ≢ []
    → length (matched_secrets_for_import float cache matcher excluded reader) ≤ 1
unfolding matched_secrets_for_import
length-matched_secrets_for_import-le-one float cache matcher excluded reader h n ns =
    rw length-map (
      rw
        (length-perm (
          sort-perm (sorts_before float matcher.to_namespace)
            (matched float cache matcher excluded reader)))
        (matched-le-one matcher excluded reader n ns cache h.is_map h.all_exported))
