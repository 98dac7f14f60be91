-- ===== src/Sharing/Wildcards/Excluded.antt =====
-- What the exclusion annotation does to the matching.
use secretgen_controller.Common.{
  Text, text_eq_instance, true, false, some, [], ◌≡◌, refl, inl, inr, Bool-cases,
}
use secretgen_controller.Common.Maps
use secretgen_controller.Kube.{Client, found}
use secretgen_controller.Api.{Namespace, entries}
use secretgen_controller.Api.Exports.{static_to_namespaces}
use secretgen_controller.Sharing.Exports.{
  ExportedSecret, SecretMatcher, K8sReader, contains, matches,
}
use secretgen_controller.Sharing.Exports.Matching.{contains_iff, matches_iff}
use secretgen_controller.Sharing.Wildcards.{
  exclusion_ann_key, is_some, ns_has_exclusion_annotation, exclusion_of,
  namespace_wildcard_exclusion_check,
}

excluded_ns :
    {W : Type 0} (namespaces : Client W Namespace) (world : W) (ns : Text) (namespace : Namespace)
    (v : Text)
    → (namespaces.get (record { namespace = []; name = ns }) world).0 ≡ found namespace
    → Maps.get exclusion_ann_key (entries namespace.meta.annotations) ≡ some v
    → namespace_wildcard_exclusion_check namespaces world ns ≡ true
unfolding namespace_wildcard_exclusion_check exclusion_of ns_has_exclusion_annotation is_some
excluded_ns namespaces world ns namespace v here annotated = rw (here, annotated) refl

-- A namespace with the exclusion annotation gets no secret by `*`: an entry whose export neither names it
-- nor has selectors does not match for it. The namespace can be fetched.
pub matches-excluded_ns :
    {W : Type 0} (namespaces : Client W Namespace) (world : W) (namespace : Namespace) (v : Text)
    (es : ExportedSecret) (matcher : SecretMatcher) (reader : K8sReader)
    → (namespaces.get (record { namespace = []; name = matcher.to_namespace }) world).0
      ≡ found namespace
    → Maps.get exclusion_ann_key (entries namespace.meta.annotations) ≡ some v
    → contains matcher.to_namespace (static_to_namespaces es.export) ≡ false
    → es.namespaces_matcher ≡ []
    → matches es matcher (namespace_wildcard_exclusion_check namespaces world) reader ≡ false
matches-excluded_ns namespaces world namespace v es matcher reader here annotated unnamed
      unselected =
    let excluded = namespace_wildcard_exclusion_check namespaces world in
    let is_excluded =
      excluded_ns namespaces world matcher.to_namespace namespace v here annotated in
    elim (Bool-cases (matches es matcher excluded reader)) [
      | inr other ↦ other
      | inl accepted ↦ elim ((matches_iff es matcher excluded reader).0 accepted).offered [
        | inl named ↦ absurd (
            cc (
              unnamed,
              (contains_iff matcher.to_namespace (static_to_namespaces es.export)).1 named,
            ))
        | inr (inl (every, reached)) ↦ absurd (cc (is_excluded, reached))
        | inr (inr (selected, hold)) ↦ absurd (selected unselected)
      ]
    ]
