-- ===== src/Sharing/Exports/Returned.antt =====
-- The list that `MatchedSecretsForImport` returns.
use mathlib.Core.List.{Permᴰ}
use secretgen_controller.Common.{
  Text, text_eq, text_eq_iff, text_lt, ◌≡◌, refl, sym, ap, Bool, true, false, List, [], ◌∷◌, map,
  arith, keep, keep-perm, map-perm, All, All-map, All-keep,
}
use secretgen_controller.Common.Sort.{
  sort, sort-perm, sort_unique, sort-perm-eq, sort-IsSorted, IsSorted, AreComparable,
  keep-AreComparable,
}
use secretgen_controller.Api.{slash}
use secretgen_controller.Api.Exports.{static_to_namespaces}
use secretgen_controller.Sharing.Floats.{Float64, IsFloat64}
use secretgen_controller.Sharing.Exports.{
  ExportedSecret, SecretExports, SecretMatcher, K8sReader, contains, weight_of, sort_key, less,
  sorts_before, matched, matches, matched_secrets_for_import,
}
use secretgen_controller.Sharing.Exports.Cache.{IsCache}
use secretgen_controller.Sharing.Exports.Order.{
  IsWeighted, AllWeighted, sorts_before-order, IsCache-AreComparable,
}

-- `a` may stand before `b` in the result: the weight of `a` is not above that of `b`; at equal
-- weights, `b` is in the namespace if `a` is; then `b` names the namespace if `a` does; then the
-- names are in order.
pub record Precedes {F : Type 0} (float : Float64 F) (to_ns : Text) (a b : ExportedSecret)
    : Type 0 where
  pub weight : float.less (weight_of float b) (weight_of float a) ≡ false
  pub within :
      float.less (weight_of float a) (weight_of float b) ≡ false
      → a.secret.meta.namespace ≡ to_ns
      → b.secret.meta.namespace ≡ to_ns
  pub exact :
      float.less (weight_of float a) (weight_of float b) ≡ false
      → text_eq a.secret.meta.namespace to_ns ≡ text_eq b.secret.meta.namespace to_ns
      → contains to_ns (static_to_namespaces a.export) ≡ true
      → contains to_ns (static_to_namespaces b.export) ≡ true
  pub name :
      float.less (weight_of float a) (weight_of float b) ≡ false
      → text_eq a.secret.meta.namespace to_ns ≡ text_eq b.secret.meta.namespace to_ns
      → contains to_ns (static_to_namespaces a.export)
        ≡ contains to_ns (static_to_namespaces b.export)
      → text_lt
          (slash b.secret.meta.namespace b.secret.meta.name)
          (slash a.secret.meta.namespace a.secret.meta.name)
        ≡ false

-- Every item may stand before those behind it.
abbrev pub InOrder : {F : Type 0} → Float64 F → Text → List ExportedSecret → Type 0
InOrder float to_ns [] = Unit
InOrder float to_ns (a ∷ rest) = All (Precedes float to_ns a) rest × InOrder float to_ns rest

module _ {F : Type 0} (float : Float64 F) (laws : IsFloat64 float) (matcher : SecretMatcher)
    (excluded : Text → Bool) (reader : K8sReader) where
  abbrev to_ns : Text
  to_ns = matcher.to_namespace

  not_after-Precedes :
      (a b : ExportedSecret) → sorts_before float to_ns b a ≡ false → Precedes float to_ns a b
  unfolding sorts_before sort_key less
  not_after-Precedes a b h = record {
    weight = ground arith;
    within = ground (
      arith,
      text_eq_iff a.secret.meta.namespace to_ns,
      text_eq_iff b.secret.meta.namespace to_ns,
    );
    exact = ground arith;
    name = ground arith;
  }

  IsSorted-InOrder :
      (xs : List ExportedSecret) → IsSorted (sorts_before float to_ns) xs → InOrder float to_ns xs
  IsSorted-InOrder [] h = tt
  IsSorted-InOrder (a ∷ rest) h =
      (All-map (λ b. not_after-Precedes a b) rest h.0, IsSorted-InOrder rest h.1)

  matched-AllWeighted :
      (cache : SecretExports)
      → AllWeighted float cache
      → All (IsWeighted float) (matched float cache matcher excluded reader)
  unfolding matched
  matched-AllWeighted cache w = All-keep _ _ _ w

  matched-AreComparable :
      (cache : SecretExports)
      → IsCache cache
      → AreComparable (sorts_before float to_ns) (matched float cache matcher excluded reader)
  unfolding matched
  matched-AreComparable cache h =
      keep-AreComparable _ _ _ (IsCache-AreComparable laws to_ns cache h.is_map h.all_exported)

  -- With number weights, the result holds the secrets of exactly the entries that match, in the
  -- documented order.
  pub matched_secrets_for_import-InOrder :
      (cache : SecretExports)
      → AllWeighted float cache
      → (xs : List ExportedSecret) × Permᴰ xs
          (keep (λ es. matches es matcher excluded reader) (map (λ entry. entry.1) cache))
        × InOrder float matcher.to_namespace xs
        × (matched_secrets_for_import float cache matcher excluded reader
            ≡ map (λ (es : ExportedSecret). es.secret) xs)
  unfolding matched_secrets_for_import
  matched_secrets_for_import-InOrder cache w =
      let found = matched float cache matcher excluded reader in
      (
        sort (sorts_before float to_ns) found,
        sort-perm (sorts_before float to_ns) found,
        IsSorted-InOrder _
            (sort-IsSorted (sorts_before-order laws to_ns) found (matched-AllWeighted cache w)),
        refl,
      )

  -- With number weights, the order in which Go iterates over the map does not show in the result.
  pub matched_secrets_for_import-perm :
      {cache cache' : SecretExports}
      → Permᴰ cache cache'
      → IsCache cache
      → AllWeighted float cache
      → matched_secrets_for_import float cache matcher excluded reader
        ≡ matched_secrets_for_import float cache' matcher excluded reader
  unfolding matched_secrets_for_import
  matched_secrets_for_import-perm {cache} {cache'} p h w =
      ap (map (λ (es : ExportedSecret). es.secret)) (
        sort-perm-eq (sorts_before-order laws to_ns)
          (keep-perm (λ es. matches es matcher excluded reader) (map-perm (λ entry. entry.1) p))
          (matched-AllWeighted cache w) (matched-AreComparable cache h))

  -- With number weights, whatever algorithm sort.Slice uses returns this list: an arrangement of the
  -- matching entries in which none stands before one that is less is the sorted one.
  pub matched_secrets_for_import_unique :
      (cache : SecretExports) {ys : List ExportedSecret}
      → IsCache cache
      → AllWeighted float cache
      → Permᴰ (keep (λ es. matches es matcher excluded reader) (map (λ entry. entry.1) cache)) ys
      → IsSorted (sorts_before float matcher.to_namespace) ys
      → matched_secrets_for_import float cache matcher excluded reader
        ≡ map (λ (es : ExportedSecret). es.secret) ys
  unfolding matched_secrets_for_import
  matched_secrets_for_import_unique cache h w p s = ap (map (λ (es : ExportedSecret). es.secret)) (
      sym (
        sort_unique (sorts_before-order laws to_ns) p (matched-AllWeighted cache w)
          (matched-AreComparable cache h) s))
