-- ===== src/Sharing/Exports/Order.antt =====
-- The order in which matched secrets are returned: `SortKey`, `Less` and sort.Slice.
use secretgen_controller.Common.{
  Text, text_eq, text_eq_iff, text_eq_instance, text_lt, text_lt-asym, text_lt-cotrans,
  text_lt-total, ◌≡◌, ◌⊎◌, sym, ap₂, ◌∙◌, true, false, [], ◌∷◌, map, arith, All, Bool-cases, inl,
  inr,
}
use secretgen_controller.Common.Maps.{Absent, IsMap}
use secretgen_controller.Common.Sort.{AreComparable, StrictWeakOrder}
use secretgen_controller.Api.{slash}
use secretgen_controller.Sharing.Floats.{Float64, IsFloat64}
use secretgen_controller.Sharing.Exports.{
  ExportedSecret, SecretExports, SortKey, key, sort_key, less, weight_of, sorts_before,
}
use secretgen_controller.Sharing.Exports.Cache.{IsExported, AllExported}

module _ {F : Type 0} {float : Float64 F} (laws : IsFloat64 float) where
  abbrev IsNumber : SortKey F → Type 0
  IsNumber k = float.is_nan k.weight ≡ false

  less-asym : (k o : SortKey F) → less float k o ≡ true → less float o k ≡ false
  unfolding less
  less-asym k o h = ground (
    arith,
    laws.asym k.weight o.weight,
    laws.asym o.weight k.weight,
    text_lt-asym o.secret_ns_name k.secret_ns_name,
  )

  less-cotrans :
      (k l o : SortKey F)
      → IsNumber k
      → IsNumber l
      → IsNumber o
      → less float k o ≡ true
      → (less float k l ≡ true) ⊎ (less float l o ≡ true)
  unfolding less
  less-cotrans k l o nk nl no' h = ground (
    arith,
    laws.cotrans k.weight l.weight o.weight nl,
    laws.cotrans o.weight l.weight k.weight nl,
    laws.cotrans l.weight k.weight o.weight nk,
    laws.cotrans o.weight k.weight l.weight nk,
    laws.cotrans k.weight o.weight l.weight no',
    laws.cotrans l.weight o.weight k.weight no',
    laws.asym k.weight o.weight,
    laws.asym k.weight l.weight,
    laws.asym l.weight o.weight,
    text_lt-cotrans o.secret_ns_name l.secret_ns_name k.secret_ns_name,
  )

  less-total :
      (k o : SortKey F)
      → less float k o ≡ false
      → less float o k ≡ false
      → k.secret_ns_name ≡ o.secret_ns_name
  unfolding less
  less-total k o h g = ground (arith, text_lt-total k.secret_ns_name o.secret_ns_name)

  -- A weight that is NaN compares with no other weight: three keys that agree but in weight and name
  -- are then in a cycle, wherever the names and the two number weights go opposite ways.
  pub less-nan_cycle :
      (k l o : SortKey F)
      → float.is_nan l.weight ≡ true
      → float.less k.weight o.weight ≡ true
      → (k.within_to_ns ≡ l.within_to_ns) × (l.within_to_ns ≡ o.within_to_ns)
      → (k.matches_to_ns_exactly ≡ l.matches_to_ns_exactly)
        × (l.matches_to_ns_exactly ≡ o.matches_to_ns_exactly)
      → text_lt o.secret_ns_name l.secret_ns_name ≡ true
      → text_lt l.secret_ns_name k.secret_ns_name ≡ true
      → (less float k l ≡ true) × (less float l o ≡ true) × (less float o k ≡ true)
  unfolding less
  less-nan_cycle k l o nan w same exact no' nl = ground (
    arith,
    laws.nan_left l.weight k.weight nan,
    laws.nan_right k.weight l.weight nan,
    laws.nan_left l.weight o.weight nan,
    laws.nan_right o.weight l.weight nan,
  )

-- The weight of an export, where it has one, is a number.
abbrev pub IsWeighted : {F : Type 0} → Float64 F → ExportedSecret → Type 0
IsWeighted float es = float.is_nan (weight_of float es) ≡ false

abbrev pub AllWeighted : {F : Type 0} → Float64 F → SecretExports → Type 0
AllWeighted float cache = All (IsWeighted float) (map (λ entry. entry.1) cache)

module _ {F : Type 0} {float : Float64 F} (laws : IsFloat64 float) (to_ns : Text) where
  pub sorts_before-order : StrictWeakOrder (IsWeighted float) (sorts_before float to_ns)
  unfolding sorts_before sort_key
  sorts_before-order = record {
    asym = λ a b na nb h. less-asym laws (sort_key float b to_ns) (sort_key float a to_ns) h;
    cotrans = λ a b c na nb nc h.
        elim (less-cotrans laws (sort_key float c to_ns) (sort_key float b to_ns)
          (sort_key float a to_ns) nc nb na h) [ inl after ↦ inr after | inr before ↦ inl before ];
  }

  comparable :
      {j k : Text} {a b : ExportedSecret}
      → IsExported j a
      → IsExported k b
      → text_eq k j ≡ false
      → (sorts_before float to_ns a b ≡ true) ⊎ (sorts_before float to_ns b a ≡ true)
  unfolding sorts_before sort_key key
  comparable {j} {k} {a} {b} x y ne =
      elim (Bool-cases (less float (sort_key float b to_ns) (sort_key float a to_ns))) [
        | inl first ↦ inl first
        | inr not_first ↦
            elim (Bool-cases (less float (sort_key float a to_ns) (sort_key float b to_ns))) [
              | inl second ↦ inr second
              | inr not_second ↦
                  let same =
                    less-total laws (sort_key float b to_ns) (sort_key float a to_ns) not_first
                      not_second in
                  absurd (
                    cc (
                      ne,
                      (text_eq_iff k j).1 (
                          y.at_key
                          ∙ ap₂ slash y.namespace y.name
                          ∙ same
                          ∙ sym (x.at_key ∙ ap₂ slash x.namespace x.name)),
                    ))
            ]
      ]

  comparable-All :
      {j : Text} {a : ExportedSecret} (m : SecretExports)
      → IsExported j a
      → Absent j m
      → AllExported m
      → All
          (λ b. (sorts_before float to_ns a b ≡ true) ⊎ (sorts_before float to_ns b a ≡ true))
          (map (λ entry. entry.1) m)
  comparable-All [] x u e = tt
  comparable-All ((k, b) ∷ m) x u e = (comparable x e.0 u.0, comparable-All m x u.1 e.1)

  pub IsCache-AreComparable :
      (m : SecretExports)
      → IsMap m
      → AllExported m
      → AreComparable (sorts_before float to_ns) (map (λ entry. entry.1) m)
  IsCache-AreComparable [] u e = tt
  IsCache-AreComparable ((k, b) ∷ m) u e =
      (comparable-All m e.0 u.0 e.1, IsCache-AreComparable m u.1 e.1)
