-- ===== src/Common/Maps.antt =====
-- A Go map as an association list. A write replaces the entry of its key.
use secretgen_controller.Common.{
  Eq, ◌≡◌, refl, false, Option, none, some, List, [], ◌∷◌, arith, if◌then◌else◌, Bool-cases, inl,
  inr, subst,
}

abbrev pub Map {ℓ κ} : Type ℓ → Type κ → Type (ℓ ⊔ κ)
Map K V = List (K × V)

module _ {ℓ κ} {K : Type ℓ} {V : Type κ} ⦃e : Eq K⦄ where
  unfoldable pub get : K → Map K V → Option V
  get k [] = none
  get k ((j, v) ∷ m) = if e.beq j k then some v else get k m

  unfoldable pub put : K → V → Map K V → Map K V
  put k v [] = (k, v) ∷ []
  put k v ((j, w) ∷ m) = if e.beq j k then (k, v) ∷ m else (j, w) ∷ put k v m

  unfoldable pub delete : K → Map K V → Map K V
  delete k [] = []
  delete k ((j, w) ∷ m) = let rest = delete k m in if e.beq j k then rest else (j, w) ∷ rest

  pub get-put :
      (k j : K) (v : V) (m : Map K V) → get j (put k v m) ≡ (if e.beq k j then some v else get j m)
  unfolding get put
  get-put k j v [] = refl
  get-put k j v ((i, w) ∷ m) =
      ground (arith, e.beq_iff k j, e.beq_iff i k, e.beq_iff i j, get-put k j v m)

  pub get-put_self : (k : K) (v : V) (m : Map K V) → get k (put k v m) ≡ some v
  get-put_self k v m = ground (arith, get-put k k v m, e.beq_iff k k)

  pub get-delete :
      (k j : K) (m : Map K V) → get j (delete k m) ≡ (if e.beq k j then none else get j m)
  unfolding get delete
  get-delete k j [] = ground arith
  get-delete k j ((i, w) ∷ m) =
      ground (arith, e.beq_iff k j, e.beq_iff i k, e.beq_iff i j, get-delete k j m)

  -- No key stands twice.
  abbrev pub Absent : K → Map K V → Type 0
  Absent k [] = Unit
  Absent k ((j, w) ∷ m) = (e.beq j k ≡ false) × Absent k m

  pub get-Absent : (k : K) (m : Map K V) → Absent k m → get k m ≡ none
  unfolding get
  get-Absent k [] a = refl
  get-Absent k ((j, w) ∷ m) a = rw a.0 (get-Absent k m a.1)

  abbrev pub IsMap : Map K V → Type 0
  IsMap [] = Unit
  IsMap ((j, w) ∷ m) = Absent j m × IsMap m

  Absent-put :
      (k j : K) (v : V) (m : Map K V) → e.beq k j ≡ false → Absent j m → Absent j (put k v m)
  unfolding put
  Absent-put k j v [] h a = (h, tt)
  Absent-put k j v ((i, w) ∷ m) h a = elim (Bool-cases (e.beq i k)) [
    | inl same ↦ rw same (h, a.1)
    | inr other ↦ rw other (a.0, Absent-put k j v m h a.1)
  ]

  pub put-IsMap : (k : K) (v : V) (m : Map K V) → IsMap m → IsMap (put k v m)
  unfolding put
  put-IsMap k v [] h = (tt, tt)
  put-IsMap k v ((i, w) ∷ m) h = elim (Bool-cases (e.beq i k)) [
    | inl same ↦ rw same (subst (λ x. Absent x m) ((e.beq_iff i k).0 same) h.0, h.1)
    | inr other ↦
        rw other (
          Absent-put k i v m (ground (arith, e.beq_iff k i, e.beq_iff i k)) h.0,
          put-IsMap k v m h.1,
        )
  ]

  Absent-delete : (k j : K) (m : Map K V) → Absent j m → Absent j (delete k m)
  unfolding delete
  Absent-delete k j [] a = tt
  Absent-delete k j ((i, w) ∷ m) a = elim (Bool-cases (e.beq i k)) [
    | inl same ↦ rw same (Absent-delete k j m a.1)
    | inr other ↦ rw other (a.0, Absent-delete k j m a.1)
  ]

  pub delete-IsMap : (k : K) (m : Map K V) → IsMap m → IsMap (delete k m)
  unfolding delete
  delete-IsMap k [] h = tt
  delete-IsMap k ((i, w) ∷ m) h = elim (Bool-cases (e.beq i k)) [
    | inl same ↦ rw same (delete-IsMap k m h.1)
    | inr other ↦ rw other (Absent-delete k i m h.0, delete-IsMap k m h.1)
  ]
