-- ===== src/Common/Sort.antt =====
-- `sort.Slice` by a Boolean order, as insertion sort.
use mathlib.Core.Path.{ap₂}
use mathlib.Core.List.{Permᴰ}
use mathlib.Core.List.Permᴰ
use mathlib.Core.List.Permᴰ.{symm}
use secretgen_controller.Common.{
  ◌≡◌, refl, ◌∙◌, sym, Bool, true, false, ◌⊎◌, inl, inr, List, [], ◌∷◌, arith, if◌then◌else◌,
  Bool-cases, All, All-perm, All-keep, keep, subst,
}

module _ {ℓ} {A : Type ℓ} (less : A → A → Bool) where
  unfoldable pub insert : A → List A → List A
  insert x [] = x ∷ []
  insert x (y ∷ ys) = let rest = insert x ys in if less y x then y ∷ rest else x ∷ y ∷ ys

  unfoldable pub sort : List A → List A
  sort [] = []
  sort (x ∷ xs) = insert x (sort xs)

  insert-perm : (x : A) (ys : List A) → Permᴰ (insert x ys) (x ∷ ys)
  unfolding insert
  insert-perm x [] = Permᴰ.refl (x ∷ [])
  insert-perm x (y ∷ ys) = elim (Bool-cases (less y x)) [
    | inl before ↦
        rw before (Permᴰ.trans (Permᴰ.cons refl (insert-perm x ys)) (Permᴰ.swap refl refl))
    | inr after ↦ rw after (Permᴰ.refl (x ∷ y ∷ ys))
  ]

  pub sort-perm : (xs : List A) → Permᴰ (sort xs) xs
  unfolding sort
  sort-perm [] = Permᴰ.nil
  sort-perm (x ∷ xs) = Permᴰ.trans (insert-perm x (sort xs)) (Permᴰ.cons refl (sort-perm xs))

  -- No item stands before one that is less than it.
  abbrev pub IsSorted : List A → Type ℓ
  IsSorted [] = Unit
  IsSorted (x ∷ xs) = All (λ y. less y x ≡ false) xs × IsSorted xs

  -- Every two items are told apart by the order.
  abbrev pub AreComparable : List A → Type ℓ
  AreComparable [] = Unit
  AreComparable (x ∷ xs) = All (λ y. (less x y ≡ true) ⊎ (less y x ≡ true)) xs × AreComparable xs

  AreComparable-perm : {xs ys : List A} → Permᴰ xs ys → AreComparable xs → AreComparable ys
  AreComparable-perm Permᴰ.nil h = tt
  AreComparable-perm (Permᴰ.cons {l₂} e p) h = (
    subst (λ x. All (λ y. (less x y ≡ true) ⊎ (less y x ≡ true)) l₂) e (All-perm _ p h.0),
    AreComparable-perm p h.1,
  )
  AreComparable-perm (Permᴰ.swap {b} {b'} {l} e f) h =
      subst (λ y. AreComparable (y ∷ b' ∷ l)) f
        (subst (λ x. AreComparable (b ∷ x ∷ l)) e
          ((elim h.0.0 [ inl p ↦ inr p | inr p ↦ inl p ], h.1.0), (h.0.1, h.1.1)))
  AreComparable-perm (Permᴰ.trans p q) h = AreComparable-perm q (AreComparable-perm p h)

  pub keep-AreComparable :
      (p : A → Bool) (xs : List A) → AreComparable xs → AreComparable (keep p xs)
  keep-AreComparable p [] h = tt
  keep-AreComparable p (x ∷ xs) h = elim (Bool-cases (p x)) [
    | inl taken ↦ rw taken (All-keep _ p xs h.0, keep-AreComparable p xs h.1)
    | inr left ↦ rw left (keep-AreComparable p xs h.1)
  ]

  -- Sorting what is sorted changes nothing.
  sort-of_sorted : (xs : List A) → IsSorted xs → sort xs ≡ xs
  unfolding sort
  sort-of_sorted [] h = refl
  sort-of_sorted (x ∷ xs) h = rw (sort-of_sorted xs h.1) (front xs h.0)
    where
      front : (ys : List A) → All (λ y. less y x ≡ false) ys → insert x ys ≡ x ∷ ys
      front [] g = unfold insert in refl
      front (y ∷ ys) g = unfold insert in rw g.0

  insert-All : (Q : A → Type 0) (x : A) (ys : List A) → Q x → All Q ys → All Q (insert x ys)
  insert-All Q x ys q h = All-perm Q (symm (insert-perm x ys)) (q, h)

-- A strict weak order on the items that satisfy `P`.
pub record StrictWeakOrder {ℓ κ} {A : Type ℓ} (P : A → Type κ) (less : A → A → Bool)
    : Type (ℓ ⊔ κ) where
  pub asym : (x y : A) → P x → P y → less x y ≡ true → less y x ≡ false
  pub cotrans :
      (x y z : A) → P x → P y → P z → less x z ≡ true → (less x y ≡ true) ⊎ (less y z ≡ true)

module _ {ℓ κ} {A : Type ℓ} {P : A → Type κ} {less : A → A → Bool}
    (order : StrictWeakOrder P less) where
  less_trans : (x y z : A) → P x → P y → P z → less x y ≡ true → less y z ≡ true → less x z ≡ true
  less_trans x y z px py pz h k =
      ground (arith, order.cotrans x z y px pz py h, order.asym y z py pz k)

  insert-IsSorted :
      (x : A) (ys : List A) → P x → All P ys → IsSorted less ys → IsSorted less (insert less x ys)
  unfolding insert
  insert-IsSorted x [] px pys h = (tt, tt)
  insert-IsSorted x (y ∷ ys) px pys h = elim (Bool-cases (less y x)) [
    | inl before ↦ rw before (
      insert-All less _ x ys (order.asym y x pys.0 px before) h.0,
      insert-IsSorted x ys px pys.1 h.1,
    )
    | inr after ↦ rw after ((after, later ys pys.1 h.0 after), h)
  ]
    where
      later :
          (zs : List A)
          → All P zs
          → All (λ z. less z y ≡ false) zs
          → less y x ≡ false
          → All (λ z. less z x ≡ false) zs
      later [] pz g after = tt
      later (z ∷ zs) pz g after =
          (ground (arith, order.cotrans z y x pz.0 pys.0 px), later zs pz.1 g.1 after)

  pub sort-IsSorted : (xs : List A) → All P xs → IsSorted less (sort less xs)
  unfolding sort
  sort-IsSorted [] h = tt
  sort-IsSorted (x ∷ xs) h =
      insert-IsSorted x (sort less xs) h.0 (All-perm P (symm (sort-perm less xs)) h.1)
        (sort-IsSorted xs h.1)

  insert-insert :
      (x y : A) (zs : List A)
      → P x
      → P y
      → All P zs
      → (less x y ≡ true) ⊎ (less y x ≡ true)
      → insert less x (insert less y zs) ≡ insert less y (insert less x zs)
  unfolding insert
  insert-insert x y [] px py pz c = ground (arith, order.asym x y px py, order.asym y x py px)
  insert-insert x y (z ∷ zs) px py pz c = ground (
    arith,
    order.asym x y px py,
    order.asym y x py px,
    less_trans z x y pz.0 px py,
    less_trans z y x pz.0 py px,
    insert-insert x y zs px py pz.1 c,
  )

  -- Two orders of the same comparable items are sorted into the same list.
  pub sort-perm-eq :
      {xs ys : List A}
      → Permᴰ xs ys
      → All P xs
      → AreComparable less xs
      → sort less xs ≡ sort less ys
  unfolding sort
  sort-perm-eq Permᴰ.nil h c = refl
  sort-perm-eq (Permᴰ.cons e p) h c = ap₂ (insert less) e (sort-perm-eq p h.1 c.1)
  sort-perm-eq (Permᴰ.swap {a} {b} {l} e f) h c =
      insert-insert a b (sort less l) h.0 h.1.0 (All-perm P (symm (sort-perm less l)) h.1.1) c.0.0
      ∙ ap₂ (λ y x. insert less y (insert less x (sort less l))) f e
  sort-perm-eq (Permᴰ.trans p q) h c =
      sort-perm-eq p h c ∙ sort-perm-eq q (All-perm P p h) (AreComparable-perm less p c)

  -- The sorted order of comparable items is unique: whatever sorts them returns this list.
  pub sort_unique :
      {xs ys : List A}
      → Permᴰ xs ys
      → All P xs
      → AreComparable less xs
      → IsSorted less ys
      → ys ≡ sort less xs
  sort_unique {xs} {ys} p h c s = sym (sort-of_sorted less ys s) ∙ sym (sort-perm-eq p h c)
