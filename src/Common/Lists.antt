-- ===== src/Common/Lists.antt =====
-- Lists measured by native numbers, filtered by Boolean tests, and predicates on all items.
use Prim.Native.Nat.{ℕ, zero, suc, ◌+◌, ◌-◌, min}
use mathlib.Core.Path.{◌≡◌, refl, ap, ◌∙◌, subst}
use mathlib.Core.Bool.{Bool, true, false}
use mathlib.Core.List.{List, [], ◌∷◌, ◌++◌, map, Permᴰ}
use mathlib.Core.List.Permᴰ
use native.Mathlib.Omega.{arith}
use secretgen_controller.Common.Tests.{if◌then◌else◌, Bool-cases}
use mathlib.Core.Logic.{inl, inr}

module _ {ℓ} {A : Type ℓ} where
  abbrev pub length : List A → ℕ
  length [] = 0
  length (x ∷ xs) = suc (length xs)

  abbrev pub take : ℕ → List A → List A
  take zero xs = []
  take (suc n) [] = []
  take (suc n) (x ∷ xs) = x ∷ take n xs

  abbrev pub drop : ℕ → List A → List A
  drop zero xs = xs
  drop (suc n) [] = []
  drop (suc n) (x ∷ xs) = drop n xs

  pub length-append : (xs ys : List A) → length (xs ++ ys) ≡ length xs + length ys
  length-append [] ys = omega arith
  length-append (x ∷ xs) ys = omega (arith, length-append xs ys)

  pub length-take : (n : ℕ) (xs : List A) → length (take n xs) ≡ min n (length xs)
  length-take zero xs = omega arith
  length-take (suc n) [] = omega arith
  length-take (suc n) (x ∷ xs) = omega (arith, length-take n xs)

  pub length-drop : (n : ℕ) (xs : List A) → length (drop n xs) ≡ length xs - n
  length-drop zero xs = omega arith
  length-drop (suc n) [] = omega arith
  length-drop (suc n) (x ∷ xs) = omega (arith, length-drop n xs)

  pub take-append : (xs ys : List A) → take (length xs) (xs ++ ys) ≡ xs
  take-append [] ys = refl
  take-append (x ∷ xs) ys = ap (λ l. x ∷ l) (take-append xs ys)

  pub drop-append : (xs ys : List A) → drop (length xs) (xs ++ ys) ≡ ys
  drop-append [] ys = refl
  drop-append (x ∷ xs) ys = drop-append xs ys

  pub length-perm : {xs ys : List A} → Permᴰ xs ys → length xs ≡ length ys
  length-perm Permᴰ.nil = refl
  length-perm (Permᴰ.cons e p) = ap suc (length-perm p)
  length-perm (Permᴰ.swap e f) = refl
  length-perm (Permᴰ.trans p q) = length-perm p ∙ length-perm q

  -- Every item satisfies `P`.
  abbrev pub All {κ} : (A → Type κ) → List A → Type κ
  All P [] = Unit
  All P (x ∷ xs) = P x × All P xs

  pub All-perm {κ} : (P : A → Type κ) {xs ys : List A} → Permᴰ xs ys → All P xs → All P ys
  All-perm P Permᴰ.nil h = tt
  All-perm P (Permᴰ.cons e p) h = (subst P e h.0, All-perm P p h.1)
  All-perm P (Permᴰ.swap e f) h = (subst P f h.1.0, (subst P e h.0, h.1.1))
  All-perm P (Permᴰ.trans p q) h = All-perm P q (All-perm P p h)

  pub All-map {κ μ} :
      {P : A → Type κ} {Q : A → Type μ} (f : (x : A) → P x → Q x) (xs : List A)
      → All P xs
      → All Q xs
  All-map f [] h = tt
  All-map f (x ∷ xs) h = (f x h.0, All-map f xs h.1)

  -- The items that pass a Boolean test, in order.
  abbrev pub keep : (A → Bool) → List A → List A
  keep p [] = []
  keep p (x ∷ xs) = let rest = keep p xs in if p x then x ∷ rest else rest

  pub All-keep {κ} : (P : A → Type κ) (p : A → Bool) (xs : List A) → All P xs → All P (keep p xs)
  All-keep P p [] h = tt
  All-keep P p (x ∷ xs) h = elim (Bool-cases (p x)) [
    | inl yes' ↦ rw yes' (h.0, All-keep P p xs h.1)
    | inr no' ↦ rw no' (All-keep P p xs h.1)
  ]

  perm-if :
      (b : Bool) (x : A) {l m : List A}
      → Permᴰ l m
      → Permᴰ (if b then x ∷ l else l) (if b then x ∷ m else m)
  perm-if true x q = Permᴰ.cons refl q
  perm-if false x q = q

  perm-if-swap :
      (b c : Bool) (x y : A) (l : List A)
      → Permᴰ
          (if b then x ∷ (if c then y ∷ l else l) else (if c then y ∷ l else l))
          (if c then y ∷ (if b then x ∷ l else l) else (if b then x ∷ l else l))
  perm-if-swap true true x y l = Permᴰ.swap refl refl
  perm-if-swap true false x y l = Permᴰ.refl (x ∷ l)
  perm-if-swap false true x y l = Permᴰ.refl (y ∷ l)
  perm-if-swap false false x y l = Permᴰ.refl l

  -- Filtering two orders of the same items gives two orders of the same items.
  pub keep-perm : (p : A → Bool) {xs ys : List A} → Permᴰ xs ys → Permᴰ (keep p xs) (keep p ys)
  keep-perm p Permᴰ.nil = Permᴰ.nil
  keep-perm p (Permᴰ.cons {a} {b} {l₁} {l₂} e q) =
      subst (λ y. Permᴰ (keep p (a ∷ l₁)) (keep p (y ∷ l₂))) e (perm-if (p a) a (keep-perm p q))
  keep-perm p (Permᴰ.swap {a} {b} {b'} {l} e f) =
      subst (λ y. Permᴰ (keep p (a ∷ b ∷ l)) (keep p (y ∷ b' ∷ l))) f
        (subst (λ x. Permᴰ (keep p (a ∷ b ∷ l)) (keep p (b ∷ x ∷ l))) e
          (perm-if-swap (p a) (p b) a b (keep p l)))
  keep-perm p (Permᴰ.trans q r) = Permᴰ.trans (keep-perm p q) (keep-perm p r)

module _ {ℓ κ} {A : Type ℓ} {B : Type κ} (f : A → B) where
  pub length-map : (xs : List A) → length (map f xs) ≡ length xs
  length-map [] = refl
  length-map (x ∷ xs) = ap suc (length-map xs)

  pub map-perm : {xs ys : List A} → Permᴰ xs ys → Permᴰ (map f xs) (map f ys)
  map-perm Permᴰ.nil = Permᴰ.nil
  map-perm (Permᴰ.cons e p) = Permᴰ.cons (ap f e) (map-perm p)
  map-perm (Permᴰ.swap e g) = Permᴰ.swap (ap f e) (ap f g)
  map-perm (Permᴰ.trans p q) = Permᴰ.trans (map-perm p) (map-perm q)
