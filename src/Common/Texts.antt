-- ===== src/Common/Texts.antt =====
-- Go strings are sequences of bytes: a text is the list of its bytes.
use Prim.Native.Nat.{ℕ, zero, suc, ◌<◌, ◌≤◌}
use Prim.Native.Char.{code}
use Prim.Native.String.{String}
use mathlib.Core.Path.{◌≡◌, refl}
use mathlib.Core.Logic.{◌↔◌, ◌⊎◌}
use mathlib.Core.Bool.{Bool, true, false, ◌&&◌}
use mathlib.Core.List.{List, [], ◌∷◌, ◌++◌}
use mathlib.Core.Option.{Option, none, some}
use secretgen_controller.Common.Lists.{length}
use native.Mathlib.Omega.{arith}
use secretgen_controller.Common.Tests.{ltb, ◌==◌, if◌then◌else◌, Eq}

abbrev pub Text : Type 0
Text = List ℕ

-- The bytes of an ASCII literal.
abbrev pub codes : String → Text
codes String.[] = []
codes (String.◌∷◌ c s) = code c ∷ codes s

-- `a == b` on strings.
unfoldable pub text_eq : Text → Text → Bool
text_eq [] [] = true
text_eq [] (d ∷ t) = false
text_eq (c ∷ s) [] = false
text_eq (c ∷ s) (d ∷ t) = c == d && text_eq s t

pub text_eq_iff : (a b : Text) → (text_eq a b ≡ true) ↔ (a ≡ b)
unfolding text_eq
text_eq_iff (c ∷ s) (d ∷ t) = ground (arith, text_eq_iff s t)
text_eq_iff _ _ = ground arith

instance abbrev pub text_eq_instance : Eq Text
text_eq_instance = record { beq = text_eq; beq_iff = text_eq_iff }

-- `len(s) == 0`.
abbrev pub is_empty {ℓ} : {A : Type ℓ} → List A → Bool
is_empty [] = true
is_empty (_ ∷ _) = false

-- `a < b` on strings: byte by byte, a proper prefix first.
unfoldable pub text_lt : Text → Text → Bool
text_lt [] [] = false
text_lt [] (d ∷ t) = true
text_lt (c ∷ s) [] = false
text_lt (c ∷ s) (d ∷ t) = if ltb c d then true else if c == d then text_lt s t else false

pub text_lt_irrefl : (a : Text) → text_lt a a ≡ false
unfolding text_lt
text_lt_irrefl [] = refl
text_lt_irrefl (c ∷ s) = ground (arith, text_lt_irrefl s)

pub text_lt_trans : (a b c : Text) → text_lt a b ≡ true → text_lt b c ≡ true → text_lt a c ≡ true
unfolding text_lt
text_lt_trans (x ∷ a) (y ∷ b) (z ∷ c) h k = ground (arith, text_lt_trans a b c)
text_lt_trans [] (y ∷ b) (z ∷ c) h k = refl
text_lt_trans _ _ _ h k = ground arith

-- Of two strings that differ, one is less.
pub text_lt-total : (a b : Text) → text_lt a b ≡ false → text_lt b a ≡ false → a ≡ b
unfolding text_lt
text_lt-total (x ∷ a) (y ∷ b) h k = ground (arith, text_lt-total a b)
text_lt-total [] [] h k = refl
text_lt-total _ _ h k = ground arith

pub text_lt-asym : (a b : Text) → text_lt a b ≡ true → text_lt b a ≡ false
text_lt-asym a b h = ground (arith, text_lt_trans a b a h, text_lt_irrefl a)

pub text_lt-cotrans :
    (a b c : Text) → text_lt a c ≡ true → (text_lt a b ≡ true) ⊎ (text_lt b c ≡ true)
text_lt-cotrans a b c h = ground (arith, text_lt-total a b, text_lt_trans b a c, text_lt-total b c)

-- `s[i]`, which panics out of range.
unfoldable pub get_elem? : Text → ℕ → Option ℕ
get_elem? [] i = none
get_elem? (c ∷ s) zero = some c
get_elem? (c ∷ s) (suc i) = get_elem? s i

pub get_elem?-some : (s : Text) (i : ℕ) → i < length s → (c : ℕ) × (get_elem? s i ≡ some c)
unfolding get_elem?
get_elem?-some [] i h = absurd (omega arith)
get_elem?-some (c ∷ s) zero h = (c, refl)
get_elem?-some (c ∷ s) (suc i) h = get_elem?-some s i (omega arith)

pub get_elem?-none : (s : Text) (i : ℕ) → length s ≤ i → get_elem? s i ≡ none
unfolding get_elem?
get_elem?-none [] i h = refl
get_elem?-none (c ∷ s) zero h = absurd (omega arith)
get_elem?-none (c ∷ s) (suc i) h = get_elem?-none s i (omega arith)

pub get_elem?-append :
    (pre : Text) (c : ℕ) (rest : Text) → get_elem? (pre ++ (c ∷ rest)) (length pre) ≡ some c
unfolding get_elem?
get_elem?-append [] c rest = refl
get_elem?-append (d ∷ pre) c rest = get_elem?-append pre c rest
