-- ===== src/Expansion/Variables.antt =====
-- Expand on the texts that Variable makes.
use mathlib.Core.List.{append-nil}
use secretgen_controller.Common.{
  ℕ, zero, suc, ◌+◌, ◌≤◌, Text, some, [], ◌∷◌, ◌++◌, ◌≡◌, refl, ◌∙◌, ap, arith, length,
  length-append, drop, ltb, lt→ltb, ltb→lt, Bool-cases, inl, inr,
}
use secretgen_controller.Expansion.{
  reference_closer, variable, scan, try_read_variable_name, slice, at_operator, expand_loop, expand,
}
use secretgen_controller.Expansion.Grammar.{Open}

scan-Open : (k rest : Text) → Open k → scan (k ++ (reference_closer ∷ rest)) ≡ some k
unfolding scan
scan-Open [] rest h = ground arith
scan-Open (c ∷ k) rest h = ground (arith, scan-Open k rest h.1, h.0)

drop-length : (s : Text) (n : ℕ) → length s ≤ n → drop n s ≡ []
drop-length [] zero h = refl
drop-length [] (suc n) h = refl
drop-length (c ∷ s) zero h = absurd (omega arith)
drop-length (c ∷ s) (suc n) h = drop-length s n (omega arith)

loop-end :
    (n : ℕ) (input : Text) (f : Text → Text) (cursor : ℕ) (buf : Text)
    → length input ≤ cursor
    → expand_loop (suc n) input f cursor cursor buf ≡ some buf
unfolding expand_loop
loop-end n input f cursor buf h = elim (Bool-cases (ltb cursor (length input))) [
  | inl more ↦ absurd (omega (arith, ltb→lt cursor (length input) more))
  | inr over ↦ rw (expand_loop, over, drop-length input cursor h) (ap some (append-nil buf))
]

first_round :
    (n : ℕ) (k : Text) (f : Text → Text)
    → Open k
    → expand_loop (suc n) (variable k) f 0 0 []
      ≡ expand_loop n (variable k) f (0 + (length k + 2) + 1) (0 + (length k + 2) + 1) (f k)
unfolding expand_loop variable at_operator try_read_variable_name slice
first_round n k f h =
    rw
      (
        expand_loop,
        lt→ltb 0 (length (variable k)) (omega arith),
        at_operator,
        try_read_variable_name,
        scan-Open k [] h,
      )
      refl

-- A variable expands to the value of its name, where the name holds no closer.
pub expand-variable : (k : Text) (f : Text → Text) → Open k → expand (variable k) f ≡ some (f k)
unfolding expand variable
expand-variable k f h =
    first_round (length (variable k)) k f h
    ∙ loop-end (suc (length (k ++ (reference_closer ∷ [])))) (variable k) f (0 + (length k + 2) + 1)
        (f k) (omega (arith, length-append k (reference_closer ∷ [])))
