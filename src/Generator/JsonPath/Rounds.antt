-- ===== src/Generator/JsonPath/Rounds.antt =====
-- Single rounds of the loop of ToK8sJSONPath.
use mathlib.Core.List.{append_assoc}
use secretgen_controller.Common.{
  ℕ, suc, ◌+◌, ◌-◌, Text, get_elem?, get_elem?-append, Bool, true, false, ◌&&◌, some, [], ◌∷◌, ◌++◌,
  ◌≡◌, refl, arith, length, length-append, drop, take-append, drop-append, ◌==◌,
}
use secretgen_controller.Generator.JsonPath.{
  open_prefix, open_bracket, close_bracket, json_path_open, json_path_close, Stack, replace,
  is_byte, is_reference, replace_close, close_at, closing, step, convert,
}
use secretgen_controller.Generator.JsonPath.Grammar.{opens}

abbrev pub dollar_last : Text → Bool
dollar_last [] = false
dollar_last (c ∷ []) = c == open_prefix
dollar_last (c ∷ d ∷ s) = dollar_last (d ∷ s)

pub dollar_last-append : (pre : Text) (c : ℕ) → dollar_last (pre ++ (c ∷ [])) ≡ (c == open_prefix)
dollar_last-append [] c = refl
dollar_last-append (d ∷ []) c = refl
dollar_last-append (d ∷ e ∷ pre) c = dollar_last-append (e ∷ pre) c

-- What stands in front does not make a reference of an opening bracket.
abbrev pub Fits : Text → Text → Type 0
Fits pre s = opens s && dollar_last pre ≡ false

is_reference-append :
    (pre rest : Text) → is_reference (pre ++ rest) (length pre) ≡ some (dollar_last pre)
unfolding is_reference is_byte get_elem?
is_reference-append [] rest = refl
is_reference-append (c ∷ []) rest = refl
is_reference-append (c ∷ d ∷ pre) rest = is_reference-append (d ∷ pre) rest

replace-append :
    (pre old rest new : Text)
    → replace (pre ++ (old ++ rest)) (length pre) old new ≡ some (pre ++ (new ++ rest))
unfolding replace
replace-append pre old rest new =
    let whole = length-append pre (old ++ rest) in
    let part = length-append old rest in
    let behind : drop (length pre + length old) (pre ++ (old ++ rest)) ≡ rest =
      rw (← length-append pre old, ← append_assoc pre old rest) (drop-append (pre ++ old) rest) in
    rw (behind, take-append pre (old ++ rest)) (ground (arith, whole, part))

-- A round on a byte that is no bracket.
pub convert-byte :
    (fuel : ℕ) (pre : Text) (c : ℕ) (rest : Text) (st : Stack)
    → (c == open_bracket) ≡ false
    → (c == close_bracket) ≡ false
    → convert (suc fuel) (pre ++ (c ∷ rest)) (length pre) st
      ≡ convert fuel (pre ++ (c ∷ rest)) (length pre + 1) st
unfolding convert step
convert-byte fuel pre c rest st no_open no_close =
    rw (get_elem?-append pre c rest, step, no_open, no_close) refl

pub convert-open :
    (fuel : ℕ) (pre rest : Text) (st : Stack)
    → convert (suc fuel) (pre ++ (open_bracket ∷ rest)) (length pre) st
      ≡ convert fuel (pre ++ (open_bracket ∷ rest)) (length pre + 1) (length pre ∷ st)
unfolding convert step
convert-open fuel pre rest st = rw (get_elem?-append pre open_bracket rest) refl

-- A round on a closing bracket, behind `mid` and an opening bracket that makes no reference.
pub convert-close :
    (fuel : ℕ) (pre mid rest : Text) (st : Stack)
    → dollar_last pre ≡ false
    → convert
        (suc fuel)
        (pre ++ (mid ++ (close_bracket ∷ rest)))
        (length (pre ++ mid))
        (length pre ∷ st)
      ≡ convert fuel (pre ++ (mid ++ (close_bracket ∷ rest))) (length (pre ++ mid) + 1) st
unfolding convert step closing close_at
convert-close fuel pre mid rest st h =
    let here : get_elem? (pre ++ (mid ++ (close_bracket ∷ rest))) (length (pre ++ mid))
        ≡ some close_bracket =
      rw (← append_assoc pre mid (close_bracket ∷ rest))
        (get_elem?-append (pre ++ mid) close_bracket rest) in
    rw (here, is_reference-append pre (mid ++ (close_bracket ∷ rest)), h) refl

index_lem : (pre mid : Text) (c d : ℕ) → length (pre ++ (c ∷ d ∷ mid)) ≡ length pre + length mid + 2
index_lem pre mid c d = omega (arith, length-append pre (c ∷ d ∷ mid))

-- A round on a closing bracket, behind `mid` and the start of a reference.
pub convert-reference :
    (fuel : ℕ) (pre mid rest : Text) (st : Stack)
    → convert
        (suc fuel)
        (pre ++ (open_prefix ∷ open_bracket ∷ (mid ++ (close_bracket ∷ rest))))
        (length pre + length mid + 2)
        (suc (length pre) ∷ st)
      ≡ convert fuel
          (pre ++ (json_path_open ∷ (mid ++ (json_path_close ∷ rest))))
          (length pre + length mid + 2)
          st
unfolding convert step closing close_at replace_close
convert-reference fuel pre mid rest st =
    let front = pre ++ (open_prefix ∷ open_bracket ∷ mid) in
    let first = pre ++ (open_prefix ∷ []) in
    let path = pre ++ (open_prefix ∷ open_bracket ∷ (mid ++ (close_bracket ∷ rest))) in
    let here : get_elem? path (length pre + length mid + 2) ≡ some close_bracket =
      rw
        (
          ← index_lem pre mid open_prefix open_bracket,
          ← append_assoc pre (open_prefix ∷ open_bracket ∷ mid) (close_bracket ∷ rest),
        )
        (get_elem?-append front close_bracket rest) in
    let dollar : is_reference path (suc (length pre)) ≡ some true =
      unfold is_reference is_byte in
      rw (get_elem?-append pre open_prefix (open_bracket ∷ (mid ++ (close_bracket ∷ rest)))) refl in
    let at_open : suc (length pre) - 1 ≡ length pre = omega arith in
    let opened : replace path (length pre) (open_prefix ∷ open_bracket ∷ []) (json_path_open ∷ [])
        ≡ some (pre ++ (json_path_open ∷ (mid ++ (close_bracket ∷ rest)))) =
      replace-append pre (open_prefix ∷ open_bracket ∷ []) (mid ++ (close_bracket ∷ rest))
        (json_path_open ∷ []) in
    let index : length pre + length mid + 2 - 1 ≡ length (pre ++ (json_path_open ∷ mid)) =
      omega (arith, length-append pre (json_path_open ∷ mid)) in
    let closed : replace (pre ++ (json_path_open ∷ (mid ++ (close_bracket ∷ rest))))
          (length (pre ++ (json_path_open ∷ mid))) (close_bracket ∷ []) (json_path_close ∷ [])
        ≡ some (pre ++ (json_path_open ∷ (mid ++ (json_path_close ∷ rest)))) =
      rw
        (
          ← append_assoc pre (json_path_open ∷ mid) (close_bracket ∷ rest),
          ← append_assoc pre (json_path_open ∷ mid) (json_path_close ∷ rest),
        )
        (replace-append (pre ++ (json_path_open ∷ mid)) (close_bracket ∷ []) rest
          (json_path_close ∷ [])) in
    let next : length pre + length mid + 2 - 1 + 1 ≡ length pre + length mid + 2 = omega arith in
    rw (here, dollar, at_open, opened, index, replace_close, closed, next) refl
