-- ===== src/Generator/JsonPath/Total.antt =====
-- The loop of ToK8sJSONPath ends, inside the text.
use secretgen_controller.Common.{
  ℕ, zero, suc, ◌+◌, ◌-◌, ◌<◌, ◌≤◌, Text, get_elem?, get_elem?-some, get_elem?-none, true, Option,
  some, [], ◌∷◌, ◌++◌, ◌≡◌, refl, arith, All, All-map, length, length-append, length-take,
  length-drop, take, drop, ltb, ltb→lt, ◌==◌, Bool-cases, Option-cases, inl, inr,
}
use secretgen_controller.Generator.JsonPath.{
  open_prefix, open_bracket, close_bracket, json_path_open, json_path_close, Stack, replace,
  is_byte, is_reference, replace_close, close_at, closing, step, convert, to_k8s_json_path,
}

get_elem?-lt : (s : Text) (i c : ℕ) → get_elem? s i ≡ some c → i < length s
get_elem?-lt s i c h = elim (Bool-cases (ltb i (length s))) [
  | inl below ↦ ltb→lt i (length s) below
  | inr over ↦ absurd (ground (arith, get_elem?-none s i, h, over))
]

replace-some :
    (s : Text) (i : ℕ) (old new : Text)
    → i + length old ≤ length s
    → (t : Text) × (replace s i old new ≡ some t) × (length t + length old ≡ length s + length new)
unfolding replace
replace-some s i old new h = (
  take i s ++ (new ++ drop (i + length old) s),
  ground (arith, h),
  omega (
    arith,
    length-append (take i s) (new ++ drop (i + length old) s),
    length-append new (drop (i + length old) s),
    length-take i s,
    length-drop (i + length old) s,
    h,
  ),
)

-- A result, no longer than the text.
abbrev Ends : Option Text → ℕ → Type 0
Ends o n = (t : Text) × (o ≡ some t) × (length t ≤ n)

-- What the recursive call does on its smaller argument.
abbrev Next : (Text → ℕ → Stack → Option Text) → ℕ → Type 0
Next next fuel =
    (path : Text) (i : ℕ) (st : Stack)
    → i ≤ length path
    → length path < fuel + i
    → All (λ d. d < i) st
    → Ends (next path i st) (length path)

widen : (i : ℕ) (st : Stack) → All (λ d. d < i) st → All (λ d. d < i + 1) st
widen i st h = All-map (λ d k. omega (arith, k)) st h

close_at-Ends :
    (next : Text → ℕ → Stack → Option Text) (fuel : ℕ)
    → Next next fuel
    → (path : Text) (i d : ℕ) (st : Stack) → length path < suc fuel + i
    → i < length path
    → suc d < i
    → All (λ d. d < i) st
    → Ends (close_at next path i (suc d) st (some true)) (length path)
unfolding close_at replace_close
close_at-Ends next fuel rec path i d st bound inside below h =
    let (q, first, shorter) =
      replace-some path d (open_prefix ∷ open_bracket ∷ []) (json_path_open ∷ [])
        (omega (arith, inside, below)) in
    let (r, second, same) =
      replace-some q (i - 1) (close_bracket ∷ []) (json_path_close ∷ [])
        (omega (arith, inside, shorter)) in
    let (t, ended, shortest) =
      rec r (i - 1 + 1) st (omega (arith, inside, below, shorter, same))
        (omega (arith, bound, inside, below, shorter, same))
        (All-map (λ e k. omega (arith, k, below)) st h) in
    let index : suc d - 1 ≡ d = omega arith in
    (t, rw (index, first, replace_close, second) ended, omega (arith, shorter, same, shortest))

closing-Ends :
    (next : Text → ℕ → Stack → Option Text) (fuel : ℕ)
    → Next next fuel
    → (path : Text) (i : ℕ) (st : Stack) → length path < suc fuel + i
    → i < length path
    → All (λ d. d < i) st
    → Ends (closing next path i st) (length path)
unfolding closing close_at is_reference is_byte
closing-Ends next fuel rec path i [] bound inside h =
    rec path (i + 1) [] (omega (arith, inside)) (omega (arith, bound)) tt
closing-Ends next fuel rec path i (zero ∷ st) bound inside h =
    rec path (i + 1) st (omega (arith, inside)) (omega (arith, bound)) (widen i st h.1)
closing-Ends next fuel rec path i (suc d ∷ st) bound inside h =
    let (c, at) = get_elem?-some path d (omega (arith, h.0, inside)) in
    elim (Bool-cases (c == open_prefix)) [
      | inl dollar ↦ rw (at, dollar) (close_at-Ends next fuel rec path i d st bound inside h.0 h.1)
      | inr other ↦
          rw (at, other)
            (rec path (i + 1) st (omega (arith, inside)) (omega (arith, bound)) (widen i st h.1))
    ]

step-Ends :
    (next : Text → ℕ → Stack → Option Text) (fuel : ℕ)
    → Next next fuel
    → (path : Text) (i : ℕ) (st : Stack) (c : ℕ) → length path < suc fuel + i
    → i < length path
    → All (λ d. d < i) st
    → Ends (step next path i st (some c)) (length path)
unfolding step
step-Ends next fuel rec path i st c bound inside h = elim (Bool-cases (c == open_bracket)) [
  | inl is_open ↦ rw is_open (
      rec path (i + 1) (i ∷ st) (omega (arith, inside)) (omega (arith, bound))
        (omega arith, widen i st h))
  | inr closed ↦ rw closed (elim (Bool-cases (c == close_bracket)) [
    | inl is_close ↦ rw is_close (closing-Ends next fuel rec path i st bound inside h)
    | inr other ↦
        rw other (rec path (i + 1) st (omega (arith, inside)) (omega (arith, bound)) (widen i st h))
  ])
]

convert-Ends : (fuel : ℕ) → Next (convert fuel) fuel
unfolding convert step
convert-Ends zero path i st le bound h = absurd (omega (arith, le, bound))
convert-Ends (suc fuel) path i st le bound h = elim (Option-cases (get_elem? path i)) [
  | inl past ↦ rw past (path, refl, omega arith)
  | inr (c, at) ↦ rw at (
      step-Ends (convert fuel) fuel (convert-Ends fuel) path i st c bound (get_elem?-lt path i c at)
        h)
]

-- ToK8sJSONPath ends on every path, balanced or not, without an index out of range, and its result is
-- no longer than the path.
pub to_k8s_json_path-Ends :
    (path : Text) → (t : Text) × (to_k8s_json_path path ≡ some t) × (length t ≤ length path)
unfolding to_k8s_json_path
to_k8s_json_path-Ends path =
    convert-Ends (suc (length path)) path 0 [] (omega arith) (omega arith) tt
