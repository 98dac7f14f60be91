-- ===== src/Generator/JsonPath/Rewriting.antt =====
-- ToK8sJSONPath on balanced paths.
use mathlib.Core.List.{append_assoc, append-nil}
use secretgen_controller.Common.{
  ℕ, suc, ◌+◌, Text, get_elem?-none, false, ◌&&◌, some, [], ◌∷◌, ◌++◌, ◌≡◌, refl, sym, ◌∙◌, arith,
  length, length-append, ◌==◌,
}
use secretgen_controller.Generator.JsonPath.{
  open_prefix, open_bracket, close_bracket, json_path_open, json_path_close, Stack, step, convert,
  to_k8s_json_path,
}
use secretgen_controller.Generator.JsonPath.Grammar.{
  opens, Converts, nothing, byte, group, reference,
}
use secretgen_controller.Generator.JsonPath.Rounds.{
  dollar_last-append, Fits, convert-byte, convert-open, convert-close, convert-reference,
}

-- Reads `s` behind `pre` and leaves `o` in its place, one round for each byte.
abbrev Rewrites : Text → Text → Type 0
Rewrites s o =
    (pre tail : Text) (st : Stack) (fuel : ℕ)
    → Fits pre s
    → convert (length s + fuel) (pre ++ (s ++ tail)) (length pre) st
      ≡ convert fuel (pre ++ (o ++ tail)) (length pre + length o) st

-- The same at a path, an index and a number of rounds that are written in another way.
Rewrites-at :
    (s o : Text)
    → Rewrites s o
    → (pre tail : Text) (st : Stack) (fuel n i j : ℕ) (path path' : Text) → Fits pre s
    → n ≡ length s + fuel
    → i ≡ length pre
    → j ≡ length pre + length o
    → path ≡ pre ++ (s ++ tail)
    → path' ≡ pre ++ (o ++ tail)
    → convert n path i st ≡ convert fuel path' j st
Rewrites-at s o rec pre tail st fuel n i j path path' fits count start stop before after =
    rw (count, start, stop, before, after) (rec pre tail st fuel fits)

byte-Rewrites :
    (c : ℕ) (s o : Text)
    → (c == open_bracket) ≡ false
    → (c == close_bracket) ≡ false
    → (c == open_prefix) && opens s ≡ false
    → Rewrites s o
    → Rewrites (c ∷ s) (c ∷ o)
byte-Rewrites c s o no_open no_close plain rec pre tail st fuel fits =
    let count : length (c ∷ s) + fuel ≡ suc (length s + fuel) = omega arith in
    rw count (
      convert-byte (length s + fuel) pre c (s ++ tail) st no_open no_close
      ∙ Rewrites-at s o rec (pre ++ (c ∷ [])) tail st fuel (length s + fuel) (length pre + 1)
          (length pre + suc (length o)) (pre ++ (c ∷ (s ++ tail))) (pre ++ (c ∷ (o ++ tail)))
          (rw (dollar_last-append pre c) (ground (arith, plain))) refl
          (omega (arith, length-append pre (c ∷ []))) (omega (arith, length-append pre (c ∷ [])))
          (sym (append_assoc pre (c ∷ []) (s ++ tail)))
          (sym (append_assoc pre (c ∷ []) (o ++ tail))))

-- Behind the text that is read, with a byte in front that is no `$`.
behind-Fits :
    (pre : Text) (c : ℕ) (s : Text) → (c == open_prefix) ≡ false → Fits (pre ++ (c ∷ [])) s
behind-Fits pre c s h = rw (dollar_last-append pre c) (ground (arith, h))

group-Rewrites :
    (a a' s o : Text)
    → Rewrites a a'
    → Rewrites s o
    → Rewrites
        (open_bracket ∷ (a ++ (close_bracket ∷ s)))
        (open_bracket ∷ (a' ++ (close_bracket ∷ o)))
group-Rewrites a a' s o rec_a rec_s pre tail st fuel fits =
    let rest = close_bracket ∷ (s ++ tail) in
    let count : length (open_bracket ∷ (a ++ (close_bracket ∷ s))) + fuel
        ≡ suc (length a + suc (length s + fuel)) =
      omega (arith, length-append a (close_bracket ∷ s)) in
    let stop : length pre + length (open_bracket ∷ (a' ++ (close_bracket ∷ o)))
        ≡ length (pre ++ (open_bracket ∷ a')) + 1 + length o =
      omega (arith, length-append a' (close_bracket ∷ o), length-append pre (open_bracket ∷ a')) in
    rw
      (
        count,
        stop,
        append_assoc a (close_bracket ∷ s) tail,
        append_assoc a' (close_bracket ∷ o) tail,
      )
      (convert-open (length a + suc (length s + fuel)) pre (a ++ rest) st
        ∙ Rewrites-at a a' rec_a (pre ++ (open_bracket ∷ [])) rest (length pre ∷ st)
            (suc (length s + fuel)) (length a + suc (length s + fuel)) (length pre + 1)
            (length (pre ++ (open_bracket ∷ a'))) (pre ++ (open_bracket ∷ (a ++ rest)))
            (pre ++ (open_bracket ∷ (a' ++ rest))) (behind-Fits pre open_bracket a (ground arith))
            refl (omega (arith, length-append pre (open_bracket ∷ [])))
            (omega
              (arith, length-append pre (open_bracket ∷ []), length-append pre (open_bracket ∷ a')))
            (sym (append_assoc pre (open_bracket ∷ []) (a ++ rest)))
            (sym (append_assoc pre (open_bracket ∷ []) (a' ++ rest)))
        ∙ convert-close (length s + fuel) pre (open_bracket ∷ a') (s ++ tail) st
            (ground (arith, fits))
        ∙ Rewrites-at s o rec_s ((pre ++ (open_bracket ∷ a')) ++ (close_bracket ∷ [])) tail st fuel
            (length s + fuel) (length (pre ++ (open_bracket ∷ a')) + 1)
            (length (pre ++ (open_bracket ∷ a')) + 1 + length o)
            (pre ++ (open_bracket ∷ (a' ++ rest)))
            (pre ++ (open_bracket ∷ (a' ++ (close_bracket ∷ (o ++ tail)))))
            (behind-Fits (pre ++ (open_bracket ∷ a')) close_bracket s (ground arith)) refl
            (omega (arith, length-append (pre ++ (open_bracket ∷ a')) (close_bracket ∷ [])))
            (omega (arith, length-append (pre ++ (open_bracket ∷ a')) (close_bracket ∷ [])))
            (simp append_assoc) (simp append_assoc))

reference-Rewrites :
    (a a' s o : Text)
    → Rewrites a a'
    → Rewrites s o
    → Rewrites
        (open_prefix ∷ open_bracket ∷ (a ++ (close_bracket ∷ s)))
        (json_path_open ∷ (a' ++ (json_path_close ∷ o)))
reference-Rewrites a a' s o rec_a rec_s pre tail st fuel fits =
    let rest = close_bracket ∷ (s ++ tail) in
    let dollar = pre ++ (open_prefix ∷ []) in
    let count : length (open_prefix ∷ open_bracket ∷ (a ++ (close_bracket ∷ s))) + fuel
        ≡ suc (suc (length a + suc (length s + fuel))) =
      omega (arith, length-append a (close_bracket ∷ s)) in
    let stop : length pre + length (json_path_open ∷ (a' ++ (json_path_close ∷ o)))
        ≡ length pre + length a' + 2 + length o =
      omega (arith, length-append a' (json_path_close ∷ o)) in
    let joined : pre ++ (open_prefix ∷ open_bracket ∷ (a ++ rest))
        ≡ dollar ++ (open_bracket ∷ (a ++ rest)) =
      sym (append_assoc pre (open_prefix ∷ []) (open_bracket ∷ (a ++ rest))) in
    let at_bracket : length pre + 1 ≡ length dollar =
      omega (arith, length-append pre (open_prefix ∷ [])) in
    let pushed : length dollar ≡ suc (length pre) = omega (arith, at_bracket) in
    rw
      (
        count,
        stop,
        append_assoc a (close_bracket ∷ s) tail,
        append_assoc a' (json_path_close ∷ o) tail,
      )
      (convert-byte (suc (length a + suc (length s + fuel))) pre open_prefix
          (open_bracket ∷ (a ++ rest)) st (ground arith) (ground arith)
        ∙ rw (joined, at_bracket, ← pushed)
            (convert-open (length a + suc (length s + fuel)) dollar (a ++ rest) st
              ∙ Rewrites-at a a' rec_a (dollar ++ (open_bracket ∷ [])) rest (length dollar ∷ st)
                  (suc (length s + fuel)) (length a + suc (length s + fuel)) (length dollar + 1)
                  (length pre + length a' + 2) (dollar ++ (open_bracket ∷ (a ++ rest)))
                  (pre ++ (open_prefix ∷ open_bracket ∷ (a' ++ rest)))
                  (behind-Fits dollar open_bracket a (ground arith)) refl
                  (omega (arith, length-append dollar (open_bracket ∷ [])))
                  (omega (arith, pushed, length-append dollar (open_bracket ∷ [])))
                  (sym (append_assoc dollar (open_bracket ∷ []) (a ++ rest))) (simp append_assoc))
        ∙ convert-reference (length s + fuel) pre a' (s ++ tail) st
        ∙ Rewrites-at s o rec_s ((pre ++ (json_path_open ∷ a')) ++ (json_path_close ∷ [])) tail st
            fuel (length s + fuel) (length pre + length a' + 2)
            (length pre + length a' + 2 + length o)
            (pre ++ (json_path_open ∷ (a' ++ (json_path_close ∷ (s ++ tail)))))
            (pre ++ (json_path_open ∷ (a' ++ (json_path_close ∷ (o ++ tail)))))
            (behind-Fits (pre ++ (json_path_open ∷ a')) json_path_close s (ground arith)) refl
            (omega (
              arith,
              length-append (pre ++ (json_path_open ∷ a')) (json_path_close ∷ []),
              length-append pre (json_path_open ∷ a'),
            ))
            (omega (
              arith,
              length-append (pre ++ (json_path_open ∷ a')) (json_path_close ∷ []),
              length-append pre (json_path_open ∷ a'),
            ))
            (simp append_assoc) (simp append_assoc))

nothing-Rewrites : Rewrites [] []
nothing-Rewrites pre tail st fuel fits =
    let count : 0 + fuel ≡ fuel = omega arith in
    let index : length pre + 0 ≡ length pre = omega arith in rw (count, index) refl

Converts-Rewrites : {s o : Text} → Converts s o → Rewrites s o
Converts-Rewrites nothing = nothing-Rewrites
Converts-Rewrites (byte {c} {s} {o} no_open no_close plain r) =
    byte-Rewrites c s o no_open no_close plain (Converts-Rewrites r)
Converts-Rewrites (group {a} {a'} {s} {o} r q) =
    group-Rewrites a a' s o (Converts-Rewrites r) (Converts-Rewrites q)
Converts-Rewrites (reference {a} {a'} {s} {o} r q) =
    reference-Rewrites a a' s o (Converts-Rewrites r) (Converts-Rewrites q)

finished : (o : Text) → convert 1 o (length o) [] ≡ some o
unfolding convert step
finished o = rw (get_elem?-none o (length o) (omega arith)) refl

-- On a path whose brackets are balanced, ToK8sJSONPath rewrites each `$(...)` to `{...}`, at every depth,
-- and leaves every other byte as it is.
pub to_k8s_json_path-Converts : {s o : Text} → Converts s o → to_k8s_json_path s ≡ some o
unfolding to_k8s_json_path
to_k8s_json_path-Converts {s} {o} r =
    Rewrites-at s o (Converts-Rewrites r) [] [] [] 1 (suc (length s)) 0 (length o) s o
      (ground arith) (omega arith) refl (omega arith) (sym (append-nil s)) (sym (append-nil o))
    ∙ finished o
