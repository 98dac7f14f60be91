-- ===== src/Expansion/Rounds.antt =====
-- Single rounds of the loop of Expand.
use mathlib.Core.List.{append_assoc}
use secretgen_controller.Common.{
  ℕ, suc, ◌+◌, ◌-◌, Text, ◌≡◌, refl, sym, ap, ◌∙◌, subst, true, false, Option, none, some, [], ◌∷◌,
  ◌++◌, length, length-append, drop, take-append, drop-append, ltb, lt→ltb, ◌==◌, ==_iff, arith,
  if◌then◌else◌, Bool-cases, Option-cases, inl, inr,
}
use secretgen_controller.Expansion.{
  reference_closer, Read, scan, try_read_variable_name, slice, at_operator, expand_loop,
}
use secretgen_controller.Expansion.Grammar.{Open}

-- The loop has copied `pre`, has passed over `mid`, and stands before `rest`.
abbrev pub loop_at : ℕ → (Text → Text) → (pre mid rest buf : Text) → Option Text
loop_at fuel mapping pre mid rest buf =
    expand_loop fuel (pre ++ (mid ++ rest)) mapping (length pre + length mid) (length pre) buf

drop_both : (pre mid rest : Text) → drop (length pre + length mid) (pre ++ (mid ++ rest)) ≡ rest
drop_both pre mid rest =
    rw (← length-append pre mid, ← append_assoc pre mid rest) (drop-append (pre ++ mid) rest)

drop_next :
    (pre mid : Text) (c : ℕ) (rest : Text)
    → drop (length pre + length mid + 1) (pre ++ (mid ++ (c ∷ rest))) ≡ rest
drop_next pre mid c rest =
    let e : length pre + length mid + 1 ≡ length pre + length (mid ++ (c ∷ [])) =
      omega (arith, length-append mid (c ∷ [])) in
    let f : pre ++ (mid ++ (c ∷ rest)) ≡ pre ++ ((mid ++ (c ∷ [])) ++ rest) = simp append_assoc in
    rw (e, f) (drop_both pre (mid ++ (c ∷ [])) rest)

slice_mid :
    (pre mid rest : Text)
    → slice (pre ++ (mid ++ rest)) (length pre) (length pre + length mid) ≡ mid
unfolding slice
slice_mid pre mid rest =
    let e : length pre + length mid - length pre ≡ length mid = omega arith in
    rw (e, drop-append pre (mid ++ rest)) (take-append mid rest)

module _ (mapping : Text → Text) (fuel : ℕ) where
  pub loop_end :
      (input : Text) (cursor checkpoint : ℕ) (buf : Text)
      → ltb cursor (length input) ≡ false
      → expand_loop (suc fuel) input mapping cursor checkpoint buf
        ≡ some (buf ++ drop checkpoint input)
  unfolding expand_loop
  loop_end input cursor checkpoint buf h = ground arith

  loop_pass :
      (input : Text) (cursor checkpoint : ℕ) (buf : Text)
      → ltb cursor (length input) ≡ true
      → at_operator (drop cursor input) ≡ false
      → expand_loop (suc fuel) input mapping cursor checkpoint buf
        ≡ expand_loop fuel input mapping (cursor + 1) checkpoint buf
  unfolding expand_loop
  loop_pass input cursor checkpoint buf h k = ground arith

  loop_read :
      (input : Text) (cursor checkpoint : ℕ) (buf : Text) (r : Read)
      → ltb cursor (length input) ≡ true
      → at_operator (drop cursor input) ≡ true
      → try_read_variable_name (drop (cursor + 1) input) ≡ some r
      → expand_loop (suc fuel) input mapping cursor checkpoint buf
        ≡ expand_loop fuel input mapping (cursor + r.advance + 1) (cursor + r.advance + 1) (
            buf ++ (slice input checkpoint cursor ++ (if r.is_var then mapping r.read else r.read)))
  unfolding expand_loop
  loop_read input cursor checkpoint buf r h k l = ground arith

  in_range :
      (pre mid : Text) (c : ℕ) (rest : Text)
      → ltb (length pre + length mid) (length (pre ++ (mid ++ (c ∷ rest)))) ≡ true
  in_range pre mid c rest =
      lt→ltb _ _
        (omega (arith, length-append pre (mid ++ (c ∷ rest)), length-append mid (c ∷ rest)))

  same_call :
      {input input' buf buf' : Text} {cursor cursor' checkpoint checkpoint' : ℕ}
      → input ≡ input'
      → cursor ≡ cursor'
      → checkpoint ≡ checkpoint'
      → buf ≡ buf'
      → expand_loop fuel input mapping cursor checkpoint buf
        ≡ expand_loop fuel input' mapping cursor' checkpoint' buf'
  same_call p q r s = cc

  -- A byte that starts no expression is passed over.
  pub loop_at-pass :
      (pre mid buf : Text) (c : ℕ) (rest : Text)
      → at_operator (c ∷ rest) ≡ false
      → loop_at (suc fuel) mapping pre mid (c ∷ rest) buf
        ≡ loop_at fuel mapping pre (mid ++ (c ∷ [])) rest buf
  loop_at-pass pre mid buf c rest h =
      loop_pass _ _ _ buf (in_range pre mid c rest)
        (subst (λ t. at_operator t ≡ false) (sym (drop_both pre mid (c ∷ rest))) h)
      ∙ same_call (rw append_assoc) (omega (arith, length-append mid (c ∷ []))) refl refl

  -- An expression is read, and what it stands for is copied behind what was passed over.
  pub loop_at-read :
      (pre mid buf : Text) (c : ℕ) (t rest : Text) (r : Read)
      → at_operator (c ∷ (t ++ rest)) ≡ true
      → try_read_variable_name (t ++ rest) ≡ some r
      → length t ≡ r.advance
      → loop_at (suc fuel) mapping pre mid (c ∷ (t ++ rest)) buf
        ≡ loop_at fuel mapping
            (pre ++ (mid ++ (c ∷ t)))
            []
            rest
            (buf ++ (mid ++ (if r.is_var then mapping r.read else r.read)))
  loop_at-read pre mid buf c t rest r h k l =
      loop_read _ _ _ buf r (in_range pre mid c (t ++ rest))
        (subst (λ u. at_operator u ≡ true) (sym (drop_both pre mid (c ∷ (t ++ rest)))) h)
        (subst (λ u. try_read_variable_name u ≡ some r) (sym (drop_next pre mid c (t ++ rest))) k)
      ∙ same_call (simp append_assoc)
          (omega (arith, length-append pre (mid ++ (c ∷ t)), length-append mid (c ∷ t)))
          (omega (arith, length-append pre (mid ++ (c ∷ t)), length-append mid (c ∷ t)))
          (rw slice_mid)

-- What the scan finds stands in front of the first closer.
pub scan-some :
    (cs : Text) {name : Text}
    → scan cs ≡ some name
    → Open name × ((rest : Text) × (cs ≡ name ++ (reference_closer ∷ rest)))
unfolding scan
scan-some [] h = cc
scan-some (c ∷ cs) {name} h = elim (Bool-cases (c == reference_closer)) [
  | inl closed ↦
      let e : [] ≡ name = ground arith in
      subst (λ n. Open n × ((rest : Text) × (c ∷ cs ≡ n ++ (reference_closer ∷ rest)))) e
        (tt, (cs, ap (λ x. x ∷ cs) ((==_iff c reference_closer).0 closed)))
  | inr more ↦ elim (Option-cases (scan cs)) [
    | inl missed ↦ absurd (ground arith)
    | inr (t, found) ↦
        let e : c ∷ t ≡ name = ground arith in
        let (open', (rest, eq)) = scan-some cs found in
        subst (λ n. Open n × ((rest : Text) × (c ∷ cs ≡ n ++ (reference_closer ∷ rest)))) e
          ((ground arith, open'), (rest, ap (λ x. c ∷ x) eq))
  ]
]

pub scan-none : (cs : Text) → scan cs ≡ none → Open cs
unfolding scan
scan-none [] h = tt
scan-none (c ∷ cs) h = elim (Bool-cases (c == reference_closer)) [
  | inl closed ↦ absurd (ground arith)
  | inr more ↦ elim (Option-cases (scan cs)) [
    | inl missed ↦ (ground arith, scan-none cs missed)
    | inr (t, found) ↦ absurd (ground arith)
  ]
]
