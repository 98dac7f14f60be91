-- ===== src/Expansion/Total.antt =====
-- The loop of Expand against the grammar.
use mathlib.Core.List.{append_assoc}
use secretgen_controller.Common.{
  ℕ, zero, suc, ◌+◌, ◌≤◌, ◌<◌, Text, ◌≡◌, refl, sym, ap, ◌∙◌, subst, true, false, none, some, [],
  ◌∷◌, ◌++◌, length, length-append, drop-append, ◌==◌, ==_iff, arith, if◌then◌else◌, Bool-cases,
  Option-cases, inl, inr,
}
use secretgen_controller.Expansion.{
  operator, reference_opener, reference_closer, Read, string_of_byte, scan, try_read_variable_name,
  at_operator, expand,
}
use secretgen_controller.Expansion.Grammar.{
  Expands, nothing, byte, lone, escaped, reference, unclosed, other,
}
use secretgen_controller.Expansion.Rounds.{
  loop_at, loop_end, loop_at-pass, loop_at-read, scan-some, scan-none,
}

module _ (mapping : Text → Text) where
  -- The loop returns what was passed over, and then an expansion of the rest.
  Returns : ℕ → (pre mid rest buf : Text) → Type 0
  Returns fuel pre mid rest buf =
      (out : Text) × Expands mapping rest out
      × (loop_at fuel mapping pre mid rest buf ≡ some (buf ++ (mid ++ out)))

  -- What a read expression stands for, in front of the expansion of what follows it.
  Returns-read :
      (fuel : ℕ) (pre mid buf : Text) (t rest piece : Text) (r : Read)
      → at_operator (operator ∷ (t ++ rest)) ≡ true
      → try_read_variable_name (t ++ rest) ≡ some r
      → length t ≡ r.advance
      → piece ≡ (if r.is_var then mapping r.read else r.read)
      → ((out : Text)
          → Expands mapping rest out
          → Expands mapping (operator ∷ (t ++ rest)) (piece ++ out))
      → ((p b : Text) → Returns fuel p [] rest b)
      → Returns (suc fuel) pre mid (operator ∷ (t ++ rest)) buf
  unfolding Returns
  Returns-read fuel pre mid buf t rest piece r h k l e grow rec =
      let (out, x, eq) = rec (pre ++ (mid ++ (operator ∷ t))) (buf ++ (mid ++ piece)) in
      (
        piece ++ out,
        grow out x,
        loop_at-read mapping fuel pre mid buf operator t rest r h k l
            ∙ subst
                (λ q.
                  loop_at fuel mapping (pre ++ (mid ++ (operator ∷ t))) [] rest (buf ++ (mid ++ q))
                  ≡ some (buf ++ (mid ++ (piece ++ out))))
                e (eq ∙ ap some (simp append_assoc)),
      )

  Returns-pass :
      (fuel : ℕ) (pre mid buf : Text) (c : ℕ) (rest : Text)
      → at_operator (c ∷ rest) ≡ false
      → ((out : Text) → Expands mapping rest out → Expands mapping (c ∷ rest) (c ∷ out))
      → Returns fuel pre (mid ++ (c ∷ [])) rest buf
      → Returns (suc fuel) pre mid (c ∷ rest) buf
  unfolding Returns
  Returns-pass fuel pre mid buf c rest h grow (out, x, eq) = (
    c ∷ out,
    grow out x,
    loop_at-pass mapping fuel pre mid buf c rest h
        ∙ eq
        ∙ ap (λ t. some (buf ++ t)) (append_assoc mid (c ∷ []) out),
  )

  Expands-last : (c : ℕ) (out : Text) → Expands mapping [] out → Expands mapping (c ∷ []) (c ∷ out)
  Expands-last c out nothing = elim (Bool-cases (c == operator)) [
    | inl is ↦ subst (λ o. Expands mapping (o ∷ []) (o ∷ [])) (sym ((==_iff c operator).0 is)) lone
    | inr isnt ↦ byte (ground arith) nothing
  ]

  abbrev unclosed_read : Read
  unclosed_read = record { read = operator ∷ reference_opener ∷ []; is_var = false; advance = 1 }

  abbrev name_read : Text → Read
  name_read name = record { read = name; is_var = true; advance = length name + 2 }

  try_read-scan :
      (cs : Text)
      → try_read_variable_name (reference_opener ∷ cs)
        ≡ (elim (scan cs) [ some name ↦ some (name_read name) | none ↦ some unclosed_read ])
  unfolding try_read_variable_name
  try_read-scan cs = refl

  Returns-opened :
      (fuel : ℕ) (pre mid buf : Text) (cs : Text)
      → ((p b rest : Text) → length rest ≤ length cs → Returns fuel p [] rest b)
      → Returns (suc fuel) pre mid (operator ∷ reference_opener ∷ cs) buf
  Returns-opened fuel pre mid buf cs rec = elim (Option-cases (scan cs)) [
    | inl missed ↦
        Returns-read fuel pre mid buf (reference_opener ∷ []) cs (operator ∷ reference_opener ∷ [])
          unclosed_read (unfold at_operator in refl) (try_read-scan cs ∙ ground arith) refl refl
          (λ out x. unclosed (scan-none cs missed) x) (λ p b. rec p b cs (omega arith))
    | inr (name, found) ↦
        let (open', (rest, eq)) = scan-some cs found in
        let t : Text = reference_opener ∷ (name ++ (reference_closer ∷ [])) in
        let joined : (name ++ (reference_closer ∷ [])) ++ rest ≡ cs =
          append_assoc name (reference_closer ∷ []) rest ∙ sym eq in
        subst (λ q. Returns (suc fuel) pre mid (operator ∷ reference_opener ∷ q) buf) joined
          (Returns-read fuel pre mid buf t rest (mapping name) (name_read name)
            (unfold at_operator in refl)
            (ap (λ q. try_read_variable_name (reference_opener ∷ q)) joined
              ∙ try_read-scan cs
              ∙ ground arith)
            (omega (arith, length-append name (reference_closer ∷ []))) refl
            (λ out x.
              subst (λ q. Expands mapping (operator ∷ reference_opener ∷ q) (mapping name ++ out))
                (sym (append_assoc name (reference_closer ∷ []) rest)) (reference name open' x))
            (λ p b.
              rec p b rest
                (omega (arith, ap length eq, length-append name (reference_closer ∷ rest)))))
  ]

  -- The three kinds of expression behind an operator.
  Returns-expression :
      (fuel : ℕ) (pre mid buf : Text) (d : ℕ) (cs : Text)
      → ((p b rest : Text) → length rest ≤ length cs → Returns fuel p [] rest b)
      → Returns (suc fuel) pre mid (operator ∷ d ∷ cs) buf
  Returns-expression fuel pre mid buf d cs rec = elim (Bool-cases (d == operator)) [
    | inl dollar ↦
        subst (λ o. Returns (suc fuel) pre mid (operator ∷ o ∷ cs) buf)
          (sym ((==_iff d operator).0 dollar))
          (Returns-read fuel pre mid buf (operator ∷ []) cs (operator ∷ [])
            (record { read = operator ∷ []; is_var = false; advance = 1 })
            (unfold at_operator in refl) (unfold try_read_variable_name in refl) refl refl
            (λ out x. escaped x) (λ p b. rec p b cs (omega arith)))
    | inr no_dollar ↦ elim (Bool-cases (d == reference_opener)) [
      | inl opener ↦
          subst (λ o. Returns (suc fuel) pre mid (operator ∷ o ∷ cs) buf)
            (sym ((==_iff d reference_opener).0 opener)) (Returns-opened fuel pre mid buf cs rec)
      | inr no_opener ↦
          Returns-read fuel pre mid buf (d ∷ []) cs (operator ∷ string_of_byte d)
            (record { read = operator ∷ string_of_byte d; is_var = false; advance = 1 })
            (unfold at_operator in refl)
            (unfold try_read_variable_name in rw (no_dollar, no_opener)) refl refl
            (λ out x. other (ground arith) (ground arith) x) (λ p b. rec p b cs (omega arith))
    ]
  ]

  loop_at-Returns :
      (fuel : ℕ) (pre mid rest buf : Text) → length rest < fuel → Returns fuel pre mid rest buf
  loop_at-Returns zero pre mid rest buf h = absurd (omega arith)
  loop_at-Returns (suc f) pre mid [] buf h =
      unfold Returns in
      (
        [],
        nothing,
        loop_end mapping f _ _ _ buf
              (ground (arith, length-append pre (mid ++ []), length-append mid []))
            ∙ rw drop-append,
      )
  loop_at-Returns (suc f) pre mid (c ∷ []) buf h =
      Returns-pass f pre mid buf c [] (unfold at_operator in refl) (Expands-last c)
        (loop_at-Returns f pre (mid ++ (c ∷ [])) [] buf (omega arith))
  loop_at-Returns (suc f) pre mid (c ∷ d ∷ cs) buf h = elim (Bool-cases (c == operator)) [
    | inl is ↦
        subst (λ o. Returns (suc f) pre mid (o ∷ d ∷ cs) buf) (sym ((==_iff c operator).0 is))
          (Returns-expression f pre mid buf d cs
            (λ p b rest shorter. loop_at-Returns f p [] rest b (omega arith)))
    | inr isnt ↦
        Returns-pass f pre mid buf c (d ∷ cs) (unfold at_operator in isnt)
          (λ out x. byte (ground arith) x)
          (loop_at-Returns f pre (mid ++ (c ∷ [])) (d ∷ cs) buf (omega arith))
  ]

-- Expand always returns, and its result is an expansion of the input by the grammar.
pub expand-Expands :
    (input : Text) (mapping : Text → Text)
    → (out : Text) × (expand input mapping ≡ some out) × Expands mapping input out
unfolding expand Returns
expand-Expands input mapping =
    let (out, x, eq) = loop_at-Returns mapping (suc (length input)) [] [] input [] (omega arith) in
    (out, eq, x)
