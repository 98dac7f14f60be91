-- ===== src/Reconciler/Status/Messages.antt =====
-- The status that an observer of the object sees after a reconcile, and its description.
use secretgen_controller.Common.{
  ℕ, zero, suc, ◌≤◌, Text, codes, ◌≡◌, ◌≢◌, refl, Bool, true, false, Option, none, some, List, [],
  ◌∷◌, ◌++◌, length, length-append, length-take, take, ltb, ◌==◌, arith, All, is_empty,
  if◌then◌else◌, Bool-cases, not, ap, subst, inl, inr,
}
use secretgen_controller.Api.Errors.{Error, terminal, error_text}
use secretgen_controller.Api.Conditions.{GenericStatus, reconcile_failed, reconcile_succeeded}
use secretgen_controller.Reconciler.Status.{
  Result, done, is_reconcile_succeeded, split_lines, shorten, friendly_err_msg,
  with_reconcile_completed,
}

-- No byte of the text is a newline.
abbrev pub OneLine : Text → Type 0
OneLine t = All (λ c. c ≢ b'\n') t

-- The first line of a text, and whether another follows.
abbrev pub first_line : Text → Text
first_line [] = []
first_line (c ∷ cs) = let rest = first_line cs in if c == b'\n' then [] else c ∷ rest

abbrev pub has_newline : Text → Bool
has_newline [] = false
has_newline (c ∷ cs) = let rest = has_newline cs in if c == b'\n' then true else rest

abbrev head_line : List Text → Text
head_line [] = []
head_line (p ∷ ps) = p

abbrev more_lines : List Text → Bool
more_lines [] = false
more_lines (p ∷ ps) = not (is_empty ps)

split_lines_parts :
    (t : Text)
    → (split_lines t ≢ [])
      × (head_line (split_lines t) ≡ first_line t)
      × (more_lines (split_lines t) ≡ has_newline t)
unfolding split_lines
split_lines_parts [] = ground arith
split_lines_parts (c ∷ cs) = ground (arith, split_lines_parts cs)

shorten-eq :
    (ps : List Text)
    → ps ≢ []
    → shorten ps ≡ (
        if ltb 80 (length (head_line ps))
        then take 80 (head_line ps) ++ codes "..."
        else if more_lines ps
        then head_line ps ++ codes "..."
        else head_line ps)
unfolding shorten
shorten-eq [] h = absurd (h refl)
shorten-eq (p ∷ ps) h = ground arith

first_line-OneLine : (t : Text) → OneLine (first_line t)
first_line-OneLine [] = tt
first_line-OneLine (c ∷ cs) = ground (arith, first_line-OneLine cs)

first_line-eq : (t : Text) → has_newline t ≡ false → first_line t ≡ t
first_line-eq [] h = refl
first_line-eq (c ∷ cs) h = ground (arith, first_line-eq cs)

-- The description is the first line, cut behind 80 bytes; "..." marks what is left out.
pub friendly_err_msg_lem :
    (msg : Text)
    → friendly_err_msg msg ≡ (
        if ltb 80 (length (first_line msg))
        then take 80 (first_line msg) ++ codes "..."
        else if has_newline msg
        then first_line msg ++ codes "..."
        else msg)
unfolding friendly_err_msg
friendly_err_msg_lem msg =
    let (ne, h, m) = split_lines_parts msg in
    rw (shorten-eq (split_lines msg) ne, h, m) (ground (arith, first_line-eq msg))

take-OneLine : (n : ℕ) (t : Text) → OneLine t → OneLine (take n t)
take-OneLine zero t h = tt
take-OneLine (suc n) [] h = tt
take-OneLine (suc n) (c ∷ t) h = (h.0, take-OneLine n t h.1)

append-OneLine : (s t : Text) → OneLine s → OneLine t → OneLine (s ++ t)
append-OneLine [] t h k = k
append-OneLine (c ∷ s) t h k = (h.0, append-OneLine s t h.1 k)

dots-OneLine : OneLine (codes "...")
dots-OneLine = omega arith

-- Whatever the error says, the description is one line of at most 83 bytes.
pub friendly_err_msg_bounds :
    (msg : Text) → OneLine (friendly_err_msg msg) × (length (friendly_err_msg msg) ≤ 83)
friendly_err_msg_bounds msg =
    let line = first_line msg in
    let one = first_line-OneLine msg in
    rw friendly_err_msg_lem (elim (Bool-cases (ltb 80 (length line))) [
      | inl long ↦ rw long (
        append-OneLine (take 80 line) _ (take-OneLine 80 line one) dots-OneLine,
        omega (arith, length-append (take 80 line) (codes "..."), length-take 80 line),
      )
      | inr short ↦ rw short (elim (Bool-cases (has_newline msg)) [
        | inl more ↦ rw more (
          append-OneLine line _ one dots-OneLine,
          ground (arith, length-append line (codes "...")),
        )
        | inr only ↦ rw only (
          subst OneLine (first_line-eq msg only) one,
          ground (arith, ap length (first_line-eq msg only)),
        )
      ])
    ])

abbrev pub is_terminal : Option Error → Bool
is_terminal (some (terminal e)) = true
is_terminal _ = false

abbrev pub is_none : Option Error → Bool
is_none none = true
is_none (some e) = false

-- After a reconcile the status has one condition: ReconcileFailed with the error's text, or
-- ReconcileSucceeded; the error is returned, so that the request is tried again, unless it is
-- terminal or there is none, and the result asks for no retry of a terminal error.
pub with_reconcile_completed_lem :
    (result : Result) (err : Option Error) (s : GenericStatus)
    → ((with_reconcile_completed (result, err) s).1.conditions ≡ (elim err [
      | none ↦ record { type = reconcile_succeeded; status = true; reason = []; message = [] } ∷ []
      | some e ↦
          record { type = reconcile_failed; status = true; reason = []; message = error_text e }
          ∷ []
    ]))
      × ((with_reconcile_completed (result, err) s).1.observed_generation ≡ s.observed_generation)
      × ((with_reconcile_completed (result, err) s).0
          ≡ (if is_terminal err then (done, none) else (result, err)))
      × (is_reconcile_succeeded (with_reconcile_completed (result, err) s).1 ≡ is_none err)
unfolding with_reconcile_completed is_reconcile_succeeded
with_reconcile_completed_lem result none s = (refl, refl, refl, refl)
with_reconcile_completed_lem result (some (terminal e)) s = (refl, refl, refl, refl)
with_reconcile_completed_lem result (some e) s = (refl, refl, refl, refl)
