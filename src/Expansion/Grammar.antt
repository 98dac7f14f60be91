-- ===== src/Expansion/Grammar.antt =====
-- The expansion syntax as a relation between a text and its expansion.
use secretgen_controller.Common.{ℕ, Text, ◌≢◌, [], ◌∷◌, ◌++◌, All}
use secretgen_controller.Expansion.{operator, reference_opener, reference_closer, string_of_byte}

-- No byte of the text is the closer.
abbrev pub Open : Text → Type 0
Open t = All (λ c. c ≢ reference_closer) t

pub data Expands (mapping : Text → Text) : Text → Text → Type 0 where
  nothing : Expands mapping [] []
  byte :
      {c : ℕ} {cs out : Text}
      → c ≢ operator
      → Expands mapping cs out
      → Expands mapping (c ∷ cs) (c ∷ out)
  lone : Expands mapping (operator ∷ []) (operator ∷ [])
  -- `$$` stands for `$`.
  escaped :
      {cs out : Text}
      → Expands mapping cs out
      → Expands mapping (operator ∷ operator ∷ cs) (operator ∷ out)
  -- `$(name)` stands for the value of the name.
  reference :
      {cs out : Text} (name : Text)
      → Open name
      → Expands mapping cs out
      → Expands mapping
          (operator ∷ reference_opener ∷ (name ++ (reference_closer ∷ cs)))
          (mapping name ++ out)
  unclosed :
      {cs out : Text}
      → Open cs
      → Expands mapping cs out
      → Expands mapping (operator ∷ reference_opener ∷ cs) (operator ∷ reference_opener ∷ out)
  -- `$c` stands for itself, but for a byte that is not ASCII.
  other :
      {c : ℕ} {cs out : Text}
      → c ≢ operator
      → c ≢ reference_opener
      → Expands mapping cs out
      → Expands mapping (operator ∷ c ∷ cs) (operator ∷ (string_of_byte c ++ out))
