-- ===== src/Expansion.antt =====
-- pkg/expansion/expand.go: `$(name)` references in a text are replaced by their values.
pub mod Grammar
pub mod Rounds
pub mod Total
pub mod Variables
use secretgen_controller.Common.{
  ℕ, zero, suc, ◌+◌, ◌-◌, ◌/◌, ◌%◌, Text, text_eq_instance, Bool, true, false, ◌&&◌, Option, none,
  some, List, [], ◌∷◌, ◌++◌, length, take, drop, ltb, ◌==◌, if◌then◌else◌,
}
use secretgen_controller.Common.Maps
use secretgen_controller.Common.Maps.{Map}

abbrev pub operator : ℕ
operator = b'$'

abbrev pub reference_opener : ℕ
reference_opener = b'('

abbrev pub reference_closer : ℕ
reference_closer = b')'

unfoldable pub variable : Text → Text
variable input = operator ∷ reference_opener ∷ (input ++ (reference_closer ∷ []))

unfoldable pub mapping_func_for : List (Map Text Text) → Text → Text
mapping_func_for [] input = variable input
mapping_func_for (vars ∷ context) input = elim (Maps.get input vars) [
  | some val ↦ val
  | none ↦ mapping_func_for context input
]

-- `string(b)` of a byte: the UTF-8 form of the code point with its number.
unfoldable pub string_of_byte : ℕ → Text
string_of_byte b = if ltb b 128 then b ∷ [] else (192 + b / 64) ∷ (128 + b % 64) ∷ []

-- The scan for the closer, behind the opener: what stands in front of the closer.
unfoldable pub scan : Text → Option Text
scan [] = none
scan (c ∷ cs) =
    let rest = scan cs in
    if c == reference_closer then some [] else elim rest [ none ↦ none | some t ↦ some (c ∷ t) ]

pub record Read : Type 0 where
  pub read : Text
  pub is_var : Bool
  pub advance : ℕ

-- On an empty text the code panics; `expand` never calls it so.
unfoldable pub try_read_variable_name : Text → Option Read
unfolding scan string_of_byte
try_read_variable_name [] = none
try_read_variable_name (c ∷ cs) =
    if c == operator
    then some (record { read = c ∷ []; is_var = false; advance = 1 })
    else if c == reference_opener
    then elim (scan cs) [
      | some name ↦ some (record { read = name; is_var = true; advance = length name + 2 })
      | none ↦
          some (record { read = operator ∷ reference_opener ∷ []; is_var = false; advance = 1 })
    ]
    else some (record { read = operator ∷ string_of_byte c; is_var = false; advance = 1 })

-- input[from:to].
unfoldable pub slice : Text → ℕ → ℕ → Text
slice input from to = take (to - from) (drop from input)

-- `input[cursor] == operator && cursor+1 < len(input)`.
unfoldable pub at_operator : Text → Bool
at_operator [] = false
at_operator (c ∷ []) = false
at_operator (c ∷ d ∷ cs) = c == operator

-- The loop of Expand: `none` where the fuel runs out or tryReadVariableName panics.
unfoldable pub expand_loop : ℕ → Text → (Text → Text) → (cursor checkpoint : ℕ) → Text → Option Text
unfolding at_operator slice try_read_variable_name
expand_loop zero input mapping cursor checkpoint buf = none
expand_loop (suc fuel) input mapping cursor checkpoint buf = elim (ltb cursor (length input)) [
  | false ↦ some (buf ++ drop checkpoint input)
  | true ↦ elim (at_operator (drop cursor input)) [
    | false ↦ expand_loop fuel input mapping (cursor + 1) checkpoint buf
    | true ↦ elim (try_read_variable_name (drop (cursor + 1) input)) [
      | none ↦ none
      | some r ↦
          expand_loop fuel input mapping (cursor + r.advance + 1) (cursor + r.advance + 1) (
            buf ++ (slice input checkpoint cursor ++ (if r.is_var then mapping r.read else r.read)))
    ]
  ]
]

-- Every round moves the cursor, so one round for each byte and one to end the loop are enough.
unfoldable pub expand : Text → (Text → Text) → Option Text
unfolding expand_loop
expand input mapping = expand_loop (suc (length input)) input mapping 0 0 []
