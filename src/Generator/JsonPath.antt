-- ===== src/Generator/JsonPath.antt =====
-- JSONPath of pkg/generator/jsonpath.go: the `$( )` syntax rewritten to the `{ }` of Kubernetes.
-- Parsing and executing such a path is client-go's, a parameter.
pub mod Grammar
pub mod Total
pub mod Rounds
pub mod Rewriting
use secretgen_controller.Common.{
  ℕ, zero, suc, ◌+◌, ◌-◌, Text, get_elem?, Bool, true, false, Option, none, some, List, [], ◌∷◌,
  ◌++◌, length, take, drop, ltb, ◌==◌, if◌then◌else◌,
}

abbrev pub open_prefix : ℕ
open_prefix = b'$'

abbrev pub open_bracket : ℕ
open_bracket = b'('

abbrev pub close_bracket : ℕ
close_bracket = b')'

abbrev pub json_path_open : ℕ
json_path_open = b'{'

abbrev pub json_path_close : ℕ
json_path_close = b'}'

-- `replace`: `none` where s[0:i] panics.
unfoldable pub replace : Text → ℕ → Text → Text → Option Text
replace s i old new =
    if ltb (length s) i
    then none
    else if ltb (length s) (i + length old)
    then some (take i s ++ new)
    else some (take i s ++ (new ++ drop (i + length old) s))

-- The stack of positions, with its top in front. push is `◌∷◌`, peek and pop are matches: the peek of
-- an empty stack is -1, which is no index, and its pop leaves it.
abbrev pub Stack : Type 0
Stack = List ℕ

is_byte : ℕ → Option ℕ → Option Bool
is_byte b none = none
is_byte b (some c) = some (c == b)

-- `d > 0 && newPath[d-1] == openPrefix`, `none` where the index panics.
unfoldable pub is_reference : Text → ℕ → Option Bool
unfolding is_byte get_elem?
is_reference path zero = some false
is_reference path (suc d) = is_byte open_prefix (get_elem? path d)

-- The second replacement, at the closing bracket, which the first one moved to the left.
replace_close : (Text → ℕ → Stack → Option Text) → ℕ → Stack → Option Text → Option Text
unfolding replace
replace_close next i st none = none
replace_close next i st (some path) =
    elim (replace path i (close_bracket ∷ []) (json_path_close ∷ [])) [
      | none ↦ none
      | some path' ↦ next path' (i + 1) st
    ]

-- Behind the test of a closing bracket that has an opening one at `d`.
close_at : (Text → ℕ → Stack → Option Text) → Text → ℕ → ℕ → Stack → Option Bool → Option Text
unfolding replace_close
close_at next path i d st none = none
close_at next path i d st (some false) = next path (i + 1) st
close_at next path i d st (some true) =
    replace_close next (i - 1) st
      (replace path (d - 1) (open_prefix ∷ open_bracket ∷ []) (json_path_open ∷ []))

closing : (Text → ℕ → Stack → Option Text) → Text → ℕ → Stack → Option Text
unfolding close_at is_reference
closing next path i [] = next path (i + 1) []
closing next path i (d ∷ st) = close_at next path i d st (is_reference path d)

-- The switch of the loop on the byte at the index, `none` at the end of the text.
step : (Text → ℕ → Stack → Option Text) → Text → ℕ → Stack → Option ℕ → Option Text
unfolding closing
step next path i st none = some path
step next path i st (some c) =
    if c == open_bracket
    then next path (i + 1) (i ∷ st)
    else if c == close_bracket
    then closing next path i st
    else next path (i + 1) st

-- The loop from an index on: `none` where the fuel runs out or an index panics.
unfoldable pub convert : ℕ → Text → ℕ → Stack → Option Text
unfolding step get_elem?
convert zero path i st = none
convert (suc fuel) path i st = step (convert fuel) path i st (get_elem? path i)

-- Each round moves the index or takes a byte away, so one round for each byte and one to end are enough.
unfoldable pub to_k8s_json_path : Text → Option Text
unfolding convert
to_k8s_json_path path = convert (suc (length path)) path 0 []
