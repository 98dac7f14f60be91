-- ===== src/Generator/JsonPath/Grammar.antt =====
-- Balanced paths and their rewriting, as a relation.
use secretgen_controller.Common.{ℕ, Text, Bool, false, ◌&&◌, [], ◌∷◌, ◌++◌, ◌≡◌, ◌==◌}
use secretgen_controller.Generator.JsonPath.{
  open_prefix, open_bracket, close_bracket, json_path_open, json_path_close,
}

abbrev pub opens : Text → Bool
opens [] = false
opens (c ∷ s) = c == open_bracket

pub data Converts : Text → Text → Type 0 where
  nothing : Converts [] []
  -- A byte that is no bracket, and no `$` of a reference.
  byte :
      {c : ℕ} {s o : Text}
      → (c == open_bracket) ≡ false
      → (c == close_bracket) ≡ false
      → (c == open_prefix) && opens s ≡ false
      → Converts s o
      → Converts (c ∷ s) (c ∷ o)
  -- Brackets behind another byte than `$` stay, around what they enclose.
  group :
      {a a' s o : Text}
      → Converts a a'
      → Converts s o
      → Converts
          (open_bracket ∷ (a ++ (close_bracket ∷ s)))
          (open_bracket ∷ (a' ++ (close_bracket ∷ o)))
  -- `$(...)` becomes `{...}`.
  reference :
      {a a' s o : Text}
      → Converts a a'
      → Converts s o
      → Converts
          (open_prefix ∷ open_bracket ∷ (a ++ (close_bracket ∷ s)))
          (json_path_open ∷ (a' ++ (json_path_close ∷ o)))
