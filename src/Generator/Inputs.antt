-- ===== src/Generator/Inputs.antt =====
-- GenerateInputs of pkg/generator/generate_inputs.go: the annotation that records what a secret was
-- generated from. json.Marshal of the inputs is a parameter, `none` where it returns an error.
pub mod Changes
use secretgen_controller.Common.{
  Text, codes, text_eq, text_eq_instance, Bool, true, false, not, Option, none, some, List, [],
}
use secretgen_controller.Common.Maps
use secretgen_controller.Common.Maps.{Map}
use secretgen_controller.Common.Go.{Outcome, value, panicked}
use secretgen_controller.Api.{entries}
use secretgen_controller.Api.Errors.{Error, plain}

abbrev pub generate_inputs_ann_key : Text
generate_inputs_ann_key = codes "secretgen.k14s.io/generate-inputs"

-- The inputs of type `I` with their encoding.
pub record GenerateInputs (I : Type 0) : Type 0 where
  pub inputs : I
  pub marshal : I → Option Text

pub data Added : Type 0 where
  added : Map Text Text → Added
  not_added : Error → Added

add_bytes : Option Text → Map Text Text → Added
add_bytes none anns = not_added (plain (codes "cannot marshal generate inputs"))
add_bytes (some bs) anns = added (Maps.put generate_inputs_ann_key bs anns)

-- Add writes to the map that it is given, which must not be nil.
unfoldable pub add : {I : Type 0} → GenerateInputs I → Option (Map Text Text) → Added
unfolding add_bytes
add i none = not_added (plain (codes "internal inconsistency: called with annotations nil param"))
add i (some anns) = add_bytes (i.marshal i.inputs) anns

differs : Text → Option Text → Bool
differs bs none = true
differs bs (some existing) = not (text_eq bs existing)

bytes_changed : Option Text → Option Text → Outcome Bool
unfolding differs
bytes_changed none existing = panicked (codes "Cannot marshal generate inputs")
bytes_changed (some bs) existing = value (differs bs existing)

unfoldable pub is_changed : {I : Type 0} → GenerateInputs I → Option (Map Text Text) → Outcome Bool
unfolding bytes_changed
is_changed i anns =
    bytes_changed (i.marshal i.inputs) (Maps.get generate_inputs_ann_key (entries anns))
