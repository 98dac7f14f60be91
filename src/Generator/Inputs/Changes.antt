-- ===== src/Generator/Inputs/Changes.antt =====
-- IsChanged on annotations that Add wrote.
use secretgen_controller.Common.{
  Text, text_eq, text_eq_instance, Bool, Option, not, some, ◌≡◌, refl,
}
use secretgen_controller.Common.Maps
use secretgen_controller.Common.Maps.{Map}
use secretgen_controller.Common.Go.{value}
use secretgen_controller.Api.{entries}
use secretgen_controller.Generator.Inputs.{
  generate_inputs_ann_key, GenerateInputs, added, add_bytes, add, differs, bytes_changed,
  is_changed,
}

-- Inputs that were added to annotations are seen as changed exactly where the encoding of the inputs
-- that are asked about is another text. Both can be encoded.
pub is_changed-add :
    {I : Type 0} (old new : GenerateInputs I) (anns : Map Text Text) (a b : Text)
    → old.marshal old.inputs ≡ some a
    → new.marshal new.inputs ≡ some b
    → (written : Map Text Text) × (add old (some anns) ≡ added written)
      × (Maps.get generate_inputs_ann_key written ≡ some a)
      × (is_changed new (some written) ≡ value (not (text_eq b a)))
unfolding add is_changed
is_changed-add old new anns a b encoded encoded' =
    let found = Maps.get-put_self generate_inputs_ann_key a anns in
    (
      Maps.put generate_inputs_ann_key a anns,
      unfold add_bytes in rw encoded refl,
      found,
      unfold bytes_changed differs in rw (encoded', found) refl,
    )

pub is_changed_lem :
    {I : Type 0} (i : GenerateInputs I) (anns : Option (Map Text Text)) (bs : Text)
    → i.marshal i.inputs ≡ some bs
    → (b : Bool) × (is_changed i anns ≡ value b)
unfolding is_changed
is_changed_lem i anns bs encoded = (
  differs bs (Maps.get generate_inputs_ann_key (entries anns)),
  unfold bytes_changed in rw encoded refl,
)
