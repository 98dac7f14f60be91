-- ===== src/Api/Errors.antt =====
-- Errors as values: those of the Kubernetes API, fmt.Errorf, and TerminalReconcileErr of
-- pkg/reconciler/status.go; combinedErrs of pkg/apis/secretgen2/v1alpha1/misc.go.
use secretgen_controller.Common.{
  Text, codes, Bool, true, false, Option, none, some, List, [], ◌∷◌, ◌++◌, map,
}

-- What errors.IsNotFound and errors.IsAlreadyExists tell apart.
pub data Reason : Type 0 where
  not_found already_exists other : Reason

pub data Error : Type 0 where
  api : Reason → Text → Error
  plain : Text → Error
  terminal : Error → Error

unfoldable pub error_text : Error → Text
error_text (api r t) = t
error_text (plain t) = t
error_text (terminal e) = error_text e

abbrev pub is_not_found : Error → Bool
is_not_found (api not_found t) = true
is_not_found _ = false

abbrev pub is_already_exists : Error → Bool
is_already_exists (api already_exists t) = true
is_already_exists _ = false

-- fmt.Errorf("<prefix>: %s", err).
abbrev pub errorf : Text → Error → Error
errorf prefix e = plain (prefix ++ (codes ": " ++ error_text e))

-- strings.Join.
unfoldable pub join : Text → List Text → Text
join sep [] = []
join sep (t ∷ []) = t
join sep (t ∷ u ∷ rest) = t ++ (sep ++ join sep (u ∷ rest))

unfoldable pub combined_errs : Text → List Text → Option Error
combined_errs title [] = none
combined_errs title (e ∷ errs) =
    some
      (plain (title ++ (codes ":\n" ++ join (codes "\n") (map (λ m. codes "- " ++ m) (e ∷ errs)))))
