-- ===== src/Reconciler/Status.antt =====
-- Status of pkg/reconciler/status.go. `UpdateFunc` stores the new status in the object that is
-- reconciled: here each method returns the status that it hands over.
pub mod Messages
use secretgen_controller.Common.{
  ℕ, Text, codes, Bool, true, false, Option, none, some, List, [], ◌∷◌, ◌++◌, length, take, ltb,
  is_empty, ◌==◌, if◌then◌else◌,
}
use secretgen_controller.Api.{ObjectMeta}
use secretgen_controller.Api.Errors.{Error, terminal, error_text}
use secretgen_controller.Api.Conditions.{
  Condition, GenericStatus, reconciling, reconcile_failed, reconcile_succeeded, is_succeeded,
}

-- reconcile.Result. Times are in nanoseconds.
pub record Result : Type 0 where
  pub requeue : Bool
  pub requeue_after : ℕ

abbrev pub done : Result
done = record { requeue = false; requeue_after = 0 }

abbrev pub again : Result
again = record { requeue = true; requeue_after = 0 }

-- What a Reconcile function returns.
abbrev pub Reply : Type 0
Reply = Result × Option Error

-- The reply of the generators behind the Create of a secret.
unfoldable pub created_reply : Option Error → Reply
created_reply none = (done, none)
created_reply (some err) = (again, some err)

is_reconcile_succeeded_in : List Condition → Bool
is_reconcile_succeeded_in [] = false
is_reconcile_succeeded_in (c ∷ cs) =
    if is_succeeded c.type then true else is_reconcile_succeeded_in cs

unfoldable pub is_reconcile_succeeded : GenericStatus → Bool
unfolding is_reconcile_succeeded_in
is_reconcile_succeeded s = is_reconcile_succeeded_in s.conditions

remove_all_conditions : GenericStatus → GenericStatus
remove_all_conditions s = record s { conditions = [] }

mark_observed_latest : ObjectMeta → GenericStatus → GenericStatus
mark_observed_latest meta s = record s { observed_generation = meta.generation }

unfoldable pub set_reconciling : ObjectMeta → GenericStatus → GenericStatus
unfolding remove_all_conditions mark_observed_latest
set_reconciling meta s =
    let cleared = remove_all_conditions (mark_observed_latest meta s) in
    record cleared {
      conditions =
          cleared.conditions
          ++ (record { type = reconciling; status = true; reason = []; message = [] } ∷ []);
      friendly_description = codes "Reconciling";
    }

-- strings.Split(msg, "\n").
unfoldable pub prepend : ℕ → List Text → List Text
prepend c [] = (c ∷ []) ∷ []
prepend c (p ∷ ps) = (c ∷ p) ∷ ps

unfoldable pub split_lines : Text → List Text
unfolding prepend
split_lines [] = [] ∷ []
split_lines (c ∷ cs) = let rest = split_lines cs in if c == b'\n' then [] ∷ rest else prepend c rest

-- The two branches of friendlyErrMsg, on the pieces.
shorten : List Text → Text
shorten [] = []
shorten (p ∷ ps) =
    if ltb 80 (length p)
    then take 80 p ++ codes "..."
    else if is_empty ps
    then p
    else p ++ codes "..."

unfoldable pub friendly_err_msg : Text → Text
unfolding split_lines shorten
friendly_err_msg msg = shorten (split_lines msg)

unfoldable pub set_reconcile_completed : Option Error → GenericStatus → GenericStatus
unfolding remove_all_conditions
set_reconcile_completed (some err) s =
    let cleared = remove_all_conditions s in
    record cleared {
      conditions =
          cleared.conditions
          ++ (record {
            type = reconcile_failed;
            status = true;
            reason = [];
            message = error_text err;
          }
              ∷ []);
      friendly_description = friendly_err_msg (codes "Reconcile failed: " ++ error_text err);
    }
set_reconcile_completed none s =
    let cleared = remove_all_conditions s in
    record cleared {
      conditions =
          cleared.conditions
          ++ (record { type = reconcile_succeeded; status = true; reason = []; message = [] } ∷ []);
      friendly_description = codes "Reconcile succeeded";
    }

-- A terminal error is recorded in the status, and not returned.
reply_for : Result → Option Error → Reply
reply_for result (some (terminal e)) = (done, none)
reply_for result err = (result, err)

unfoldable pub with_reconcile_completed : Reply → GenericStatus → Reply × GenericStatus
unfolding set_reconcile_completed reply_for
with_reconcile_completed (result, err) s = (reply_for result err, set_reconcile_completed err s)
