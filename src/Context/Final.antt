-- ===== src/Context/Final.antt =====
-- context.go: `Finalize`. A finalizer is a function of the errors so far; one that panics is not
-- modelled.
pub mod Laws
use mathlib.Core.List.{reverse}
use jonson.Prelude.{
  ℕ, String, Bool, true, false, ◌&&◌, Option, none, some, List, [], ◌∷◌, ◌++◌, if◌then◌else◌,
}
use jonson.Text.{Text, codes}
use jonson.Errors.{Error, GoError, rpc, plain, error_data, of_list, clone_with_data, err_internal}
use jonson.Value.{Value, Custom, custom}
use jonson.Context.{ValueItem, Context}

abbrev pub opt {ℓ} : {A : Type ℓ} → Option A → List A
opt none = []
opt (some a) = a ∷ []

abbrev pub call_finalizer :
    Option (List GoError → Option GoError) → ℕ → List GoError × List ℕ → List GoError × List ℕ
call_finalizer none ident r = r
call_finalizer (some f) ident (errors, called) = (errors ++ opt (f errors), called ++ ident ∷ [])

-- One round of the loop: the errors so far and the values whose finalizer was called.
unfoldable pub finalize_value : Value → List GoError × List ℕ → List GoError × List ℕ
finalize_value (custom c) r = call_finalizer c.finalizer c.ident r
finalize_value _ r = r

-- The loop, over the values from the last to the first.
unfoldable pub finalize_from : List ValueItem → List GoError × List ℕ → List GoError × List ℕ
unfolding finalize_value
finalize_from [] r = r
finalize_from (i ∷ is) r = finalize_from is (finalize_value i.val r)

-- The error of a finalization that has met several errors, or one of a finalizer. The code builds
-- a list of the single errors before, and does not use it.
abbrev pub finalization_failed : (Text → Text) → GoError
finalization_failed encode = rpc (
    clone_with_data err_internal
      (error_data [] (of_list []) (encode (codes "context: finalization failed"))))

-- What `Finalize` returns for the error that it was given and those that it has collected.
unfoldable pub verdict : (Text → Text) → Option GoError → List GoError → Option GoError
verdict encode err [] = none
verdict encode (some e) (x ∷ []) = some e
verdict encode err (x ∷ xs) = some (finalization_failed encode)

-- What a finalization leaves: its result, the context, and the values that it finalized, in order.
pub record Finalized : Type 0 where
  pub result : Option GoError
  pub ctx : Context
  pub called : List ℕ

-- `Finalize`
unfoldable pub finalize : (Text → Text) → Option GoError → Context → Finalized
unfolding finalize_from verdict
finalize encode err c =
    if c.finalized
    then record { result = err; ctx = c; called = [] }
    else let (errors, called) = finalize_from (reverse c.values) (opt err, []) in
      record {
        result = verdict encode err errors;
        ctx = record c { values = []; finalized = true };
        called = called;
      }
