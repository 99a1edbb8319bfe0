-- ===== src/Auth.antt =====
-- auth.go and impersonate.go: the providers of `Private` and `Public`, the cached account of a
-- `Public`, and impersonation. The backend is `AuthClient`.
pub mod Account
pub mod Access
pub mod Impersonation
pub mod Scope
pub mod Callers
mod Tests
use Prim.Native.String
use jonson.Prelude.{
  ℕ, Bool, true, false, ◌&&◌, Option, none, some, List, [], ◌∷◌, ◌++◌, if◌then◌else◌,
}
use jonson.Text.{Text}
use jonson.Types.{GoType, same, type_private, type_public, type_impersonated}
use jonson.Value.{
  Value, nil_value, private, public, impersonator, impersonated, account, reply,
  is_shareable_across_impersonation,
}
use jonson.Errors.{GoError, rpc, plain, PanicValue, of_error, of_string, err_unauthorized}
use jonson.Context.{ValueItem, Fallible, value, failure}
use jonson.Context.Prog
use jonson.Context.Prog.{
  Public, Outcome, returned, blocked, out_of_fuel, Prog, done, panic, block, require, attempt,
  items, in_fork, load_public, save_public, ◌>>=◌,
}

-- `AuthClient`: each method returns the account (nil if there is none) and an error.
pub record AuthClient : Type 0 where
  pub is_authenticated : Prog
  pub is_authorized : Prog

-- A value of another type cannot come here: the methods return `(*string, error)`.
abbrev pub wrong_type : Prog
wrong_type = panic (of_string "unreachable: a value of another type")

abbrev pub check_authorized : Value → Prog
check_authorized (account resp (some (rpc e))) = panic (of_error (rpc e))
check_authorized (account resp (some (plain s))) = panic (of_string (String.◌++◌ "newPrivate: " s))
check_authorized (account none none) = panic (of_error (rpc err_unauthorized))
check_authorized (account (some uuid) none) = done (private uuid)
check_authorized _ = wrong_type

-- `AuthProvider.NewPrivate`
unfoldable pub new_private : AuthClient → Prog
unfolding ◌>>=◌
new_private client = client.is_authorized >>= check_authorized

abbrev pub fresh_public : Public
fresh_public = record { checked = false; account_uuid = none; err = none; locked = false }

-- `AuthProvider.NewPublic`
unfoldable pub new_public : Prog
new_public = Prog.new_public fresh_public (λ a. done (public a))

-- What a checked `Public` answers: the error only where there is no account.
abbrev pub cached_answer : Public → Value
cached_answer u = elim u.account_uuid [
  | none ↦ account none u.err
  | some uuid ↦ account (some uuid) none
]

abbrev pub given_public : (Public → Prog) → Option Public → Prog
given_public k none = wrong_type
given_public k (some u) = k u

abbrev pub with_public : ℕ → (Public → Prog) → Prog
with_public a k = load_public a (given_public k)

-- Both answers are kept in the `Public`.
abbrev pub keep : ℕ → Value → Prog
keep a (account resp err) =
    with_public a
      (λ u. save_public a (record u { account_uuid = resp; err = err }) (done (account resp err)))
keep a v = wrong_type

-- The account of a valid `Private`, or the answer of the client.
abbrev pub find_account : AuthClient → ℕ → Fallible Value → Prog
find_account client a (value (private uuid)) = keep a (account (some uuid) none)
find_account client a (value v) = wrong_type
find_account client a (failure e) = client.is_authenticated >>= keep a

abbrev pub resume : Outcome → Prog
resume (returned v) = done v
resume (Outcome.panicked p) = panic p
resume blocked = block
resume out_of_fuel = block

-- The deferred function: it marks the `Public` as checked, and unlocks it.
abbrev pub release : ℕ → Outcome → Prog
release a o =
    with_public a (λ u. save_public a (record u { checked = true; locked = false }) (resume o))

-- `Public.AccountUuid`: a locked mutex is waited for.
abbrev pub checked_account : AuthClient → ℕ → Public → Prog
checked_account client a u =
    if u.locked
    then block
    else if u.checked
    then done (cached_answer u)
    else save_public a (record u { locked = true })
        (attempt (Prog.get_value type_private (find_account client a)) (release a))

unfoldable pub account_uuid : AuthClient → ℕ → Prog
unfolding ◌>>=◌
account_uuid client a = with_public a (checked_account client a)

-- `ImpersonatorProvider.NewImpersonator`
unfoldable pub new_impersonator : Prog
new_impersonator = done impersonator

-- `newImpersonated`: the accounts of the existing impersonation, and the new one.
unfoldable pub new_impersonated : Option (List Text) → Text → Value
new_impersonated none uuid = impersonated uuid (uuid ∷ [])
new_impersonated (some uuids) uuid = impersonated uuid (uuids ++ uuid ∷ [])

-- The values that the scope of an impersonation takes over.
unfoldable pub taken_over : List ValueItem → List (GoType × Value)
unfolding is_shareable_across_impersonation
taken_over [] = []
taken_over (i ∷ is) =
    let rest = taken_over is in
    if i.valid && is_shareable_across_impersonation i.val then (i.rt, i.val) ∷ rest else rest

abbrev pub traced : Value → Option (List Text)
traced (impersonated uuid uuids) = some uuids
traced _ = none

-- The impersonation that holds in a context: the last valid item of its type.
unfoldable pub existing : List ValueItem → Option (List Text) → Option (List Text)
existing [] found = found
existing (i ∷ is) found =
    existing is (if i.valid && same i.rt type_impersonated then traced i.val else found)

-- `fn` runs only for an account that the client knows.
abbrev pub check_account : Prog → Value → Prog
check_account fn (account resp (some e)) = done (reply nil_value (some e))
check_account fn (account none none) = done (reply nil_value (some (rpc err_unauthorized)))
check_account fn (account (some uuid) none) = fn
check_account fn _ = wrong_type

abbrev pub with_account : AuthClient → Prog → Value → Prog
with_account client fn (public a) = account_uuid client a >>= check_account fn
with_account client fn _ = wrong_type

-- The part of `Impersonate` under the new context.
unfoldable pub scoped : AuthClient → Prog → Prog
unfolding account_uuid ◌>>=◌
scoped client fn = require type_public (with_account client fn)

-- `Impersonator.Impersonate`
unfoldable pub impersonate : AuthClient → Text → Prog → Prog
unfolding scoped taken_over existing new_impersonated
impersonate client uuid fn = items (λ is.
    in_fork (taken_over is ++ (type_impersonated, new_impersonated (existing is none) uuid) ∷ [])
      (scoped client fn) done)
