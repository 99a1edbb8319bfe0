-- ===== src/Jonsontest.antt =====
-- jonsontest/auth.go: the accounts of tests and the client that decides by them. A map from a text
-- is a list of its keys, or of keys and values; `canImpersonate` is the list of its pairs.
pub mod Chain
pub mod Mock
pub mod Grants
pub mod Boundary
pub mod Runs
mod Tests
use jonson.Prelude.{
  Bool, true, false, ◌&&◌, not, Option, none, some, List, [], ◌∷◌, ◌++◌, any, if◌then◌else◌,
}
use jonson.Text.{Text, codes, text_eq}
use jonson.Types.{type_test_account, type_impersonated, type_rpc_meta}
use jonson.Value.{
  Value, nil_value, test_account, impersonated, account, rpc_meta, RpcMeta, RpcHttpMethod,
}
use jonson.Errors.{
  GoError, rpc, PanicValue, of_string, err_unauthorized, clone_with_data, error_data, nil,
}
use jonson.Validate.{Result, ok, panicked}
use jonson.Context.{Fallible, value, failure}
use jonson.Context.Prog
use jonson.Context.Prog.{Prog, done, panic, require, ◌>>=◌}
use jonson.Auth.{AuthClient, wrong_type}

pub record RpcMethod : Type 0 where
  pub http_method : RpcHttpMethod
  pub method : Text

-- `AuthClientMock`
pub record AuthClientMock : Type 0 where
  pub method_access : List (Text × List RpcMethod)
  pub full_access : List Text
  pub authenticated : List Text
  pub can_impersonate : List (Text × Text)
  pub accounts : List Text

-- `NewAuthClientMock`
unfoldable pub new_auth_client_mock : AuthClientMock
new_auth_client_mock = record {
  method_access = [];
  full_access = [];
  authenticated = [];
  can_impersonate = [];
  accounts = [];
}

-- Whether a key is in a map.
unfoldable pub has_key : List Text → Text → Bool
unfolding text_eq
has_key keys u = any (text_eq u) keys

abbrev pub has_pair : List (Text × Text) → Text → Text → Bool
has_pair pairs current next =
    any (λ (p : Text × Text). text_eq p.0 current && text_eq p.1 next) pairs

-- `methodAccess[u]`, and an append to it
unfoldable pub methods_of : List (Text × List RpcMethod) → Text → List RpcMethod
unfolding text_eq
methods_of [] u = []
methods_of ((k, vs) ∷ entries) u = if text_eq k u then vs else methods_of entries u

unfoldable pub add_method :
    Text → List (Text × List RpcMethod) → RpcMethod → List (Text × List RpcMethod)
unfolding text_eq
add_method u [] v = (u, v ∷ []) ∷ []
add_method u ((k, vs) ∷ entries) v =
    let rest = add_method u entries v in
    if text_eq k u then (k, vs ++ v ∷ []) ∷ entries else (k, vs) ∷ rest

unfoldable pub add_methods :
    Text → List (Text × List RpcMethod) → List RpcMethod → List (Text × List RpcMethod)
unfolding add_method
add_methods u entries [] = entries
add_methods u entries (v ∷ vs) = add_methods u (add_method u entries v) vs

-- `NewAccount`; an account is its uuid.
unfoldable pub new_account : Text → AuthClientMock → Result AuthClientMock
unfolding has_key
new_account u t =
    if has_key t.accounts u
    then panicked (of_string "do not use create test accounts with the same uuid")
    else ok (record t { accounts = u ∷ t.accounts })

-- `Account.Authenticated` and `Account.CanImpersonate`
unfoldable pub authenticate : Text → AuthClientMock → AuthClientMock
authenticate u t = record t { authenticated = u ∷ t.authenticated }

unfoldable pub allow : Text → List Text → AuthClientMock → AuthClientMock
allow u [] t = t
allow u (v ∷ vs) t = allow u vs (record t { can_impersonate = (u, v) ∷ t.can_impersonate })

abbrev pub is_empty {ℓ} : {A : Type ℓ} → List A → Bool
is_empty [] = true
is_empty (x ∷ xs) = false

abbrev pub mixed_access : PanicValue
mixed_access = of_string "do not mix full access and partial access to methods"

-- `Account.Authorized`
unfoldable pub authorize : Text → List RpcMethod → AuthClientMock → Result AuthClientMock
unfolding authenticate methods_of has_key add_methods
authorize u [] t =
    let s = authenticate u t in
    if is_empty (methods_of s.method_access u)
    then ok (record s { full_access = u ∷ s.full_access })
    else panicked mixed_access
authorize u (v ∷ vs) t =
    let s = authenticate u t in
    if has_key s.full_access u
    then panicked mixed_access
    else ok (record s { method_access = add_methods u s.method_access (v ∷ vs) })

-- The first account of a chain that may not impersonate the next one.
unfoldable pub refused_link : List (Text × Text) → Text → List Text → Option (Text × Text)
unfolding text_eq
refused_link pairs current [] = none
refused_link pairs current (next ∷ rest) =
    let further = refused_link pairs next rest in
    if has_pair pairs current next then further else some (current, next)

abbrev pub denied : Text → Text → GoError
denied current next = rpc (
    clone_with_data err_unauthorized (
      error_data [] nil (
        codes "account '"
        ++ current
        ++ codes "' cannot impersonate account '"
        ++ next
        ++ codes "'; Did you forget to call account.CanImpersonate()?")))

abbrev pub chain_answer : Text → Option (Text × Text) → Value
chain_answer u none = account (some u) none
chain_answer u (some (current, next)) = account none (some (denied current next))

abbrev pub check_chain : AuthClientMock → Text → Fallible Value → Prog
check_chain t main (value (impersonated u [])) =
    panic (of_string "impersonation requires at least one account to be present")
check_chain t main (value (impersonated u (next ∷ rest))) =
    done (chain_answer u (refused_link t.can_impersonate main (next ∷ rest)))
check_chain t main (value nil_value) = done (account (some main) none)
check_chain t main (value v) = wrong_type
check_chain t main (failure e) = done (account (some main) none)

-- `checkImpersonation`
unfoldable pub check_impersonation : AuthClientMock → Text → Prog
unfolding refused_link
check_impersonation t main = Prog.get_value type_impersonated (check_chain t main)

abbrev pub nobody : Value
nobody = account none none

abbrev pub authenticated_as : AuthClientMock → Fallible Value → Prog
authenticated_as t (value (test_account u)) =
    if has_key t.authenticated u then check_impersonation t u else done nobody
authenticated_as t (value v) = wrong_type
authenticated_as t (failure e) = done nobody

-- `AuthClientMock.IsAuthenticated`
unfoldable pub is_authenticated : AuthClientMock → Prog
unfolding has_key check_impersonation
is_authenticated t = Prog.get_value type_test_account (authenticated_as t)

abbrev pub is_granted : RpcMeta → List RpcMethod → Bool
is_granted meta methods =
    any (λ (v : RpcMethod). text_eq v.method meta.method && text_eq v.http_method meta.http_method)
      methods

abbrev pub granted_by : AuthClientMock → Text → Value → Prog
granted_by t u (rpc_meta meta) =
    if is_granted meta (methods_of t.method_access u)
    then done (account (some u) none)
    else done nobody
granted_by t u v = wrong_type

abbrev pub grant : AuthClientMock → Value → Prog
grant t (account resp (some e)) = done (account none (some e))
grant t (account (some u) none) =
    if has_key t.full_access u
    then done (account (some u) none)
    else require type_rpc_meta (granted_by t u)
grant t v = wrong_type

abbrev pub authorized_as : AuthClientMock → Fallible Value → Prog
authorized_as t (value (test_account u)) = check_impersonation t u >>= grant t
authorized_as t (value v) = wrong_type
authorized_as t (failure e) = done nobody

-- `AuthClientMock.IsAuthorized`
unfoldable pub is_authorized : AuthClientMock → Prog
unfolding has_key check_impersonation methods_of text_eq ◌>>=◌
is_authorized t = Prog.get_value type_test_account (authorized_as t)

-- The mock as a client.
unfoldable pub mock_client : AuthClientMock → AuthClient
unfolding is_authenticated is_authorized
mock_client t = record { is_authenticated = is_authenticated t; is_authorized = is_authorized t }
