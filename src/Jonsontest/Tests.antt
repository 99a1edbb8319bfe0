-- ===== src/Jonsontest/Tests.antt =====
-- The accounts of a small test.
use jonson.Prelude.{true, false, some, List, [], ◌∷◌, ◌++◌, ◌≡◌, refl, if◌then◌else◌}
use jonson.Text.{Text, codes}
use jonson.Types.{GoType, type_test_account, type_impersonated}
use jonson.Value.{Value, test_account, impersonated, rpc_meta, RpcMeta, http}
use jonson.Errors.{plain, of_string}
use jonson.Validate.{ok}
use jonson.Context.{ValueItem, new_context, get_value, value, failure}
use jonson.Context.Prog.{Outcome, returned, done}
use jonson.Context.Run.{State, Exec, run}
use jonson.Jonsontest.{
  RpcMethod, AuthClientMock, new_auth_client_mock, methods_of, authenticate, allow, authorize,
  is_authorized,
}
use jonson.Jonsontest.Mock.{Made, fresh, authorized, IsConsistent, Made-IsConsistent}
use jonson.Jonsontest.Grants.{Decides, authorize-Decides}
use jonson.Jonsontest.Runs.{TestContextBoundary, must_run, is_panic, must_run-fails}
use jonson.Jonsontest.Boundary.{BoundaryOpt, with_rpc_meta, with_opts, failure_of}
use jonson.Method.Call.{execute}
use jonson.Context.Prog
use jonson.Context.Run.{set_ctx}
use jonson.Scenario.{clear, start, no_call}

abbrev alice : Text
alice = codes "alice"

abbrev bob : Text
bob = codes "bob"

abbrev get_ping : RpcMethod
get_ping = record { http_method = codes "GET"; method = codes "app/ping.v1" }

-- Alice is logged in and may impersonate Bob.
abbrev mock : AuthClientMock
mock = allow alice (bob ∷ []) (authenticate alice new_auth_client_mock)

abbrev item_of : GoType → Value → ValueItem
item_of t v = record { addr = 1; rt = t; val = v; valid = true }

abbrev state_of : List ValueItem → State
state_of is = record start { ctx = record { values = is; finalized = false; next = 2 } }

abbrev as_bob : State
as_bob = state_of (
    item_of type_test_account (test_account alice)
    ∷ item_of type_impersonated (impersonated bob (bob ∷ []))
    ∷ [])

abbrev ping_meta : RpcMeta
ping_meta = record { method = codes "app/ping.v1"; http_method = codes "GET"; source = http }

abbrev as_alice : State
as_alice = state_of (item_of type_test_account (test_account alice) ∷ [])

abbrev meta_only : GoType → State → Exec
meta_only t s = (returned (rpc_meta ping_meta), s)

abbrev pinging : AuthClientMock
pinging = record new_auth_client_mock {
  authenticated = alice ∷ [];
  method_access = (alice, get_ping ∷ []) ∷ [];
}

alice_authorized : authorize alice (get_ping ∷ []) new_auth_client_mock ≡ ok pinging
unfolding authorize new_auth_client_mock
alice_authorized = refl

pinging-Made : Made pinging
pinging-Made = authorized {t = new_auth_client_mock} alice (get_ping ∷ []) fresh alice_authorized

Made-IsConsistent_example : IsConsistent pinging
Made-IsConsistent_example = Made-IsConsistent {t = pinging} pinging-Made

alice_alone : get_value type_impersonated as_alice.ctx ≡ failure (plain "instance not found")
unfolding get_value
alice_alone = refl

alice_found_alone : get_value type_test_account as_alice.ctx ≡ value (test_account alice)
unfolding get_value
alice_found_alone = refl

authorize-Decides_example :
    Decides ping_meta
      (methods_of new_auth_client_mock.method_access alice ++ get_ping ∷ [])
      alice
      as_alice
      (run meta_only no_call (is_authorized pinging) as_alice)
authorize-Decides_example =
    authorize-Decides meta_only no_call new_auth_client_mock pinging alice get_ping [] ping_meta
      (plain "instance not found") as_alice as_alice alice_authorized alice_found_alone alice_alone
      refl

-- A test that panics.
abbrev panicking : Prog.Prog
panicking = Prog.panic (of_string "no connection")

abbrev meta_opts : List BoundaryOpt
meta_opts = with_rpc_meta ping_meta ∷ []

fails :
    failure_of
      (execute "" [] clear [] 1 (with_opts meta_opts panicking) (set_ctx start new_context))
    ≡ some (plain "no connection")
unfolding execute with_opts with_rpc_meta
fails = refl

abbrev watched : TestContextBoundary
watched = record { opts = meta_opts; stack_inspector = 1 ∷ [] }

must_run-fails_example :
    ((must_run "" [] clear [] 1 watched panicking (2 ∷ []) start).fatal ≡ true)
    × ((must_run "" [] clear [] 1 watched panicking (2 ∷ []) start).result.state.ctx.finalized
        ≡ true)
    × ((must_run "" [] clear [] 1 watched panicking (2 ∷ []) start).called ≡ (
        if is_panic
          (execute "" [] clear [] 1 (with_opts meta_opts panicking) (set_ctx start new_context))
        then 1 ∷ 2 ∷ []
        else []))
must_run-fails_example =
    must_run-fails "" [] clear [] 1 watched panicking (2 ∷ []) start (plain "no connection") fails
