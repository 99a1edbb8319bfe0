-- ===== src/Example/AccountTests.antt =====
-- account_test.go: the tests of the example, run in the model.
use jonson.Prelude.{String, none, some, [], ◌≡◌, refl}
use jonson.Text.{codes, text_eq}
use jonson.Errors.{rpc, plain}
use jonson.Validate.{Result, ok, panicked}
use jonson.Context.{Fallible, new_context}
use jonson.Context
use jonson.Context.Prog.{Outcome, Prog}
use jonson.Context.Typed.{is_of}
use jonson.Context.Typed.Accessors.{require_as}
use jonson.Http.{new_http_get, new_http_post}
use jonson.Log.{new_logger, new_logger_options}
use jonson.Jonsontest.Boundary.{Ran, ended, unended}
use jonson.Jonsontest.Runs.{TestContextBoundary, add_http_source, must_run}
use jonson.Example.{
  json_validate, World, Application, new_private, new_public, get_profile_v1, me_v1, err_not_found,
  the_uuid,
}
use jonson.Example.Client.{call_me_v1, call_get_profile_v1, test_application}
use jonson.Example.Tests.{with_header}
use jonson.Scenario.{clear, start, post}

abbrev ran_in : Result Application → TestContextBoundary → Prog → Ran
ran_in (ok a) t fn = (must_run "" a.providers clear a.handler.endpoints 2 t fn [] start).result.ran
ran_in (panicked p) t fn = unended (Outcome.panicked p)

-- A test on a boundary without options, with a client that sends the header.
abbrev test : String → TestContextBoundary → (World → Prog) → Ran
test header t fn =
    ran_in (test_application (with_header (codes header))) t (fn (with_header (codes header)))

abbrev plain_boundary : TestContextBoundary
plain_boundary = record { opts = []; stack_inspector = [] }

abbrev http_boundary : TestContextBoundary
http_boundary = add_http_source post plain_boundary

gets_profile :
    test "" plain_boundary (λ w. call_get_profile_v1 w (Context.value the_uuid)) ≡ ended none
unfolding json_validate get_profile_v1 me_v1 test_application call_me_v1 call_get_profile_v1
    must_run add_http_source new_private new_public require_as new_http_get new_http_post new_logger
    new_logger_options is_of text_eq
gets_profile = refl

gets_profile_not_found :
    test "" plain_boundary
      (λ w. call_get_profile_v1 w (Context.value (codes "9b641812-b78c-40f0-a8df-88f8378f10a7")))
    ≡ ended (some (rpc err_not_found))
unfolding json_validate get_profile_v1 me_v1 test_application call_me_v1 call_get_profile_v1
    must_run add_http_source new_private new_public require_as new_http_get new_http_post new_logger
    new_logger_options is_of text_eq
gets_profile_not_found = refl

-- It fails since there is no request in the context, whatever its header would be.
me_fails :
    test "authorized" plain_boundary call_me_v1
    ≡ ended (some (plain "factory: unknown provider type requested: *jonson.HttpRequest"))
unfolding json_validate get_profile_v1 me_v1 test_application call_me_v1 call_get_profile_v1
    must_run add_http_source new_private new_public require_as new_http_get new_http_post new_logger
    new_logger_options is_of text_eq
me_fails = refl

me_succeeds : test "authorized" http_boundary call_me_v1 ≡ ended none
unfolding json_validate get_profile_v1 me_v1 test_application call_me_v1 call_get_profile_v1
    must_run add_http_source new_private new_public require_as new_http_get new_http_post new_logger
    new_logger_options is_of text_eq
me_succeeds = refl
