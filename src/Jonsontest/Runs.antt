-- ===== src/Jonsontest/Runs.antt =====
-- jonsontest/jonsontest.go: a `TestContextBoundary`, which runs tests and fails those that end with an
-- error. `t.Fatal` is package testing's: `fatal` is whether it is called. Stack inspectors are told
-- apart by numbers.
use jonson.Prelude.{
  ℕ, ap, String, Bool, true, false, none, some, List, [], ◌∷◌, ◌++◌, ◌≡◌, ◌≢◌, refl, if◌then◌else◌,
}
use jonson.Text.{Text}
use jonson.Errors.{GoError, PanicValue, of_error, of_string, of_other, plain, get_recover_error}
use jonson.Value.{Request, RpcMeta, reply}
use jonson.Context.{new_context}
use jonson.Context.Prog.{Outcome, returned, Prog}
use jonson.Context.Run.{State, Exec, Providers, set_ctx}
use jonson.Method.{ApiEndpoint}
use jonson.Method.Call.{execute}
use jonson.Jonsontest.Boundary.{
  BoundaryOpt, Ran, ended, unended, BoundaryResult, with_http_source, with_rpc_meta, with_opts,
  run_boundary, close_boundary, failure_of, ended_error, run_boundary-IsClosed,
}

pub record TestContextBoundary : Type 0 where
  pub opts : List BoundaryOpt
  pub stack_inspector : List ℕ

-- `NewContextBoundary`
unfoldable pub new_context_boundary : List BoundaryOpt → TestContextBoundary
new_context_boundary opts = record { opts = opts; stack_inspector = [] }

-- The methods `WithStackInspector`, `WithHttpSource` and `WithRpcMeta` of a boundary
unfoldable pub add_stack_inspector : List ℕ → TestContextBoundary → TestContextBoundary
add_stack_inspector recovr t = record t { stack_inspector = t.stack_inspector ++ recovr }

unfoldable pub add_http_source : Request → TestContextBoundary → TestContextBoundary
unfolding with_http_source
add_http_source r t = record t { opts = t.opts ++ with_http_source r ∷ [] }

unfoldable pub add_rpc_meta : RpcMeta → TestContextBoundary → TestContextBoundary
unfolding with_rpc_meta
add_rpc_meta m t = record t { opts = t.opts ++ with_rpc_meta m ∷ [] }

-- `getRecoverError` of jonsontest, a copy of the one of method.handler.go
unfoldable pub recover_error : PanicValue → GoError
recover_error (of_error e) = e
recover_error (of_string s) = plain s
recover_error (of_other s) = plain s

pub recover_error-get_recover_error : (p : PanicValue) → recover_error p ≡ get_recover_error p
unfolding recover_error get_recover_error
recover_error-get_recover_error (of_error e) = refl
recover_error-get_recover_error (of_string s) = refl
recover_error-get_recover_error (of_other s) = refl

-- What `MustRun` does: the run, whether it fails the test, and the inspectors that it has called.
pub record TestRun : Type 0 where
  pub result : BoundaryResult
  pub fatal : Bool
  pub called : List ℕ

abbrev pub is_fatal : Ran → Bool
is_fatal (ended (some e)) = true
is_fatal (ended none) = false
is_fatal (unended o) = false

abbrev pub test_run : BoundaryResult → List ℕ → TestRun
test_run r inspectors = record {
  result = r;
  fatal = is_fatal r.ran;
  called = if r.inspected then inspectors else [];
}

abbrev pub is_panic : Exec → Bool
is_panic (Outcome.panicked p, s) = true
is_panic e = false

module _ (stack : String) (providers : Providers) (encode : Text → Text)
    (endpoints : List (Text × ApiEndpoint)) (fuel : ℕ) where
  -- `TestContextBoundary.MustRun`
  unfoldable pub must_run : TestContextBoundary → Prog → List ℕ → State → TestRun
  unfolding run_boundary
  must_run t fn recovr s =
      test_run (run_boundary stack providers encode endpoints fuel t.opts fn s)
        (t.stack_inspector ++ recovr)

  fatal-of_error : (r : Ran) → ended_error r ≢ none → is_fatal r ≡ true
  fatal-of_error (ended (some e)) h = refl
  fatal-of_error (ended none) h = absurd (h refl)
  fatal-of_error (unended o) h = absurd (h refl)

  inspected-close_boundary : (e : Exec) → (close_boundary encode e).inspected ≡ is_panic e
  unfolding close_boundary
  inspected-close_boundary (returned (reply v err), s) = refl
  inspected-close_boundary (Outcome.panicked p, s) = refl
  inspected-close_boundary (o, s) = refl

  -- A test that returns an error or panics makes MustRun fail the test, whatever the finalizers of its
  -- context do, and its context is finalized. If it panics the stack inspectors of the boundary and
  -- then those of the call are called, and otherwise none is.
  pub must_run-fails :
      (t : TestContextBoundary) (fn : Prog) (recovr : List ℕ) (s : State) (e : GoError)
      → failure_of (
          execute stack providers encode endpoints fuel
            (with_opts t.opts fn)
            (set_ctx s new_context))
        ≡ some e
      → ((must_run t fn recovr s).fatal ≡ true)
        × ((must_run t fn recovr s).result.state.ctx.finalized ≡ true)
        × ((must_run t fn recovr s).called ≡ (
            if is_panic (
              execute stack providers encode endpoints fuel
                (with_opts t.opts fn)
                (set_ctx s new_context))
            then t.stack_inspector ++ recovr
            else []))
  unfolding must_run
  must_run-fails t fn recovr s e h =
      let (failed, finalized) =
        run_boundary-IsClosed stack providers encode endpoints fuel t.opts fn s e h in
      (
        fatal-of_error (run_boundary stack providers encode endpoints fuel t.opts fn s).ran failed,
        finalized,
        ap (λ b. if b then t.stack_inspector ++ recovr else [])
            (inspected-close_boundary (
              execute stack providers encode endpoints fuel (with_opts t.opts fn)
                (set_ctx s new_context))),
      )
