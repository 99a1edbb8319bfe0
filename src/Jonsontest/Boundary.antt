-- ===== src/Jonsontest/Boundary.antt =====
-- jonsontest/jonsontest.go: tests that run under a context of their own. A test is a program whose
-- result is a `reply`, of which the error counts. An option stores its values in the context.
use jonson.Prelude.{
  Bool, true, false, Option, none, some, List, [], ◌∷◌, ◌≡◌, ◌≢◌, sym, ap, ◌∙◌, ℕ, String,
  Bool-cases, inl, inr, all, if◌then◌else◌,
}
use mathlib.Core.Path.{subst}
use jonson.Text.{Text}
use jonson.Types.{GoType, type_http_request, type_http_response_writer, type_rpc_meta}
use jonson.Value.{Value, http_request, http_response_writer, rpc_meta, Request, RpcMeta, reply}
use jonson.Errors.{GoError, get_recover_error}
use jonson.Context.{Context, new_context}
use jonson.Context.Prog.{Outcome, returned, Prog}
use jonson.Context.Run.{State, Exec, Providers, set_ctx}
use jonson.Context.Final.{finalize, finalization_failed, opt}
use jonson.Context.Final.Laws.{finalize_first, is_quiet}
use jonson.Method.{ApiEndpoint}
use jonson.Method.Call.{execute}

abbrev pub BoundaryOpt : Type 0
BoundaryOpt = List (GoType × Value)

-- `WithHttpSource` and `WithRpcMeta`
unfoldable pub with_http_source : Request → BoundaryOpt
with_http_source r =
    (type_http_request, http_request r) ∷ (type_http_response_writer, http_response_writer) ∷ []

unfoldable pub with_rpc_meta : RpcMeta → BoundaryOpt
with_rpc_meta m = (type_rpc_meta, rpc_meta m) ∷ []

-- The options are applied, then the test runs.
unfoldable pub with_values : BoundaryOpt → Prog → Prog
with_values [] p = p
with_values ((t, v) ∷ vs) p = Prog.store_value t v (with_values vs p)

unfoldable pub with_opts : List BoundaryOpt → Prog → Prog
unfolding with_values
with_opts [] fn = fn
with_opts (o ∷ os) fn = with_values o (with_opts os fn)

-- How a run of a test ends: with an error or none, or not at all.
pub data Ran : Type 0 where
  ended : Option GoError → Ran
  unended : Outcome → Ran

-- The deferred function; `inspected` is whether the stack inspectors are called.
pub record BoundaryResult : Type 0 where
  pub ran : Ran
  pub inspected : Bool
  pub state : State

abbrev pub closed : (Text → Text) → Option GoError → Bool → State → BoundaryResult
closed encode err inspected s = record {
  ran = ended (finalize encode err s.ctx).result;
  inspected = inspected;
  state = set_ctx s (finalize encode err s.ctx).ctx;
}

unfoldable pub close_boundary : (Text → Text) → Exec → BoundaryResult
unfolding finalize get_recover_error
close_boundary encode (returned (reply v err), s) = closed encode err false s
close_boundary encode (returned v, s) = closed encode none false s
close_boundary encode (Outcome.panicked p, s) = closed encode (some (get_recover_error p)) true s
close_boundary encode (o, s) = record { ran = unended o; inspected = false; state = s }

module _ (stack : String) (providers : Providers) (encode : Text → Text)
    (endpoints : List (Text × ApiEndpoint)) where
  -- `TestContextBoundary.Run`
  unfoldable pub run_boundary : ℕ → List BoundaryOpt → Prog → State → BoundaryResult
  unfolding close_boundary execute with_opts new_context
  run_boundary fuel opts fn s =
      close_boundary encode
        (execute stack providers encode endpoints fuel (with_opts opts fn) (set_ctx s new_context))

-- An error that a finalization is given is never lost.
if-some : (b : Bool) (e f : GoError) → (if b then some e else some f) ≢ none
if-some true e f h = cc h
if-some false e f h = cc h

finalize-some :
    (encode : Text → Text) (e : GoError) (c : Context) → (finalize encode (some e) c).result ≢ none
unfolding finalize
finalize-some encode e c q = elim (Bool-cases c.finalized) [
  | inl b ↦ absurd (cc (rw b at q))
  | inr b ↦
      if-some (all (is_quiet (opt (some e))) c.values) e (finalization_failed encode)
        (sym ((finalize_first encode (some e) c b).2) ∙ q)
]

kept_closed :
    (encode : Text → Text) (err : Option GoError) (c : Context)
    → c.finalized ≡ true
    → (finalize encode err c).ctx.finalized ≡ true
unfolding finalize
kept_closed encode err c b = rw b

finalize-finalized :
    (encode : Text → Text) (err : Option GoError) (c : Context)
    → (finalize encode err c).ctx.finalized ≡ true
finalize-finalized encode err c = elim (Bool-cases c.finalized) [
  | inl b ↦ kept_closed encode err c b
  | inr b ↦ ap (λ (x : Context). x.finalized) ((finalize_first encode err c b).1)
]

-- The error of a test: the one that it returns, or that of its panic.
abbrev pub failure_of : Exec → Option GoError
failure_of (returned (reply v err), s) = err
failure_of (Outcome.panicked p, s) = some (get_recover_error p)
failure_of _ = none

-- The error of an ended run.
abbrev pub ended_error : Ran → Option GoError
ended_error (ended err) = err
ended_error (unended o) = none

-- The run fails, and its context is finalized.
abbrev pub IsClosed : BoundaryResult → Type 0
IsClosed r = (ended_error r.ran ≢ none) × (r.state.ctx.finalized ≡ true)

closed-IsClosed :
    (encode : Text → Text) (e : GoError) (inspected : Bool) (s : State)
    → IsClosed (closed encode (some e) inspected s)
closed-IsClosed encode e inspected s =
    (finalize-some encode e s.ctx, finalize-finalized encode (some e) s.ctx)

close_boundary-IsClosed :
    (encode : Text → Text) (x : Exec) (e : GoError)
    → failure_of x ≡ some e
    → IsClosed (close_boundary encode x)
unfolding close_boundary
close_boundary-IsClosed encode (returned (reply v err), s) e h =
    subst (λ o. IsClosed (closed encode o false s)) (sym h) (closed-IsClosed encode e false s)
close_boundary-IsClosed encode (Outcome.panicked p, s) e h =
    closed-IsClosed encode (get_recover_error p) true s
close_boundary-IsClosed encode (o, s) e h = absurd (cc h)

-- A test that returns an error or panics fails its run, whatever the finalizers of its context do,
-- and its context is finalized.
pub run_boundary-IsClosed :
    (stack : String) (providers : Providers) (encode : Text → Text)
    (endpoints : List (Text × ApiEndpoint)) (fuel : ℕ) (opts : List BoundaryOpt) (fn : Prog)
    (s : State) (e : GoError)
    → failure_of
        (execute stack providers encode endpoints fuel (with_opts opts fn) (set_ctx s new_context))
      ≡ some e
    → IsClosed (run_boundary stack providers encode endpoints fuel opts fn s)
unfolding run_boundary
run_boundary-IsClosed stack providers encode endpoints fuel opts fn s e h =
    close_boundary-IsClosed encode
      (execute stack providers encode endpoints fuel (with_opts opts fn) (set_ctx s new_context)) e
      h
