-- ===== src/Context/Run/Tests.antt =====
-- The theorems on contexts in the small application.
use jonson.Prelude.{
  true, false, none, some, [], ◌∷◌, ◌++◌, ◌≡◌, ◌≢◌, refl, arith, if◌then◌else◌, all,
}
use mathlib.Core.List.{reverse}
use jonson.Errors.{of_error}
use jonson.Context.{new_context}
use jonson.Context.Prog.{Outcome, returned, out_of_fuel, require, done}
use jonson.Context.Run.{State, run, require_type, debug_recursion_loop, unknown_provider, ready}
use jonson.Context.Run.Extends.{KeepsContext, IsNumbered}
use jonson.Context.Run.Total.{require_type-ends}
use jonson.Context.Run.Cached.{require_type_again, require_type_after_panic}
use jonson.Context.Run.Unique.{IsWellFormed, run-IsWellFormed, new_context-IsWellFormed}
use jonson.Context.Final.{finalize, opt, finalization_failed}
use jonson.Context.Final.Laws.{finalize_first, finalizable, is_quiet}
use jonson.Scenario.{
  type_session, type_database, providers, cyclic, no_call, start, caller, session, clear, database,
}

no_call-KeepsContext : KeepsContext no_call
no_call-KeepsContext m s = refl

-- The cycle is met at the third `Require`.
cyclic_run :
    (require_type "" cyclic no_call 3 type_session start).0
    ≡ Outcome.panicked (
        of_error (
          debug_recursion_loop "" type_session
            (require_type "" cyclic no_call 3 type_session start).1.ctx.values))
unfolding require_type new_context run debug_recursion_loop
cyclic_run = refl

require_type-ends_example : (require_type "" cyclic no_call 3 type_session start).0 ≢ out_of_fuel
require_type-ends_example =
    require_type-ends "" cyclic no_call ((λ v. tt), ((λ v. tt), tt)) type_session start

abbrev with_session : State
with_session = record {
  ctx = record {
    values =
        new_context.values
        ++ ready new_context type_session session
          ∷ record { addr = 2; rt = type_database; val = database; valid = true }
          ∷ [];
    finalized = false;
    next = 3;
  };
  publics = [];
  finalizations = [];
}

session_run :
    require_type "" providers no_call 3 type_session start ≡ (returned session, with_session)
unfolding require_type new_context run
session_run = refl

new_context-IsNumbered : IsNumbered new_context
unfolding new_context
new_context-IsNumbered = (omega arith, tt)

require_type_again_example :
    require_type "" providers no_call 1 type_session with_session ≡ (returned session, with_session)
require_type_again_example =
    require_type_again "" providers no_call no_call-KeepsContext (tt, ((λ v. tt), tt)) 3 0
      type_session start with_session session new_context-IsNumbered session_run

abbrev lost : State
lost = (require_type "" [] no_call 1 type_session start).1

start_open : start.ctx.finalized ≡ false
unfolding new_context
start_open = refl

lost_run :
    require_type "" [] no_call 1 type_session start
    ≡ (Outcome.panicked (unknown_provider type_session), lost)
unfolding require_type new_context run
lost_run = refl

require_type_after_panic_example :
    require_type "" [] no_call 1 type_session lost
    ≡ (Outcome.panicked (of_error (debug_recursion_loop "" type_session lost.ctx.values)), lost)
require_type_after_panic_example =
    require_type_after_panic "" [] no_call no_call-KeepsContext tt 1 0 type_session start lost
      (unknown_provider type_session) new_context-IsNumbered start_open refl lost_run

run-IsWellFormed_example :
    IsWellFormed
      (run (require_type "" providers no_call 3) no_call (require type_session done) start).1.ctx
run-IsWellFormed_example =
    run-IsWellFormed "" providers no_call no_call-KeepsContext 3 (require type_session done) start
      new_context-IsWellFormed

caller_open : caller.finalized ≡ false
unfolding caller new_context
caller_open = refl

finalize_first_example :
    ((finalize clear none caller).called ≡ reverse (finalizable caller.values))
    × ((finalize clear none caller).ctx ≡ record caller { values = []; finalized = true })
    × ((finalize clear none caller).result ≡ (
        if all (is_quiet (opt none)) caller.values then none else some (finalization_failed clear)))
finalize_first_example = finalize_first clear none caller caller_open

-- The error of the finalizer of the database is replaced.
finalize-caller : (finalize clear none caller).result ≡ some (finalization_failed clear)
unfolding finalize caller new_context
finalize-caller = refl
