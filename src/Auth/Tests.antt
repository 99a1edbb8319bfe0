-- ===== src/Auth/Tests.antt =====
-- The theorems on authentication in the small application.
use jonson.Prelude.{arith, true, ◌≡◌, refl, none, some, [], ◌∷◌, false}
use jonson.Text.{codes}
use jonson.Types.{type_private, type_impersonated}
use jonson.Value.{impersonated, private, account, reply, nil_value}
use jonson.Errors.{of_error, rpc, plain, get_recover_error, err_unauthorized}
use jonson.Context.{push, ValueItem, Context, has, get_value, failure, value, find, new_context}
use jonson.Context.Prog.{returned, done}
use jonson.Context.Run.{State, run, require_type, provider, nth, update}
use jonson.Method.Call.{collect_arguments}
use jonson.Auth.{account_uuid, fresh_public, new_private}
use jonson.Context.Run.Unique.{IsWellFormed}
use jonson.Context.Run.Immediate.{awaiting}
use jonson.Auth.Access.{private-refused}
use jonson.Auth.Account.{put, finished, kept_answer, locked_public, account_uuid-asks_once}
use jonson.Scenario.{
  clear, ping_request, stranger, guarded, start, no_call, one_public, one_public_in_caller, caller,
  providers,
}

abbrev asked : State
asked = awaiting type_private start

start_open : start.ctx.finalized ≡ false
unfolding new_context
start_open = refl

no_private : find type_private start.ctx.values ≡ none
unfolding new_context find
no_private = refl

has_provider : provider type_private guarded ≡ some (new_private stranger)
unfolding provider
has_provider = refl

unknown :
    run (require_type "" guarded no_call 1) no_call stranger.is_authorized asked
    ≡ (returned (account none none), asked)
unfolding run
unknown = refl

private-refused_example :
    run
      (require_type "" guarded no_call 2)
      no_call
      (collect_arguments clear ping_request none none 0
        (record { rt = type_private; params = none } ∷ [])
        []
        (λ vs. done nil_value))
      start
    ≡ (
      returned (reply nil_value (some (get_recover_error (of_error (rpc err_unauthorized))))),
      asked,
    )
private-refused_example =
    private-refused "" guarded no_call 1 clear ping_request none none 0 [] [] (λ vs. done nil_value)
      stranger none none (of_error (rpc err_unauthorized)) start asked refl start_open no_private
      has_provider unknown refl

abbrev locked : State
locked = put 0 locked_public one_public

fresh_one : nth 0 one_public.publics ≡ some fresh_public
unfolding nth
fresh_one = refl

locked_one : nth 0 locked.publics ≡ some locked_public
unfolding nth update
locked_one = refl

no_account : get_value type_private one_public.ctx ≡ failure (plain "instance not found")
unfolding get_value new_context
no_account = refl

unknown_account :
    run (require_type "" providers no_call 3) no_call stranger.is_authenticated locked
    ≡ (returned (account none none), locked)
unfolding run
unknown_account = refl

account_uuid-asks_once_example :
    (run (require_type "" providers no_call 3) no_call (account_uuid stranger 0) one_public
      ≡ (returned (account none none), finished 0 locked_public none none locked))
    × (run
          (require_type "" providers no_call 3)
          no_call
          (account_uuid stranger 0)
          (finished 0 locked_public none none locked)
        ≡ (returned (kept_answer none none), finished 0 locked_public none none locked))
account_uuid-asks_once_example =
    account_uuid-asks_once (require_type "" providers no_call 3) no_call stranger stranger 0
      locked_public none none (plain "instance not found") one_public locked fresh_one locked_one
      no_account unknown_account

alice : get_value type_private one_public_in_caller.ctx ≡ value (private (codes "alice"))
unfolding get_value caller new_context
alice = refl

abbrev caller_state : State
caller_state = record { ctx = caller; publics = []; finalizations = [] }

abbrev bob_item : ValueItem
bob_item = record {
  addr = 1;
  rt = type_impersonated;
  val = impersonated (codes "bob") (codes "bob" ∷ []);
  valid = true;
}

abbrev as_bob : Context
as_bob = push bob_item new_context

as_bob-IsWellFormed : IsWellFormed as_bob
unfolding new_context has
as_bob-IsWellFormed = record {
  unique = (refl, (refl, tt));
  numbered = (omega arith, (omega arith, tt));
}

bob_found : find type_impersonated as_bob.values ≡ some bob_item
unfolding new_context find
bob_found = refl
