-- ===== src/Auth/Access.antt =====
-- Who gets past an argument of type `*Private` (auth.go, with `Require` and `callMethod`).
use jonson.Prelude.{ℕ, suc, String, true, false, Option, none, some, List, ◌∷◌, ◌≡◌, refl, ap, ◌∙◌}
use Prim.Native.String
use mathlib.Core.Option.{some-injective}
use jonson.Text.{Text}
use jonson.Types.{GoType, is_ptr_or_interface, type_private}
use jonson.Value.{Value, nil_value, account, reply}
use jonson.Errors.{
  GoError, rpc, plain, PanicValue, of_error, of_string, get_recover_error, err_unauthorized,
}
use jonson.Rpc.{RpcRequest}
use jonson.Context.{find}
use jonson.Context.Prog.{MethodCall, Outcome, returned, Prog}
use jonson.Context.Run.{
  State, Exec, after, run, Providers, provider, resolve, require_type, mark_ctx,
}
use jonson.Context.Run.Immediate.{awaiting, opened, provided}
use jonson.Context.Run.Sequence.{run->>=}
use jonson.Method.{Argument}
use jonson.Method.Call.{collect_arguments, is_at}
use jonson.Method.Call.Outcomes.{collect_arguments-recovers}
use jonson.Auth.{AuthClient, check_authorized, new_private}

-- What the client's answer means: nobody, an error, or an account.
abbrev pub panic_of : Option Text → Option GoError → Option PanicValue
panic_of resp (some (rpc e)) = some (of_error (rpc e))
panic_of resp (some (plain s)) = some (of_string (String.◌++◌ "newPrivate: " s))
panic_of none none = some (of_error (rpc err_unauthorized))
panic_of (some uuid) none = none

module _ (reqs : GoType → State → Exec) (call : MethodCall → State → Exec) where
  check-run :
      (resp : Option Text) (err : Option GoError) (p : PanicValue) (s : State)
      → panic_of resp err ≡ some p
      → run reqs call (check_authorized (account resp err)) s ≡ (Outcome.panicked p, s)
  unfolding run
  check-run resp (some (rpc e)) p s h = ap (λ q. (Outcome.panicked q, s)) (some-injective _ _ h)
  check-run resp (some (plain t)) p s h = ap (λ q. (Outcome.panicked q, s)) (some-injective _ _ h)
  check-run none none p s h = ap (λ q. (Outcome.panicked q, s)) (some-injective _ _ h)
  check-run (some uuid) none p s h = absurd (cc h)

  new_private-run :
      (client : AuthClient) (resp : Option Text) (err : Option GoError) (p : PanicValue)
      (s s' : State)
      → panic_of resp err ≡ some p
      → run reqs call client.is_authorized s ≡ (returned (account resp err), s')
      → run reqs call (new_private client) s ≡ (Outcome.panicked p, s')
  unfolding new_private
  new_private-run client resp err p s s' h e =
      run->>= reqs call client.is_authorized check_authorized s
      ∙ ap (λ x. after x (λ v s''. run reqs call (check_authorized v) s'')) e
      ∙ check-run resp err p s' h

module _ (stack : String) (providers : Providers) (call : MethodCall → State → Exec) where
  require_type-panicked :
      (fuel : ℕ) (t : GoType) (q : Prog) (p : PanicValue) (s s' : State)
      → s.ctx.finalized ≡ false
      → is_ptr_or_interface t.kind ≡ true
      → find t s.ctx.values ≡ none
      → provider t providers ≡ some q
      → run (require_type stack providers call fuel) call q (awaiting t s)
        ≡ (Outcome.panicked p, s')
      → require_type stack providers call (suc fuel) t s ≡ (Outcome.panicked p, s')
  require_type-panicked fuel t q p s s' f k n h e =
      opened stack providers call fuel t s f k
      ∙ ap (λ o. resolve stack providers call (require_type stack providers call fuel) o t s) n
      ∙ (unfold resolve in
          ap (λ x. after x (λ v r. (returned v, mark_ctx s.ctx.next v r)))
            (provided stack providers call (require_type stack providers call fuel) t q
                (awaiting t s) h
              ∙ e))

-- A procedure with an argument of type `*Private` is not run for a caller whom the client does not
-- authorize, under a context that holds no `Private` yet: if the client answers with an error, or
-- with no account and no error, the call returns that error, and "Not authorized" for the latter,
-- in the state that the client left, whatever the other arguments and the handler are.
pub private-refused :
    (stack : String) (providers : Providers) (call : MethodCall → State → Exec) (fuel : ℕ)
    (encode : Text → Text) (r : RpcRequest) (bindata : Option Text) (pos : Option ℕ) (i : ℕ)
    (args : List Argument) (acc : List Value) (k : List Value → Prog) (client : AuthClient)
    (resp : Option Text) (err : Option GoError) (p : PanicValue) (s s' : State)
    → is_at pos i ≡ false
    → s.ctx.finalized ≡ false
    → find type_private s.ctx.values ≡ none
    → provider type_private providers ≡ some (new_private client)
    → run
        (require_type stack providers call fuel)
        call
        client.is_authorized
        (awaiting type_private s)
      ≡ (returned (account resp err), s')
    → panic_of resp err ≡ some p
    → run
        (require_type stack providers call (suc fuel))
        call
        (collect_arguments encode r bindata pos i
          (record { rt = type_private; params = none } ∷ args)
          acc
          k)
        s
      ≡ (returned (reply nil_value (some (get_recover_error p))), s')
private-refused stack providers call fuel encode r bindata pos i args acc k client resp err p s s'
      at f n h e refused =
    collect_arguments-recovers (require_type stack providers call (suc fuel)) call encode r bindata
      pos i (record { rt = type_private; params = none }) args acc k s s' p at
      (require_type-panicked stack providers call fuel type_private (new_private client) p s s' f
        refl n h
        (new_private-run (require_type stack providers call fuel) call client resp err p
          (awaiting type_private s) s' refused e))
