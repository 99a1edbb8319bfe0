-- ===== src/Auth/Account.antt =====
-- The account of a `Public` is looked up once (`Public.AccountUuid` of auth.go).
use jonson.Prelude.{
  ℕ, zero, suc, true, false, Option, none, some, List, [], ◌∷◌, ◌≡◌, refl, ap, ◌∙◌,
}
use jonson.Text.{Text}
use jonson.Types.{GoType, type_private}
use jonson.Value.{Value, private, account}
use jonson.Errors.{GoError}
use jonson.Context.{value, failure, get_value}
use jonson.Context.Prog.{Public, MethodCall, returned, Prog}
use jonson.Context.Run.{State, Exec, after, settle, run, nth, update}
use jonson.Context.Run.Sequence.{run->>=}
use jonson.Auth.{
  AuthClient, account_uuid, fresh_public, checked_account, with_public, given_public, find_account,
  keep, release,
}

nth-update {ℓ} :
    {A : Type ℓ} (n : ℕ) (x y : A) (xs : List A)
    → nth n xs ≡ some x
    → nth n (update n y xs) ≡ some y
unfolding nth update
nth-update n x y [] h = absurd (cc h)
nth-update zero x y (z ∷ zs) h = refl
nth-update (suc n) x y (z ∷ zs) h = nth-update n x y zs h

-- A `Public` with a new content.
abbrev pub put : ℕ → Public → State → State
put a u s = record s { publics = update a u s.publics }

abbrev pub answered_with : Option Text → Option GoError → Public
answered_with resp err = record { checked = true; account_uuid = resp; err = err; locked = false }

abbrev pub locked_public : Public
locked_public = record { checked = false; account_uuid = none; err = none; locked = true }

-- The state after the look-up: the answer is kept, and then the `Public` is released.
abbrev pub finished : ℕ → Public → Option Text → Option GoError → State → State
finished a u resp err s =
    put a (answered_with resp err) (put a (record u { account_uuid = resp; err = err }) s)

abbrev pub kept_answer : Option Text → Option GoError → Value
kept_answer none err = account none err
kept_answer (some uuid) err = account (some uuid) none

module _ (reqs : GoType → State → Exec) (call : MethodCall → State → Exec) where
  with_public-run :
      (a : ℕ) (u : Public) (k : Public → Prog) (s : State)
      → nth a s.publics ≡ some u
      → run reqs call (with_public a k) s ≡ run reqs call (k u) s
  unfolding run
  with_public-run a u k s h = ap (λ o. run reqs call (given_public k o) s) h

  keep-run :
      (a : ℕ) (u : Public) (resp : Option Text) (err : Option GoError) (s : State)
      → nth a s.publics ≡ some u
      → run reqs call (keep a (account resp err)) s
        ≡ (returned (account resp err), put a (record u { account_uuid = resp; err = err }) s)
  unfolding run
  keep-run a u resp err s h = with_public-run a u _ s h

  release-run :
      (a : ℕ) (u : Public) (v : Value) (s : State)
      → nth a s.publics ≡ some u
      → run reqs call (release a (returned v)) s
        ≡ (returned v, put a (record u { checked = true; locked = false }) s)
  unfolding run
  release-run a u v s h = with_public-run a u _ s h

  -- The look-up between the lock and the release, once it has an answer.
  settled :
      (client : AuthClient) (a : ℕ) (u : Public) (resp : Option Text) (err : Option GoError)
      (s s' : State)
      → nth a s.publics ≡ some fresh_public
      → nth a s'.publics ≡ some u
      → run reqs call (Prog.get_value type_private (find_account client a)) (put a locked_public s)
        ≡ run reqs call (keep a (account resp err)) s'
      → run reqs call (account_uuid client a) s
        ≡ (returned (account resp err), finished a u resp err s')
  unfolding account_uuid run
  settled client a u resp err s s' h h' found =
      with_public-run a fresh_public (checked_account client a) s h
      ∙ ap (λ x. settle x (λ o r. run reqs call (release a o) r))
          (found ∙ keep-run a u resp err s' h')
      ∙ release-run a (record u { account_uuid = resp; err = err }) (account resp err)
          (put a (record u { account_uuid = resp; err = err }) s') (nth-update a u _ s'.publics h')

  cached :
      (client : AuthClient) (a : ℕ) (resp : Option Text) (err : Option GoError) (s : State)
      → nth a s.publics ≡ some (answered_with resp err)
      → run reqs call (account_uuid client a) s ≡ (returned (kept_answer resp err), s)
  unfolding account_uuid run
  cached client a none err s h =
      with_public-run a (answered_with none err) (checked_account client a) s h
  cached client a (some uuid) err s h =
      with_public-run a (answered_with (some uuid) err) (checked_account client a) s h

  nth-finished :
      (a : ℕ) (u : Public) (resp : Option Text) (err : Option GoError) (s : State)
      → nth a s.publics ≡ some u
      → nth a (finished a u resp err s).publics ≡ some (answered_with resp err)
  nth-finished a u resp err s h =
      nth-update a (record u { account_uuid = resp; err = err }) (answered_with resp err) _
        (nth-update a u (record u { account_uuid = resp; err = err }) s.publics h)

  -- A new `Public` under a context without a valid `Private`, and a client that answers, with the
  -- `Public` locked meanwhile: the first look-up returns the client's answer. A second one returns
  -- it again, with the error only if there is no account, whatever client the second one has, and
  -- changes nothing.
  pub account_uuid-asks_once :
      (client other : AuthClient) (a : ℕ) (u : Public) (resp : Option Text) (err : Option GoError)
      (g : GoError) (s s' : State)
      → nth a s.publics ≡ some fresh_public
      → nth a s'.publics ≡ some u
      → get_value type_private s.ctx ≡ failure g
      → run reqs call client.is_authenticated (put a locked_public s)
        ≡ (returned (account resp err), s')
      → (run reqs call (account_uuid client a) s
          ≡ (returned (account resp err), finished a u resp err s'))
        × (run reqs call (account_uuid other a) (finished a u resp err s')
            ≡ (returned (kept_answer resp err), finished a u resp err s'))
  unfolding run
  account_uuid-asks_once client other a u resp err g s s' h h' none_private ran = (
    settled client a u resp err s s' h h' (
        ap (λ v. run reqs call (find_account client a v) (put a locked_public s)) none_private
        ∙ run->>= reqs call client.is_authenticated (keep a) (put a locked_public s)
        ∙ ap (λ x. after x (λ v r. run reqs call (keep a v) r)) ran),
    cached other a resp err (finished a u resp err s') (nth-finished a u resp err s' h'),
  )

  -- A new `Public` under a context with a valid `Private`: the look-up returns the account of the
  -- `Private` and keeps it, whatever the client would answer; it does not ask it.
  pub account_uuid-private :
      (client : AuthClient) (a : ℕ) (uuid : Text) (s : State)
      → nth a s.publics ≡ some fresh_public
      → get_value type_private s.ctx ≡ value (private uuid)
      → ((run reqs call (account_uuid client a) s).0 ≡ returned (account (some uuid) none))
        × (nth a (run reqs call (account_uuid client a) s).1.publics
            ≡ some (answered_with (some uuid) none))
  unfolding run
  account_uuid-private client a uuid s h has_private =
      let p : nth a (put a locked_public s).publics ≡ some locked_public =
        nth-update a fresh_public locked_public s.publics h in
      let r =
        settled client a locked_public (some uuid) none s (put a locked_public s) h p
          (ap (λ v. run reqs call (find_account client a v) (put a locked_public s)) has_private) in
      (
        ap (λ (x : Exec). x.0) r,
        ap (λ (x : Exec). nth a x.1.publics) r
            ∙ nth-finished a locked_public (some uuid) none (put a locked_public s) p,
      )
