-- ===== src/Context/Typed/Parts.antt =====
-- The library's own programs are typed: the providers of auth.go, impersonate.go and http.method.go,
-- the account of a `Public`, an impersonation, and a call of a procedure.
use jonson.Prelude.{
  ℕ, Bool, true, false, Option, none, some, ◌∷◌, ◌≡◌, refl, if◌then◌else◌, Option-cases, inl, inr,
}
use jonson.Text.{Text, codes, text_eq}
use jonson.Types.{
  GoType, type_private, type_public, type_impersonator, type_http_post, type_http_get,
}
use jonson.Value.{Value, http_request, rpc_meta, private, http_post, http_get, account, reply}
use jonson.Errors.{rpc, plain}
use jonson.Context.{Fallible, value, failure}
use jonson.Context.Prog.{
  Public, Outcome, returned, Prog, done, panic, block, require, attempt, items, in_fork, new_public,
  load_public, save_public, call_method, ◌>>=◌,
}
use jonson.Context.Run.{Providers}
use jonson.Context.Typed.{is_of, Typed, TypedProviders}
use jonson.Auth
use jonson.Auth.{
  AuthClient, check_authorized, new_private, new_impersonator, account_uuid, given_public,
  cached_answer, checked_account, find_account, keep, release, with_public, taken_over, existing,
  new_impersonated, check_account, with_account, scoped, impersonate,
}
use jonson.Http.{new_http_post, new_http_get, check_source, check_method, is_http}

-- The answers of an `AuthClient`.
abbrev pub is_account : Value → Bool
is_account (account resp err) = true
is_account _ = false

-- The answers of a procedure: `(any, error)`.
abbrev pub is_reply : Value → Bool
is_reply (reply v err) = true
is_reply _ = false

abbrev pub library_providers : AuthClient → Providers → Providers
library_providers client ps =
    (type_private, new_private client)
    ∷ (type_public, Auth.new_public)
    ∷ (type_impersonator, new_impersonator)
    ∷ (type_http_post, new_http_post)
    ∷ (type_http_get, new_http_get)
    ∷ ps

module _ (user : ℕ → Value → Bool) where
  pub bind-Typed :
      (r q : Value → Bool) (p : Prog) (k : Value → Prog)
      → Typed user r p
      → ((v : Value) → r v ≡ true → Typed user q (k v))
      → Typed user q (p >>= k)
  unfolding ◌>>=◌
  bind-Typed r q (done v) k h g = g v h
  bind-Typed r q (panic p) k h g = tt
  bind-Typed r q block k h g = tt
  bind-Typed r q (require t f) k h g = λ v e. bind-Typed r q (f v) k (h v e) g
  bind-Typed r q (Prog.get_value t f) k h g = (
    (λ v e. bind-Typed r q (f (value v)) k (h.0 v e) g),
    (λ e. bind-Typed r q (f (failure e)) k (h.1 e) g),
  )
  bind-Typed r q (Prog.store_value t v p) k h g = (h.0, bind-Typed r q p k h.1 g)
  bind-Typed r q (Prog.invalidate ts p) k h g = bind-Typed r q p k h g
  bind-Typed r q (attempt p f) k h g =
      let (x, first, rest) = h in
      (
        x,
        first,
        (
          (λ v e. bind-Typed r q (f (returned v)) k (rest.0 v e) g),
          (λ y. bind-Typed r q (f (Outcome.panicked y)) k (rest.1 y) g),
        ),
      )
  bind-Typed r q (items f) k h g = λ is w. bind-Typed r q (f is) k (h is w) g
  bind-Typed r q (in_fork vs p f) k h g =
      let (given, first) = h in
      let (x, inner, rest) = first in
      (given, (x, inner, λ v e. bind-Typed r q (f v) k (rest v e) g))
  bind-Typed r q (new_public u f) k h g = λ a. bind-Typed r q (f a) k (h a) g
  bind-Typed r q (load_public a f) k h g = λ u. bind-Typed r q (f u) k (h u) g
  bind-Typed r q (save_public a u p) k h g = bind-Typed r q p k h g
  bind-Typed r q (call_method m f) k h g = λ v. bind-Typed r q (f v) k (h v) g

  -- A client whose methods answer with an account and an error, as Go's types say.
  pub record AnswersTyped (client : AuthClient) : Type 0 where
    pub authenticated : Typed user is_account client.is_authenticated
    pub authorized : Typed user is_account client.is_authorized

  check_authorized-Typed : (v : Value) → Typed user (is_of user type_private) (check_authorized v)
  unfolding is_of
  check_authorized-Typed (account resp (some (rpc e))) = tt
  check_authorized-Typed (account resp (some (plain s))) = tt
  check_authorized-Typed (account none none) = tt
  check_authorized-Typed (account (some uuid) none) = refl
  check_authorized-Typed _ = tt

  if-Typed :
      (b : Bool) (q : Value → Bool) (x y : Prog)
      → Typed user q x
      → Typed user q y
      → Typed user q (if b then x else y)
  if-Typed true q x y g h = g
  if-Typed false q x y g h = h

  check_method-Typed :
      (m : Text) (t : GoType) (v w : Value)
      → is_of user t v ≡ true
      → Typed user (is_of user t) (check_method m v w)
  check_method-Typed m t v (http_request r) h = if-Typed (text_eq r.method m) _ _ _ h tt
  check_method-Typed m t v _ h = tt

  check_source-Typed :
      (m : Text) (t : GoType) (v w : Value)
      → is_of user t v ≡ true
      → Typed user (is_of user t) (check_source m v w)
  check_source-Typed m t v (rpc_meta r) h =
      if-Typed (is_http r.source) _ _ _ (λ w e. check_method-Typed m t v w h) h
  check_source-Typed m t v _ h = tt

  with_public-Typed :
      (a : ℕ) (q : Value → Bool) (k : Public → Prog)
      → ((u : Public) → Typed user q (k u))
      → Typed user q (with_public a k)
  with_public-Typed a q k h = λ o. given-Typed o
    where
      given-Typed : (o : Option Public) → Typed user q (given_public k o)
      given-Typed none = tt
      given-Typed (some u) = h u

  keep-Typed : (a : ℕ) (v : Value) → Typed user is_account (keep a v)
  keep-Typed a (account resp err) = with_public-Typed a is_account _ (λ u. refl)
  keep-Typed a _ = tt

  find_account-Typed :
      (client : AuthClient) (a : ℕ) (r : Fallible Value)
      → AnswersTyped client
      → Typed user is_account (find_account client a r)
  unfolding ◌>>=◌
  find_account-Typed client a (value (private uuid)) h = keep-Typed a (account (some uuid) none)
  find_account-Typed client a (value _) h = tt
  find_account-Typed client a (failure e) h =
      bind-Typed is_account is_account client.is_authenticated (keep a) h.authenticated
        (λ v e. keep-Typed a v)

  cached_answer-is_account : (u : Public) → is_account (cached_answer u) ≡ true
  cached_answer-is_account u = elim (Option-cases u.account_uuid) [
    | inl e ↦ rw e refl
    | inr (uuid, e) ↦ rw e refl
  ]

  checked_account-Typed :
      (client : AuthClient) (a : ℕ) (u : Public)
      → AnswersTyped client
      → Typed user is_account (checked_account client a u)
  checked_account-Typed client a u h = if-Typed u.locked _ _ _ tt (
      if-Typed u.checked _ _ _ (cached_answer-is_account u) (
        is_account,
        (
          (λ v e. find_account-Typed client a (value v) h),
          (λ e. find_account-Typed client a (failure e) h),
        ),
        (
          (λ v e. with_public-Typed a is_account _ (λ w. e)),
          (λ x. with_public-Typed a is_account _ (λ w. tt)),
        ),
      ))

  pub account_uuid-Typed :
      (client : AuthClient) (a : ℕ)
      → AnswersTyped client
      → Typed user is_account (account_uuid client a)
  unfolding account_uuid
  account_uuid-Typed client a h =
      with_public-Typed a is_account _ (λ u. checked_account-Typed client a u h)

  -- The providers of the library, and those of the application behind them.
  pub library_providers-Typed :
      (client : AuthClient) (ps : Providers)
      → AnswersTyped client
      → TypedProviders user ps
      → TypedProviders user (library_providers client ps)
  unfolding new_private Auth.new_public new_impersonator new_http_post new_http_get is_of
  library_providers-Typed client ps c h = (
    bind-Typed is_account (is_of user type_private) client.is_authorized check_authorized
        c.authorized (λ v e. check_authorized-Typed v),
    (
      (λ a. refl),
      (
        refl,
        (
          (λ v e. check_source-Typed (codes "POST") type_http_post http_post v refl),
          ((λ v e. check_source-Typed (codes "GET") type_http_get http_get v refl), h),
        ),
      ),
    ),
  )
