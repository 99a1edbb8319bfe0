-- ===== src/Jonsontest/Grants.antt =====
-- Which calls an account of a test may make (`Authorized` and `IsAuthorized` of jonsontest/auth.go).
use jonson.Prelude.{
  true, false, ◌&&◌, arith, none, some, List, [], ◌∷◌, ◌++◌, ◌≡◌, refl, sym, ap, ◌∙◌, append_assoc,
  append-nil, Bool-cases, inl, inr, if◌then◌else◌,
}
use mathlib.Core.Path.{subst}
use jonson.Text.{Text, text_eq}
use jonson.Text.Laws.{text_eq_iff}
use jonson.Types.{GoType, type_test_account, type_impersonated, type_rpc_meta}
use jonson.Errors.{GoError}
use jonson.Value.{test_account, account, rpc_meta, RpcMeta}
use jonson.Validate.{ok}
use jonson.Context.{get_value, value, failure}
use jonson.Context.Prog.{MethodCall, returned, done, require, ◌>>=◌}
use jonson.Context.Run.{State, Exec, after, run}
use jonson.Jonsontest.{
  RpcMethod, AuthClientMock, has_key, methods_of, add_method, add_methods, authenticate, authorize,
  check_impersonation, authorized_as, check_chain, grant, granted_by, nobody, is_granted,
  is_authorized,
}
use jonson.Jonsontest.Mock.{refused_guard}

methods_of-add_method_same :
    (u : Text) (v : RpcMethod) (entries : List (Text × List RpcMethod))
    → methods_of (add_method u entries v) u ≡ methods_of entries u ++ v ∷ []
unfolding methods_of add_method
methods_of-add_method_same u v [] = rw ((text_eq_iff u u).1 refl)
methods_of-add_method_same u v ((k, vs) ∷ entries) = elim (Bool-cases (text_eq k u)) [
  | inl x ↦ rw (x, x)
  | inr x ↦ rw (x, methods_of-add_method_same u v entries, x)
]

methods_of-add_methods_same :
    (u : Text) (vs : List RpcMethod) (entries : List (Text × List RpcMethod))
    → methods_of (add_methods u entries vs) u ≡ methods_of entries u ++ vs
unfolding add_methods
methods_of-add_methods_same u [] entries = sym (append-nil (methods_of entries u))
methods_of-add_methods_same u (v ∷ vs) entries =
    methods_of-add_methods_same u vs (add_method u entries v)
    ∙ ap (λ l. l ++ vs) (methods_of-add_method_same u v entries)
    ∙ append_assoc (methods_of entries u) (v ∷ []) vs

-- The call `meta` is to one of the methods, with the same HTTP method.
pub data Allows (meta : RpcMeta) : List RpcMethod → Type 0 where
  here :
      (v : RpcMethod) (vs : List RpcMethod)
      → v.method ≡ meta.method
      → v.http_method ≡ meta.http_method
      → Allows meta (v ∷ vs)
  later : (v : RpcMethod) (vs : List RpcMethod) → Allows meta vs → Allows meta (v ∷ vs)

is_granted-of_Allows :
    (meta : RpcMeta) (vs : List RpcMethod) → Allows meta vs → is_granted meta vs ≡ true
is_granted-of_Allows meta (_) (here v vs e f) =
    let x = (text_eq_iff v.method meta.method).1 e in
    let y = (text_eq_iff v.http_method meta.http_method).1 f in ground (arith, x, y)
is_granted-of_Allows meta (_) (later v vs h) =
    let rest = is_granted-of_Allows meta vs h in ground (arith, rest)

Allows-of_granted :
    (meta : RpcMeta) (vs : List RpcMethod) → is_granted meta vs ≡ true → Allows meta vs
Allows-of_granted meta [] h = absurd (cc h)
Allows-of_granted meta (v ∷ vs) h =
    elim (Bool-cases (text_eq v.method meta.method && text_eq v.http_method meta.http_method)) [
      | inl e ↦
          here v vs ((text_eq_iff v.method meta.method).0 (ground (arith, e)))
            ((text_eq_iff v.http_method meta.http_method).0 (ground (arith, e)))
      | inr e ↦ later v vs (Allows-of_granted meta vs (ground (arith, e, h)))
    ]

-- The answer for an account that is allowed the methods `vs`.
pub data Decides (meta : RpcMeta) (vs : List RpcMethod) (u : Text) (s : State) : Exec → Type 0 where
  granted : Allows meta vs → Decides meta vs u s (returned (account (some u) none), s)
  refused : ¬ (Allows meta vs) → Decides meta vs u s (returned (account none none), s)

module _ (req : GoType → State → Exec) (call : MethodCall → State → Exec) where
  -- The answer for an account without full access that impersonates nobody.
  is_authorized-run :
      (t : AuthClientMock) (u : Text) (meta : RpcMeta) (e : GoError) (s s' : State)
      → has_key t.full_access u ≡ false
      → get_value type_test_account s.ctx ≡ value (test_account u)
      → get_value type_impersonated s.ctx ≡ failure e
      → req type_rpc_meta s ≡ (returned (rpc_meta meta), s')
      → run req call (is_authorized t) s
        ≡ run req call
            (if is_granted meta (methods_of t.method_access u)
              then done (account (some u) none)
              else done nobody)
            s'
  unfolding is_authorized check_impersonation run ◌>>=◌
  is_authorized-run t u meta e s s' f h i m =
      ap (λ v. run req call (authorized_as t v) s) h
      ∙ ap (λ v. run req call (check_chain t u v >>= grant t) s) i
      ∙ ap
          (λ b.
            run req call
              (if b then done (account (some u) none) else require type_rpc_meta (granted_by t u))
              s)
          f
      ∙ ap (λ x. after x (λ v r. run req call (granted_by t u v) r)) m

  authorize-grants :
      (t t' : AuthClientMock) (u : Text) (v : RpcMethod) (vs : List RpcMethod) (meta : RpcMeta)
      (e : GoError) (s s' : State)
      → authorize u (v ∷ vs) t ≡ ok t'
      → get_value type_test_account s.ctx ≡ value (test_account u)
      → get_value type_impersonated s.ctx ≡ failure e
      → req type_rpc_meta s ≡ (returned (rpc_meta meta), s')
      → run req call (is_authorized t') s
        ≡ run req call
            (if is_granted meta (methods_of t.method_access u ++ v ∷ vs)
              then done (account (some u) none)
              else done nobody)
            s'
  unfolding authorize authenticate
  authorize-grants t t' u v vs meta e s s' a h i m =
      let (not_full, same) =
        refused_guard (has_key t.full_access u)
          (record t {
            authenticated = u ∷ t.authenticated;
            method_access = add_methods u t.method_access (v ∷ vs);
          })
          t' a in
      is_authorized-run t' u meta e s s'
        (ap (λ (x : AuthClientMock). has_key x.full_access u) (sym same) ∙ not_full) h i m
      ∙ ap
          (λ l.
            run req call (if is_granted meta l then done (account (some u) none) else done nobody)
              s')
          (ap (λ (x : AuthClientMock). methods_of x.method_access u) (sym same)
            ∙ methods_of-add_methods_same u (v ∷ vs) t.method_access)

  granted_run :
      (meta : RpcMeta) (vs : List RpcMethod) (u : Text) (s : State)
      → Decides meta vs u s (
          run req call (if is_granted meta vs then done (account (some u) none) else done nobody) s)
  unfolding run
  granted_run meta vs u s = elim (Bool-cases (is_granted meta vs)) [
    | inl e ↦ rw e (granted (Allows-of_granted meta vs e))
    | inr e ↦ rw e (refused (λ h. cc (is_granted-of_Allows meta vs h, e)))
  ]

  -- After a test has authorized an account for some methods, the mock answers a call of that account
  -- with it exactly if both the name and the HTTP method of the call are those of one of these
  -- methods or of one allowed before, and with nobody otherwise; the account impersonates nobody.
  pub authorize-Decides :
      (t t' : AuthClientMock) (u : Text) (v : RpcMethod) (vs : List RpcMethod) (meta : RpcMeta)
      (e : GoError) (s s' : State)
      → authorize u (v ∷ vs) t ≡ ok t'
      → get_value type_test_account s.ctx ≡ value (test_account u)
      → get_value type_impersonated s.ctx ≡ failure e
      → req type_rpc_meta s ≡ (returned (rpc_meta meta), s')
      → Decides meta
          (methods_of t.method_access u ++ v ∷ vs)
          u
          s'
          (run req call (is_authorized t') s)
  authorize-Decides t t' u v vs meta e s s' a h i m =
      subst (Decides meta (methods_of t.method_access u ++ v ∷ vs) u s')
        (sym (authorize-grants t t' u v vs meta e s s' a h i m))
        (granted_run meta (methods_of t.method_access u ++ v ∷ vs) u s')
