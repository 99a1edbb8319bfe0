-- ===== src/Auth/Scope.antt =====
-- What `Impersonator.Impersonate` runs, and under which context (impersonate.go).
use jonson.Prelude.{some, Option, none, List, [], ◌∷◌, ◌++◌, ◌≡◌}
use jonson.Text.{Text}
use jonson.Types.{GoType, type_context, type_impersonated}
use jonson.Value.{Value, this_context, impersonated, is_shareable_across_impersonation}
use jonson.Context.{Context, find_valid}
use jonson.Context.Crossing.{Crosses}
use jonson.Context.Prog.{MethodCall, Prog}
use jonson.Context.Run.{State, Exec, run, set_ctx, leave}
use jonson.Context.Run.Unique.{Unique}
use jonson.Method.Call.Isolation.{contents}
use jonson.Auth.{AuthClient, traced, scoped, impersonate}

-- The accounts of a valid impersonation, and none without one.
abbrev or_traced : Option (List Text) → Option Value → Option (List Text)
or_traced o none = o
or_traced o (some v) = traced v

-- The accounts of the valid impersonation that a search has found, if it has found one.
abbrev pub accounts_of : Option Value → List Text
accounts_of found = elim (or_traced none found) [ none ↦ [] | some uuids ↦ uuids ]

module _ (req : GoType → State → Exec) (call : MethodCall → State → Exec) where
  -- The run of `fn` for the account `uuid` under a context of its own.
  pub record RunsScoped (client : AuthClient) (uuid : Text) (fn : Prog) (s : State) : Type 0 where
    pub child : Context
    pub crossing : List (GoType × Value)
    pub crosses : Crosses is_shareable_across_impersonation s.ctx.values crossing
    pub holds :
        contents child.values
        ≡ (type_context, this_context)
          ∷ (crossing
              ++ (
                type_impersonated,
                impersonated uuid
                    (accounts_of (find_valid type_impersonated s.ctx.values) ++ uuid ∷ []),
              )
                ∷ [])
    pub runs :
        run req call (impersonate client uuid fn) s
        ≡ leave s.ctx (run req call (scoped client fn) (set_ctx s child))
