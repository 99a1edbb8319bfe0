-- ===== src/Context/Typed/Impersonation.antt =====
-- An impersonation (impersonate.go) is typed.
use jonson.Prelude.{
  ℕ, Bool, true, Option, none, some, List, [], ◌∷◌, ◌≡◌, refl, All, All-append, Bool-cases, inl,
  inr,
}
use jonson.Text.{Text}
use jonson.Types.{type_impersonated}
use jonson.Value.{Value, public, account, is_shareable_across_impersonation}
use jonson.Context.{ValueItem}
use jonson.Context.Prog.{Prog, ◌>>=◌}
use jonson.Context.Typed.{is_of, IsTypedItem, AllOf, Typed}
use jonson.Auth.{
  AuthClient, account_uuid, taken_over, existing, new_impersonated, check_account, with_account,
  scoped, impersonate,
}
use jonson.Context.Typed.Parts.{bind-Typed, AnswersTyped, is_account, is_reply, account_uuid-Typed}

module _ (user : ℕ → Value → Bool) where
  pub taken_over-AllOf :
      (is : List ValueItem) → All (IsTypedItem user) is → AllOf user (taken_over is)
  unfolding taken_over
  taken_over-AllOf [] h = tt
  taken_over-AllOf (i ∷ is) h = elim (Bool-cases i.valid) [
    | inl valid ↦ elim (Bool-cases (is_shareable_across_impersonation i.val)) [
      | inl e ↦ rw (valid, e) (h.0 valid, taken_over-AllOf is h.1)
      | inr e ↦ rw (valid, e) (taken_over-AllOf is h.1)
    ]
    | inr stale ↦ rw stale (taken_over-AllOf is h.1)
  ]

  new_impersonated-is_of :
      (o : Option (List Text)) (uuid : Text)
      → is_of user type_impersonated (new_impersonated o uuid) ≡ true
  unfolding is_of new_impersonated
  new_impersonated-is_of none uuid = refl
  new_impersonated-is_of (some uuids) uuid = refl

  check_account-Typed :
      (fn : Prog) (v : Value) → Typed user is_reply fn → Typed user is_reply (check_account fn v)
  check_account-Typed fn (account resp (some e)) h = refl
  check_account-Typed fn (account none none) h = refl
  check_account-Typed fn (account (some uuid) none) h = h
  check_account-Typed fn _ h = tt

  with_account-Typed :
      (client : AuthClient) (fn : Prog) (v : Value)
      → AnswersTyped user client
      → Typed user is_reply fn
      → Typed user is_reply (with_account client fn v)
  unfolding ◌>>=◌
  with_account-Typed client fn (public a) c h =
      bind-Typed user is_account is_reply (account_uuid client a) (check_account fn)
        (account_uuid-Typed user client a c) (λ v e. check_account-Typed fn v h)
  with_account-Typed client fn _ c h = tt

  pub impersonate-Typed :
      (client : AuthClient) (uuid : Text) (fn : Prog)
      → AnswersTyped user client
      → Typed user is_reply fn
      → Typed user is_reply (impersonate client uuid fn)
  unfolding impersonate scoped
  impersonate-Typed client uuid fn c h = λ is w. (
    All-append _ (taken_over is) (_ ∷ []) (taken_over-AllOf is w)
        (new_impersonated-is_of (existing is none) uuid, tt),
    (is_reply, (λ v e. with_account-Typed client fn v c h), λ v e. e),
  )
