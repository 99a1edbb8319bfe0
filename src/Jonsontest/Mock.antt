-- ===== src/Jonsontest/Mock.antt =====
-- What holds of the accounts of tests, whatever was allowed them (jonsontest/auth.go).
use jonson.Prelude.{
  Bool, true, false, ◌||◌, List, [], ◌∷◌, ◌≡◌, refl, sym, ap, ◌∙◌, Bool-cases, inl, inr,
  if◌then◌else◌,
}
use mathlib.Core.Path.{subst}
use jonson.Text.{Text, text_eq}
use jonson.Text.Laws.{text_eq_iff}
use jonson.Validate.{ok, panicked}
use jonson.Validate.Binds.{ok-injective}
use jonson.Jonsontest.{
  RpcMethod, AuthClientMock, new_auth_client_mock, has_key, methods_of, add_method, add_methods,
  new_account, authenticate, allow, is_empty, mixed_access, authorize,
}

-- No account has both kinds of access, and whoever has access is logged in.
pub record IsConsistent (t : AuthClientMock) : Type 0 where
  pub apart : (u : Text) → has_key t.full_access u ≡ true → methods_of t.method_access u ≡ []
  pub full_known : (u : Text) → has_key t.full_access u ≡ true → has_key t.authenticated u ≡ true
  pub listed_known :
      (u : Text)
      → is_empty (methods_of t.method_access u) ≡ false
      → has_key t.authenticated u ≡ true

-- The mocks that a test can make.
pub data Made : AuthClientMock → Type 0 where
  fresh : Made new_auth_client_mock
  created : {t t' : AuthClientMock} (u : Text) → Made t → new_account u t ≡ ok t' → Made t'
  logged_in : {t : AuthClientMock} (u : Text) → Made t → Made (authenticate u t)
  allowed : {t : AuthClientMock} (u : Text) (vs : List Text) → Made t → Made (allow u vs t)
  authorized :
      {t t' : AuthClientMock} (u : Text) (vs : List RpcMethod)
      → Made t
      → authorize u vs t ≡ ok t'
      → Made t'

has_key-more : (u v : Text) (keys : List Text) → has_key keys u ≡ true → has_key (v ∷ keys) u ≡ true
unfolding has_key
has_key-more u v keys h = elim (Bool-cases (text_eq u v)) [
  | inl x ↦ rw x
  | inr x ↦ ap (λ b. b || has_key keys u) x ∙ h
]

has_key-first : (u : Text) (keys : List Text) → has_key (u ∷ keys) u ≡ true
unfolding has_key
has_key-first u keys = rw ((text_eq_iff u u).1 refl)

methods_of-add_method :
    (u w : Text) (v : RpcMethod) (entries : List (Text × List RpcMethod))
    → text_eq u w ≡ false
    → methods_of (add_method u entries v) w ≡ methods_of entries w
unfolding methods_of add_method
methods_of-add_method u w v [] ne = rw ne
methods_of-add_method u w v ((k, vs) ∷ entries) ne = elim (Bool-cases (text_eq k u)) [
  | inl x ↦
      let other : text_eq k w ≡ false = ap (λ a. text_eq a w) ((text_eq_iff k u).0 x) ∙ ne in
      rw (x, other)
  | inr x ↦ rw (x, methods_of-add_method u w v entries ne)
]

pub methods_of-add_methods :
    (u w : Text) (vs : List RpcMethod) (entries : List (Text × List RpcMethod))
    → text_eq u w ≡ false
    → methods_of (add_methods u entries vs) w ≡ methods_of entries w
unfolding add_methods
methods_of-add_methods u w [] entries ne = refl
methods_of-add_methods u w (v ∷ vs) entries ne =
    methods_of-add_methods u w vs (add_method u entries v) ne
    ∙ methods_of-add_method u w v entries ne

is_empty-eq {ℓ} : {A : Type ℓ} (l : List A) → is_empty l ≡ true → l ≡ []
is_empty-eq [] h = refl
is_empty-eq (x ∷ l) h = absurd (cc h)

authenticate-IsConsistent :
    (u : Text) (t : AuthClientMock) → IsConsistent t → IsConsistent (authenticate u t)
unfolding authenticate
authenticate-IsConsistent u t h = record {
  apart = h.apart;
  full_known = λ w f. has_key-more w u t.authenticated (h.full_known w f);
  listed_known = λ w l. has_key-more w u t.authenticated (h.listed_known w l);
}

allow-IsConsistent :
    (u : Text) (vs : List Text) (t : AuthClientMock) → IsConsistent t → IsConsistent (allow u vs t)
unfolding allow
allow-IsConsistent u [] t h = h
allow-IsConsistent u (v ∷ vs) t h =
    allow-IsConsistent u vs (record t { can_impersonate = (u, v) ∷ t.can_impersonate })
      (record { apart = h.apart; full_known = h.full_known; listed_known = h.listed_known })

-- Full access for an account without methods.
full-IsConsistent :
    (u : Text) (t : AuthClientMock)
    → IsConsistent t
    → has_key t.authenticated u ≡ true
    → methods_of t.method_access u ≡ []
    → IsConsistent (record t { full_access = u ∷ t.full_access })
unfolding has_key
full-IsConsistent u t h known none_listed = record {
  apart = λ w f. elim (Bool-cases (text_eq w u)) [
    | inl x ↦ ap (methods_of t.method_access) ((text_eq_iff w u).0 x) ∙ none_listed
    | inr x ↦ h.apart w (rw x at f)
  ];
  full_known = λ w f. elim (Bool-cases (text_eq w u)) [
    | inl x ↦ ap (has_key t.authenticated) ((text_eq_iff w u).0 x) ∙ known
    | inr x ↦ h.full_known w (rw x at f)
  ];
  listed_known = h.listed_known;
}

-- Methods for an account without full access.
listed-IsConsistent :
    (u : Text) (vs : List RpcMethod) (t : AuthClientMock)
    → IsConsistent t
    → has_key t.authenticated u ≡ true
    → has_key t.full_access u ≡ false
    → IsConsistent (record t { method_access = add_methods u t.method_access vs })
listed-IsConsistent u vs t h known not_full = record {
  apart = λ w f. elim (Bool-cases (text_eq u w)) [
    | inl x ↦ absurd (cc (not_full, ap (has_key t.full_access) ((text_eq_iff u w).0 x), f))
    | inr x ↦ methods_of-add_methods u w vs t.method_access x ∙ h.apart w f
  ];
  full_known = h.full_known;
  listed_known = λ w l. elim (Bool-cases (text_eq u w)) [
    | inl x ↦ ap (has_key t.authenticated) (sym ((text_eq_iff u w).0 x)) ∙ known
    | inr x ↦
        h.listed_known w (ap is_empty (sym (methods_of-add_methods u w vs t.method_access x)) ∙ l)
  ];
}

-- What a guard lets through.
pub passed_guard {ℓ} :
    {A : Type ℓ} (b : Bool) (a a' : A)
    → (if b then ok a else panicked mixed_access) ≡ ok a'
    → (b ≡ true) × (a ≡ a')
passed_guard true a a' h = (refl, ok-injective a a' h)
passed_guard false a a' h = absurd (cc h)

pub refused_guard {ℓ} :
    {A : Type ℓ} (b : Bool) (a a' : A)
    → (if b then panicked mixed_access else ok a) ≡ ok a'
    → (b ≡ false) × (a ≡ a')
refused_guard true a a' h = absurd (cc h)
refused_guard false a a' h = (refl, ok-injective a a' h)

authorize-IsConsistent :
    (u : Text) (vs : List RpcMethod) (t t' : AuthClientMock)
    → IsConsistent t
    → authorize u vs t ≡ ok t'
    → IsConsistent t'
unfolding authorize
authorize-IsConsistent u [] t t' h e =
    let s = authenticate u t in
    let (empty, same) =
      passed_guard (is_empty (methods_of s.method_access u))
        (record s { full_access = u ∷ s.full_access }) t' e in
    subst IsConsistent same (
      full-IsConsistent u s (authenticate-IsConsistent u t h) (has_key-first u t.authenticated)
        (is_empty-eq _ empty))
authorize-IsConsistent u (v ∷ vs) t t' h e =
    let s = authenticate u t in
    let (not_full, same) =
      refused_guard (has_key s.full_access u)
        (record s { method_access = add_methods u s.method_access (v ∷ vs) }) t' e in
    subst IsConsistent same (
      listed-IsConsistent u (v ∷ vs) s (authenticate-IsConsistent u t h)
        (has_key-first u t.authenticated) not_full)

new_account-IsConsistent :
    (u : Text) (t t' : AuthClientMock) → IsConsistent t → new_account u t ≡ ok t' → IsConsistent t'
unfolding new_account
new_account-IsConsistent u t t' h e = elim (Bool-cases (has_key t.accounts u)) [
  | inl x ↦ absurd (cc (rw (new_account, x) at e))
  | inr x ↦
      subst IsConsistent (ok-injective _ _ (rw (new_account, x) at e))
        (record { apart = h.apart; full_known = h.full_known; listed_known = h.listed_known })
]

-- However a test makes and authorizes its accounts, none has both full access and access to listed
-- methods, and each account with access counts as logged in.
pub Made-IsConsistent : {t : AuthClientMock} → Made t → IsConsistent t
unfolding new_auth_client_mock methods_of
Made-IsConsistent fresh = record {
  apart = λ u h. refl;
  full_known = λ u h. h;
  listed_known = λ u h. absurd (cc h);
}
Made-IsConsistent (created {t = t} {t'} u m e) =
    new_account-IsConsistent u t t' (Made-IsConsistent m) e
Made-IsConsistent (logged_in {t = t} u m) = authenticate-IsConsistent u t (Made-IsConsistent m)
Made-IsConsistent (allowed {t = t} u vs m) = allow-IsConsistent u vs t (Made-IsConsistent m)
Made-IsConsistent (authorized {t = t} {t'} u vs m e) =
    authorize-IsConsistent u vs t t' (Made-IsConsistent m) e
