-- ===== src/Context/Typed.antt =====
-- The types of the values in a context. Go checks them where a value is asserted to be of a type,
-- and nowhere before: `StoreValue` takes any value under any type.
pub mod Items
pub mod Ends
pub mod Soundness
pub mod Parts
pub mod Impersonation
pub mod Calls
pub mod Accessors
mod Tests
use jonson.Prelude.{
  ℕ, ◌≤◌, Bool, true, false, ◌&&◌, ◌||◌, Option, none, some, List, [], ◌∷◌, ◌≡◌, ◌==◌, leb, All,
}
use jonson.Types.{
  GoType, type_context, type_http_request, type_http_response_writer, type_ws_client, type_secret,
  type_rpc_meta, type_private, type_public, type_impersonator, type_impersonated, type_http_post,
  type_http_get, type_test_account, type_logger, type_logger_options, type_graceful,
}
use jonson.Value.{
  Value, nil_value, this_context, http_request, http_response_writer, ws_client, secret, rpc_meta,
  private, public, impersonator, impersonated, http_post, http_get, test_account, logger,
  logger_options, graceful,
}
use jonson.Errors.{GoError, PanicValue}
use jonson.Context.{ValueItem, Context, value, failure}
use jonson.Context.Prog
use jonson.Context.Prog.{
  Public, Outcome, returned, blocked, out_of_fuel, Prog, done, panic, block, require, attempt,
  items, in_fork, new_public, load_public, save_public, call_method,
}
use jonson.Context.Run.{Providers}
use jonson.Context.Run.Unique.{IsWellFormed}

-- The type of a value that is the library's own.
unfoldable pub dynamic_type : Value → Option GoType
dynamic_type this_context = some type_context
dynamic_type (http_request r) = some type_http_request
dynamic_type http_response_writer = some type_http_response_writer
dynamic_type ws_client = some type_ws_client
dynamic_type secret = some type_secret
dynamic_type (rpc_meta m) = some type_rpc_meta
dynamic_type (private u) = some type_private
dynamic_type (public a) = some type_public
dynamic_type impersonator = some type_impersonator
dynamic_type (impersonated u us) = some type_impersonated
dynamic_type http_post = some type_http_post
dynamic_type http_get = some type_http_get
dynamic_type (test_account u) = some type_test_account
dynamic_type (logger h l) = some type_logger
dynamic_type (logger_options o) = some type_logger_options
dynamic_type graceful = some type_graceful
dynamic_type _ = none

-- The library's types are numbered first.
abbrev pub is_user_type : GoType → Bool
is_user_type t = leb 20 t.id

module _ (user : ℕ → Value → Bool) where
  abbrev pub is_of_dynamic : Option GoType → GoType → Value → Bool
  is_of_dynamic none t v = is_user_type t && user t.id v
  is_of_dynamic (some u) t v = u.id == t.id

  -- Whether a value is of a type. Which values the types of the library's users have, `user` tells;
  -- none of the library's own types has a value of theirs.
  unfoldable pub is_of : GoType → Value → Bool
  unfolding dynamic_type
  is_of t v = is_of_dynamic (dynamic_type v) t v

  -- A valid item holds a value of the type under which it is stored.
  abbrev pub IsTypedItem : ValueItem → Type 0
  IsTypedItem i = i.valid ≡ true → is_of i.rt i.val ≡ true

  pub record IsTyped (c : Context) : Type 0 where
    pub well_formed : IsWellFormed c
    pub items : All IsTypedItem c.values

  abbrev pub AllOf : List (GoType × Value) → Type 0
  AllOf vs = All (λ e. is_of e.0 e.1 ≡ true) vs

  -- What a program makes of the ways in which its first part can end, where that part returns values
  -- that pass `r`.
  abbrev pub Handles : (Value → Bool) → (Outcome → Type 0) → Type 0
  Handles r h =
      ((v : Value) → r v ≡ true → h (returned v)) × ((p : PanicValue) → h (Outcome.panicked p))

  -- A program that stores values of the type under which it stores them, and that returns values
  -- that pass `q`, provided that the values that it is given are of the types that it asks for.
  abbrev pub Typed : (Value → Bool) → Prog → Type 0
  Typed q (done v) = q v ≡ true
  Typed q (panic p) = Unit
  Typed q block = Unit
  Typed q (require t k) = (v : Value) → is_of t v ≡ true → Typed q (k v)
  Typed q (Prog.get_value t k) =
      ((v : Value) → is_of t v ≡ true → Typed q (k (value v)))
      × ((e : GoError) → Typed q (k (failure e)))
  Typed q (Prog.store_value t v p) = (is_of t v ≡ true) × Typed q p
  Typed q (Prog.invalidate ts p) = Typed q p
  Typed q (attempt p h) = (r : Value → Bool) × Typed r p × Handles r (λ o. Typed q (h o))
  Typed q (items k) = (is : List ValueItem) → All IsTypedItem is → Typed q (k is)
  Typed q (in_fork vs p k) =
      AllOf vs × ((r : Value → Bool) × Typed r p × ((v : Value) → r v ≡ true → Typed q (k v)))
  Typed q (new_public u k) = (a : ℕ) → Typed q (k a)
  Typed q (load_public a k) = (u : Option Public) → Typed q (k u)
  Typed q (save_public a u p) = Typed q p
  Typed q (call_method m k) = (v : Value) → Typed q (k v)

  -- A provider returns values of the type that it provides.
  abbrev pub TypedProviders : Providers → Type 0
  TypedProviders ps = All (λ e. Typed (is_of e.0) e.1) ps
