-- ===== src/Value.antt =====
-- The values that a context holds and that calls return: Go's `any`, with one constructor for each
-- type of the library that is stored, and `custom` for the types of its users.
use jonson.Prelude.{ℕ, Bool, true, false, Option, List}
use jonson.Text.{Text, codes}
use jonson.Errors.{GoError}

-- `RpcHttpMethod` is a string type.
abbrev pub RpcHttpMethod : Type 0
RpcHttpMethod = Text

abbrev pub rpc_http_method_get : RpcHttpMethod
rpc_http_method_get = codes "GET"

abbrev pub rpc_http_method_post : RpcHttpMethod
rpc_http_method_post = codes "POST"

abbrev pub rpc_http_method_unknown : RpcHttpMethod
rpc_http_method_unknown = codes "UNKNOWN"

pub data RpcSource : Type 0 where
  http http_rpc ws internal : RpcSource

pub record RpcMeta : Type 0 where
  pub method : Text
  pub http_method : RpcHttpMethod
  pub source : RpcSource

-- The parts of `*http.Request` that the program reads.
pub record Request : Type 0 where
  pub method : Text
  pub path : Text
  pub body : Option Text

-- A value of a user's type: its identity, the marker interfaces that it embeds, and its `Finalize`.
pub record Custom : Type 0 where
  pub ident : ℕ
  pub shareable : Bool
  pub across_impersonation : Bool
  pub finalizer : Option (List GoError → Option GoError)

-- The value of an attribute that the library adds to a logger (log.go): the structs `log` of
-- `WithCallerFunction` and of `WithCallerRpcMeta`, and what others add.
pub data LogValue : Type 0 where
  caller_function : (name struct : Text) → LogValue
  caller_rpc_meta : (source method http_method : Text) → LogValue
  other_value : Text → LogValue

pub data Value : Type 0 where
  nil_value : Value
  -- the `*Context` that holds it
  this_context : Value
  http_request : Request → Value
  http_response_writer : Value
  ws_client : Value
  secret : Value
  rpc_meta : RpcMeta → Value
  private : Text → Value
  -- the address of a `Public`
  public : ℕ → Value
  -- the impersonator of the context that holds it
  impersonator : Value
  impersonated : (account_uuid : Text) (account_uuids : List Text) → Value
  http_post http_get : Value
  test_account : Text → Value
  -- a `*slog.Logger`: its handler, none for one that discards, and the attributes that were added
  logger : (handler : Option ℕ) (attributes : List (Text × LogValue)) → Value
  -- a pointer to `LoggerOptions`
  logger_options : ℕ → Value
  -- a `Graceful`, whose channel is its provider's
  graceful : Value
  custom : Custom → Value
  -- a pointer to a struct of strings: its fields by their names in JSON
  fields : List (Text × Text) → Value
  -- a pointer to a params struct: the JSON that it was read from, and its field `Bindata`
  params : Text → Option Text → Value
  -- the results `(*string, error)` and `(any, error)` of a call
  account : Option Text → Option GoError → Value
  reply : Value → Option GoError → Value

-- The values whose type embeds `Shareable` (shareable.go).
unfoldable pub is_shareable : Value → Bool
is_shareable (http_request r) = true
is_shareable http_response_writer = true
is_shareable ws_client = true
is_shareable secret = true
is_shareable (public a) = true
is_shareable (impersonated u us) = true
is_shareable (test_account u) = true
is_shareable graceful = true
is_shareable (custom c) = c.shareable
is_shareable _ = false

-- The values whose type embeds `ShareableAcrossImpersonation`.
unfoldable pub is_shareable_across_impersonation : Value → Bool
is_shareable_across_impersonation (http_request r) = true
is_shareable_across_impersonation http_response_writer = true
is_shareable_across_impersonation ws_client = true
is_shareable_across_impersonation secret = true
is_shareable_across_impersonation (test_account u) = true
is_shareable_across_impersonation graceful = true
is_shareable_across_impersonation (custom c) = c.across_impersonation
is_shareable_across_impersonation _ = false
