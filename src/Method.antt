-- ===== src/Method.antt =====
-- method.handler.go: the registry of procedures. `Register` adds one, `Call` runs one, `Messages`
-- answers the messages of a transport.
pub mod Register
pub mod Call
pub mod Messages
mod Tests
use jonson.Prelude.{ℕ, String, Bool, true, false, Option, none, some, List, [], ◌∷◌, if◌then◌else◌}
use jonson.Text.{Text, text_eq}
use jonson.Types.{GoType, Kind}
use jonson.Value.{Value}
use jonson.Rpc.{ParamsType}
use jonson.Context.Prog.{Prog}

-- `MissingValidationLevel` is a string type; any other text is `other`.
pub data MissingValidationLevel : Type 0 where
  ignore info warn error fatal : MissingValidationLevel
  other : Text → MissingValidationLevel

-- An argument of a handler function: its type, and the params struct if the type embeds `Params`.
pub record Argument : Type 0 where
  pub rt : GoType
  pub params : Option ParamsType

-- A result of a handler function, as `Kind`, `Name` and `PkgPath` show it.
pub record ResultType : Type 0 where
  pub kind : Kind
  pub name : Text
  pub pkg_path : Text

-- `HandlerFunc`: what reflection shows of it, and its code over the arguments behind a receiver.
pub record HandlerFunc : Type 0 where
  pub is_func : Bool
  pub ins : List Argument
  pub outs : List ResultType
  pub code : List Value → Prog

-- The field `methodContext`: the zero `reflect.Value`, a nil pointer, or the system of the method.
pub data MethodContext : Type 0 where
  zero_value nil_pointer bound : MethodContext

pub record MethodDefinition : Type 0 where
  pub system : Text
  pub method : Text
  pub version : ℕ
  pub handler_func : HandlerFunc
  pub method_context : MethodContext

-- `apiEndpoint`. The arguments behind the receiver; each is the params or the type to require.
pub record ApiEndpoint : Type 0 where
  pub def : MethodDefinition
  pub args : List Argument
  -- the position of the params in `args`
  pub params_pos : Option ℕ

-- `MethodHandler`. `logged` holds what registration has logged: the level and the endpoint.
pub record MethodHandler : Type 0 where
  pub systems : List GoType
  pub endpoints : List (Text × ApiEndpoint)
  pub level : MissingValidationLevel
  pub logged : List (MissingValidationLevel × Text)

-- `m.endpoints[name]`
unfoldable pub endpoint_of : Text → List (Text × ApiEndpoint) → Option ApiEndpoint
unfolding text_eq
endpoint_of name [] = none
endpoint_of name ((n, e) ∷ es) = if text_eq n name then some e else endpoint_of name es

-- `NewMethodHandler`: a level that is none of the five becomes `info`; nil options have the level "".
abbrev valid_level : MissingValidationLevel → MissingValidationLevel
valid_level (other s) = info
valid_level l = l

unfoldable pub new_method_handler : MissingValidationLevel → MethodHandler
new_method_handler l = record { systems = []; endpoints = []; level = valid_level l; logged = [] }
