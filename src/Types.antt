-- ===== src/Types.antt =====
-- `reflect.Type` as the context and the factory use it: an identity, a printed name, and a kind.
use jonson.Prelude.{ℕ, String, Bool, true, false, ◌==◌}

-- The kinds that the code tests: a pointer to a struct, another pointer, an interface, a function,
-- and all others.
pub data Kind : Type 0 where
  ptr_to_struct ptr interface func other : Kind

pub record GoType : Type 0 where
  pub id : ℕ
  pub name : String
  pub kind : Kind

-- Go's `==` on two types.
abbrev pub same : GoType → GoType → Bool
same a b = a.id == b.id

-- `!((Kind != Ptr || Elem.Kind != Struct) && Kind != Interface)`
abbrev pub is_ptr_or_interface : Kind → Bool
is_ptr_or_interface ptr_to_struct = true
is_ptr_or_interface interface = true
is_ptr_or_interface _ = false

-- The types that the program itself stores and provides.
abbrev pub type_context : GoType
type_context = record { id = 0; name = "*jonson.Context"; kind = ptr_to_struct }

abbrev pub type_http_request : GoType
type_http_request = record { id = 1; name = "*jonson.HttpRequest"; kind = ptr_to_struct }

abbrev pub type_http_response_writer : GoType
type_http_response_writer = record {
  id = 2;
  name = "*jonson.HttpResponseWriter";
  kind = ptr_to_struct;
}

abbrev pub type_ws_client : GoType
type_ws_client = record { id = 3; name = "*jonson.WSClient"; kind = ptr_to_struct }

abbrev pub type_secret : GoType
type_secret = record { id = 4; name = "jonson.Secret"; kind = interface }

abbrev pub type_rpc_meta : GoType
type_rpc_meta = record { id = 5; name = "*jonson.RpcMeta"; kind = ptr_to_struct }

abbrev pub type_private : GoType
type_private = record { id = 6; name = "*jonson.Private"; kind = ptr_to_struct }

abbrev pub type_public : GoType
type_public = record { id = 7; name = "*jonson.Public"; kind = ptr_to_struct }

abbrev pub type_impersonator : GoType
type_impersonator = record { id = 8; name = "*jonson.Impersonator"; kind = ptr_to_struct }

abbrev pub type_impersonated : GoType
type_impersonated = record { id = 9; name = "*jonson.Impersonated"; kind = ptr_to_struct }

abbrev pub type_http_post : GoType
type_http_post = record { id = 10; name = "jonson.HttpPost"; kind = interface }

abbrev pub type_http_get : GoType
type_http_get = record { id = 11; name = "jonson.HttpGet"; kind = interface }

abbrev pub type_test_account : GoType
type_test_account = record { id = 12; name = "*jonsontest.Account"; kind = ptr_to_struct }

abbrev pub type_logger : GoType
type_logger = record { id = 13; name = "*slog.Logger"; kind = ptr_to_struct }

abbrev pub type_logger_options : GoType
type_logger_options = record { id = 14; name = "*jonson.LoggerOptions"; kind = ptr_to_struct }

abbrev pub type_graceful : GoType
type_graceful = record { id = 17; name = "jonson.Graceful"; kind = interface }

abbrev pub type_graceful_provider : GoType
type_graceful_provider = record { id = 18; name = "*jonson.GracefulProvider"; kind = ptr_to_struct }

-- The types of the two providers that a new factory registers.
abbrev pub type_http_method_provider : GoType
type_http_method_provider = record {
  id = 15;
  name = "*jonson.httpMethodProvider";
  kind = ptr_to_struct;
}

abbrev pub type_logger_provider : GoType
type_logger_provider = record { id = 16; name = "*jonson.loggerProvider"; kind = ptr_to_struct }
