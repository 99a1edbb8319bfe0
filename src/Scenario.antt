-- ===== src/Scenario.antt =====
-- A small application on top of the library: its types, providers, procedures and requests. The
-- tests of the other modules run on it.
use jonson.Prelude.{true, false, Option, none, some, List, [], ◌∷◌, length, if◌then◌else◌}
use jonson.Text.{Text, codes, text_eq}
use jonson.Types.{GoType, ptr_to_struct, Kind, type_private}
use jonson.Value.{
  Value, Request, nil_value, custom, private, reply, account, http_rpc, rpc_http_method_post,
}
use jonson.Errors.{GoError, plain}
use jonson.Rpc.{RpcRequest}
use jonson.Context
use jonson.Context.{ValueItem, Context, new_context, push}
use jonson.Context.Prog.{MethodCall, returned, done, require}
use jonson.Context.Run.{State, Exec, Providers}
use jonson.Method.{
  MethodDefinition, HandlerFunc, ApiEndpoint, bound, MethodHandler, info, ResultType,
}
use jonson.Method.Messages.{Json, Transport, Runtime}
use jonson.Auth.{AuthClient, new_private, fresh_public}

abbrev pub type_session : GoType
type_session = record { id = 20; name = "*app.Session"; kind = ptr_to_struct }

abbrev pub type_database : GoType
type_database = record { id = 21; name = "*app.Database"; kind = ptr_to_struct }

abbrev pub complains : List GoError → Option GoError
complains errors = some (plain "connection lost")

abbrev pub database : Value
database = custom (record {
  ident = 1;
  shareable = true;
  across_impersonation = true;
  finalizer = some complains;
})

abbrev pub session : Value
session =
    custom (record { ident = 2; shareable = true; across_impersonation = false; finalizer = none })

-- A session needs a database.
abbrev pub providers : Providers
providers =
    (type_database, done database) ∷ (type_session, require type_database (λ v. done session)) ∷ []

-- Two providers that need each other.
abbrev pub cyclic : Providers
cyclic =
    (type_database, require type_session done) ∷ (type_session, require type_database done) ∷ []

abbrev pub no_call : MethodCall → State → Exec
no_call m s = (returned (reply nil_value none), s)

abbrev pub clear : Text → Text
clear s = s

-- A context that holds itself, a `Private` and a session.
abbrev pub private_item : ValueItem
private_item = record { addr = 1; rt = type_private; val = private (codes "alice"); valid = true }

abbrev pub session_item : ValueItem
session_item = record { addr = 2; rt = type_session; val = session; valid = true }

abbrev pub database_item : ValueItem
database_item = record { addr = 3; rt = type_database; val = database; valid = true }

unfoldable pub caller : Context
unfolding new_context
caller = push database_item (push session_item (push private_item new_context))

abbrev pub start : State
start = record { ctx = new_context; publics = []; finalizations = [] }

abbrev pub in_caller : State
in_caller = record { ctx = caller; publics = []; finalizations = [] }

abbrev pub ping_name : Text
ping_name = codes "app/ping.v1"

abbrev pub error_result : ResultType
error_result = record { kind = Kind.interface; name = codes "error"; pkg_path = [] }

abbrev pub ping_func : HandlerFunc
ping_func = record {
  is_func = true;
  ins = [];
  outs = error_result ∷ [];
  code = λ vs. done (reply nil_value none);
}

abbrev pub ping : MethodDefinition
ping = record {
  system = codes "app";
  method = codes "ping";
  version = 1;
  handler_func = ping_func;
  method_context = bound;
}

abbrev pub ping_endpoint : ApiEndpoint
ping_endpoint = record { def = ping; args = []; params_pos = none }

abbrev pub ping_call : MethodCall
ping_call = record {
  method = ping_name;
  http_method = rpc_http_method_post;
  payload = Context.value (codes "null");
  bindata = none;
}

abbrev pub ping_request : RpcRequest
ping_request = record {
  version = codes "2.0";
  id = some (codes "1");
  method = ping_name;
  params = [];
}

abbrev pub post : Request
post = record { method = codes "POST"; path = codes "/rpc"; body = some (codes "[ping]") }

abbrev pub transport : Transport
transport = record {
  source = http_rpc;
  http_method = rpc_http_method_post;
  request = post;
  has_ws = false;
}

abbrev pub runtime : Runtime
runtime = record {
  stack = "";
  providers = providers;
  encode = clear;
  endpoints = (ping_name, ping_endpoint) ∷ [];
  fuel = 2;
}

-- A decoder for which "ping" is the only request, and an array holds an unreadable message and it.
abbrev pub toy_json : Json
toy_json = record {
  decode_list = λ body.
      if text_eq body (codes "[]")
      then some ([], 2)
      else some (codes "?" ∷ codes "ping" ∷ [], length body);
  decode_raw = λ body. some (body, length body);
  unmarshal_request = λ raw. if text_eq raw (codes "ping") then some ping_request else none;
}

-- A backend that knows nobody.
abbrev pub stranger : AuthClient
stranger = record {
  is_authenticated = done (account none none);
  is_authorized = done (account none none);
}

abbrev pub guarded : Providers
guarded = (type_private, new_private stranger) ∷ []

-- A state with one new `Public`.
abbrev pub one_public : State
one_public = record { ctx = new_context; publics = fresh_public ∷ []; finalizations = [] }

abbrev pub one_public_in_caller : State
one_public_in_caller = record { ctx = caller; publics = fresh_public ∷ []; finalizations = [] }

abbrev pub registry : MethodHandler
registry = record { systems = []; endpoints = []; level = info; logged = [] }
