-- ===== src/Http.antt =====
-- http.handler.go: the handlers for RPC over one endpoint and over one endpoint for each method.
-- What a handler writes is its reply; `marshal` is what `json.Marshal` makes of a payload, with an
-- empty text for an error, which the code ignores.
pub mod Laws
pub mod Status
pub mod Guards
pub mod Regexp
mod Tests
use jonson.Prelude.{
  ℕ, Bool, true, false, not, Option, none, some, List, [], ◌∷◌, if◌then◌else◌, ◌==◌,
}
use jonson.Text.{Text, codes, text_eq}
use jonson.Value.{
  Value, RpcHttpMethod, RpcSource, Request, rpc_http_method_post, http_rpc, http, http_post,
  http_get, http_request, rpc_meta,
}
use jonson.Types.{GoType, type_rpc_meta, type_http_request}
use jonson.Errors.{
  ℤ, pos, negsuc, Error, GoError, rpc, code, of_error, of_string, err_parse, err_method_not_found,
  err_invalid_params, err_server_method_not_allowed, err_unauthorized, err_unauthenticated,
}
use jonson.Rpc.{RpcRequest, Response, error_response, result_response}
use jonson.Method.{ApiEndpoint, endpoint_of}
use jonson.Method.Messages.{
  Json, Transport, Runtime, Answer, answered, unanswered, process_rpc_message, process_rpc_messages,
  parse_error,
}
use jonson.Context.Prog.{Prog, done, panic, require}
use jonson.Context.Run.{State}

-- The argument of `json.Marshal`.
pub data Payload : Type 0 where
  single : Response → Payload
  batch_of : List Response → Payload
  result_only : Value → Payload
  error_only : Error → Payload
  null : Payload

pub record HttpReply : Type 0 where
  pub status : ℕ
  pub json_type : Bool
  pub body : Text

abbrev pub status_ok : ℕ
status_ok = 200

abbrev pub status_bad_request : ℕ
status_bad_request = 400

abbrev pub status_forbidden : ℕ
status_forbidden = 403

abbrev pub status_not_found : ℕ
status_not_found = 404

abbrev pub status_method_not_allowed : ℕ
status_method_not_allowed = 405

abbrev pub status_internal_server_error : ℕ
status_internal_server_error = 500

-- What `Handle` does: it leaves the request to others, or it has written a reply.
pub data Handling : Type 0 where
  passed : Handling
  handled : Answer HttpReply → Handling

abbrev pub plain_reply : ℕ → Text → HttpReply
plain_reply status body = record { status = status; json_type = false; body = body }

-- `respMethodNotAllowed`
abbrev pub resp_method_not_allowed : (Payload → Text) → Text
resp_method_not_allowed marshal =
    marshal (single (error_response none err_server_method_not_allowed))

abbrev pub rpc_reply : (Payload → Text) → Bool → List Response → HttpReply
rpc_reply marshal batch [] = plain_reply status_ok []
rpc_reply marshal false (r ∷ rs) = plain_reply status_ok (marshal (single r))
rpc_reply marshal true (r ∷ rs) = plain_reply status_ok (marshal (batch_of (r ∷ rs)))

abbrev pub rpc_handling :
    (Payload → Text) → (Answer (List Response) × State) × Bool → Handling × State
rpc_handling marshal ((answered rs, s), batch) =
    (handled (answered (rpc_reply marshal batch rs)), s)
rpc_handling marshal ((unanswered o, s), batch) = (handled (unanswered o), s)

abbrev pub rpc_transport : Request → Transport
rpc_transport req = record {
  source = http_rpc;
  http_method = rpc_http_method_post;
  request = req;
  has_ws = false;
}

abbrev pub rpc_body :
    (Payload → Text) → Json → Runtime → Request → Option Text → State → Handling × State
rpc_body marshal json rt req none s = rpc_handling marshal ((answered (parse_error ∷ []), s), false)
rpc_body marshal json rt req (some body) s =
    rpc_handling marshal (process_rpc_messages json rt (rpc_transport req) body s)

-- `HttpRpcHandler.Handle`; the body is none where reading it fails.
unfoldable pub handle_rpc :
    (Payload → Text) → Json → Runtime → Text → Request → State → Handling × State
unfolding process_rpc_messages text_eq
handle_rpc marshal json rt path req s =
    if not (text_eq req.path path)
    then (passed, s)
    else if not (text_eq req.method (codes "POST"))
    then (
      handled (answered (plain_reply status_method_not_allowed (resp_method_not_allowed marshal))),
      s,
    )
    else rpc_body marshal json rt req req.body s

unfoldable pub same_code : ℤ → ℤ → Bool
same_code (pos m) (pos n) = m == n
same_code (negsuc m) (negsuc n) = m == n
same_code _ _ = false

-- the switch on the code of an error
unfoldable pub status_of : Error → ℕ
unfolding same_code
status_of e =
    if same_code (code e) (code err_server_method_not_allowed)
    then status_method_not_allowed
    else if same_code (code e) (code err_invalid_params)
    then status_bad_request
    else if same_code (code e) (code err_parse)
    then status_bad_request
    else if same_code (code e) (code err_unauthorized)
    then status_forbidden
    else if same_code (code e) (code err_unauthenticated)
    then status_forbidden
    else if same_code (code e) (code err_method_not_found)
    then status_not_found
    else status_internal_server_error

abbrev pub typed_reply : ℕ → Text → HttpReply
typed_reply status [] = record { status = status; json_type = false; body = [] }
typed_reply status (c ∷ cs) = record { status = status; json_type = true; body = c ∷ cs }

-- Without the wrapper of JSON-RPC: the result or the error alone.
unfoldable pub method_reply : (Payload → Text) → Option Response → HttpReply
unfolding status_of
method_reply marshal none = typed_reply status_ok (marshal null)
method_reply marshal (some (result_response i v)) = typed_reply status_ok (marshal (result_only v))
method_reply marshal (some (error_response i e)) =
    typed_reply (status_of e) (marshal (error_only e))

abbrev pub method_handling : (Payload → Text) → Answer (Option Response) × State → Handling × State
method_handling marshal (answered r, s) = (handled (answered (method_reply marshal r)), s)
method_handling marshal (unanswered o, s) = (handled (unanswered o), s)

abbrev pub method_transport : Request → Transport
method_transport req = record {
  source = http;
  http_method = req.method;
  request = req;
  has_ws = false;
}

abbrev pub method_request : Text → Text → RpcRequest
method_request name payload = record {
  version = codes "2.0";
  id = some (codes "-1");
  method = name;
  params = payload;
}

-- The path without its first character.
unfoldable pub method_path : Text → Text
method_path [] = []
method_path (c ∷ cs) = cs

abbrev pub decoded : Option (Text × ℕ) → Option Text
decoded none = none
decoded (some (raw, off)) = some raw

abbrev pub decode_body : Json → Option Text → Option Text
decode_body json none = none
decode_body json (some body) = decoded (json.decode_raw body)

-- The params: the body is decoded only if the endpoint expects params.
abbrev pub payload_of : Json → Option ℕ → Option Text → Option Text
payload_of json none body = some []
payload_of json (some i) body = decode_body json body

unfoldable pub handle_payload :
    (Payload → Text) → Runtime → Request → Option Text → State → Handling × State
unfolding process_rpc_message method_reply method_path
handle_payload marshal rt req none s = method_handling marshal (answered (some parse_error), s)
handle_payload marshal rt req (some payload) s = method_handling marshal (
    process_rpc_message rt (method_transport req) (method_request (method_path req.path) payload)
      none s)

abbrev pub handle_endpoint :
    (Payload → Text) → Json → Runtime → Option ApiEndpoint → Request → State → Handling × State
handle_endpoint marshal json rt none req s = (passed, s)
handle_endpoint marshal json rt (some e) req s =
    handle_payload marshal rt req (payload_of json e.params_pos req.body) s

-- `HttpMethodHandler.Handle`
unfoldable pub handle_method :
    (Payload → Text) → Json → Runtime → Request → State → Handling × State
unfolding handle_payload endpoint_of method_path
handle_method marshal json rt req s =
    handle_endpoint marshal json rt (endpoint_of (method_path req.path) rt.endpoints) req s

-- A type assertion of `RequireRpcMeta` or `RequireHttpRequest` that fails, which cannot happen where
-- values are of the types under which they are stored.
abbrev pub other_type : Prog
other_type = panic (of_string "unreachable: a value of another type")

-- http.method.go: the providers `NewHttpPost` and `NewHttpGet`.
abbrev pub check_method : Text → Value → Value → Prog
check_method wanted v (http_request r) =
    if text_eq r.method wanted then done v else panic (of_error (rpc err_server_method_not_allowed))
check_method wanted v _ = other_type

abbrev pub is_http : RpcSource → Bool
is_http http = true
is_http _ = false

abbrev pub check_source : Text → Value → Value → Prog
check_source wanted v (rpc_meta m) =
    if is_http m.source then require type_http_request (check_method wanted v) else done v
check_source wanted v _ = other_type

unfoldable pub new_http_post : Prog
unfolding text_eq
new_http_post = require type_rpc_meta (check_source (codes "POST") http_post)

unfoldable pub new_http_get : Prog
unfolding text_eq
new_http_get = require type_rpc_meta (check_source (codes "GET") http_get)
