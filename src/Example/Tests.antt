-- ===== src/Example/Tests.antt =====
-- The example application, set up and served.
use jonson.Prelude.{ℕ, String, false, none, some, List, [], ◌∷◌, ◌≡◌, refl, map, length}
use jonson.Text.{Text, codes, text_eq}
use jonson.Types.{GoType}
use jonson.Value.{Value, Request, fields}
use jonson.Errors.{PanicValue, of_string, error}
use jonson.Validate.{Result, ok, panicked}
use jonson.Context.Typed.{is_of}
use jonson.Context.Prog.{Outcome}
use jonson.Context.Typed.Accessors.{require_as}
use jonson.Method.Messages.{Json, Answer, answered, unanswered}
use jonson.Log.{new_logger, new_logger_options}
use jonson.Http.{
  new_http_get, Payload, result_only, error_only, plain_reply, HttpReply, new_http_post,
  typed_reply, handle_rpc, handle_method,
}
use jonson.Server.{serve_http}
use jonson.Scenario.{clear, start}
use jonson.Example.Served.{serve}
use jonson.Example.{new_private, new_public, World, Application, main}

abbrev conversion : GoType → Value → PanicValue
conversion t v = of_string "interface conversion"

-- A world in which every request has the given header, and params are their uuid.
abbrev pub with_header : Text → World
with_header h = record {
  conversion = conversion;
  header = λ r k. h;
  uuid_of = λ raw. raw;
  decode = λ raw. none;
}

abbrev names : Result Application → List Text
names (ok a) = map (λ e. e.0) a.handler.endpoints
names (panicked p) = []

set_up_names :
    names (main (with_header []) 1 [])
    ≡ codes "account/process.v1" ∷ codes "account/me.v1" ∷ codes "account/get-profile.v1" ∷ []
unfolding main
set_up_names = refl

-- A reply shows the first field of a result, and the message of an error.
abbrev to_json : Payload → Text
to_json (result_only (fields ((k, v) ∷ fs))) = v
to_json (error_only (error c m d)) = codes m
to_json p = codes "{}"

-- Any body is its own params.
abbrev plain_json : Json
plain_json = record {
  decode_list = λ body. none;
  decode_raw = λ body. some (body, length body);
  unmarshal_request = λ raw. none;
}

abbrev request : String → String → String → Request
request method path body = record {
  method = codes method;
  path = codes path;
  body = some (codes body);
}

abbrev replied : Result Application → Request → Answer HttpReply
replied (ok a) req = (serve "" clear to_json plain_json 2 a req start).0
replied (panicked p) req = unanswered (Outcome.panicked p)

-- The replies to a client with the given header.
abbrev reply_to : String → String → String → String → Answer HttpReply
reply_to header method path body =
    replied (main (with_header (codes header)) 1 (false ∷ [])) (request method path body)

abbrev status_and : ℕ → String → Answer HttpReply
status_and status body = answered (typed_reply status (codes body))

me_authorized :
    reply_to "authorized" "GET" "/account/me.v1" ""
    ≡ status_and 200 "70634da0-7459-4a17-a50f-7afc2a600d50"
unfolding main serve_http handle_rpc handle_method new_private new_public require_as new_http_get
    new_http_post new_logger new_logger_options is_of text_eq
me_authorized = refl

me_not_authorized : reply_to "" "GET" "/account/me.v1" "" ≡ status_and 500 "Internal error"
unfolding main serve_http handle_rpc handle_method new_private new_public require_as new_http_get
    new_http_post new_logger new_logger_options is_of text_eq
me_not_authorized = refl

me_with_post :
    reply_to "authorized" "POST" "/account/me.v1" ""
    ≡ status_and 405 "Server error: method not allowed"
unfolding main serve_http handle_rpc handle_method new_private new_public require_as new_http_get
    new_http_post new_logger new_logger_options is_of text_eq
me_with_post = refl

profile :
    reply_to "" "POST" "/account/get-profile.v1" "70634da0-7459-4a17-a50f-7afc2a600d50"
    ≡ status_and 200 "Silvio"
unfolding main serve_http handle_rpc handle_method new_private new_public require_as new_http_get
    new_http_post new_logger new_logger_options is_of text_eq
profile = refl

profile_not_found :
    reply_to "" "POST" "/account/get-profile.v1" "9b641812-b78c-40f0-a8df-88f8378f10a7"
    ≡ status_and 500 "Account not found"
unfolding main serve_http handle_rpc handle_method new_private new_public require_as new_http_get
    new_http_post new_logger new_logger_options is_of text_eq
profile_not_found = refl

profile_invalid :
    reply_to "" "POST" "/account/get-profile.v1" "9b641812" ≡ status_and 400 "Invalid params"
unfolding main serve_http handle_rpc handle_method new_private new_public require_as new_http_get
    new_http_post new_logger new_logger_options is_of text_eq
profile_invalid = refl

-- The server is shutting down.
process_down : reply_to "" "GET" "/account/process.v1" "" ≡ status_and 200 "{}"
unfolding main serve_http handle_rpc handle_method new_private new_public require_as new_http_get
    new_http_post new_logger new_logger_options is_of text_eq
process_down = refl

-- req.http asks for account/get.v1, which does not exist.
get_v1 : reply_to "" "POST" "/account/get.v1" "" ≡ answered (plain_reply 404 [])
unfolding main serve_http handle_rpc handle_method new_private new_public require_as new_http_get
    new_http_post new_logger new_logger_options is_of text_eq
get_v1 = refl
