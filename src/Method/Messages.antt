-- ===== src/Method/Messages.antt =====
-- `processRpcMessages` and `processRpcMessage` of method.handler.go. What a transport passes on of
-- its request is `Transport`; what encoding/json makes of a text is `Json`.
pub mod Answers
pub mod Bindata
pub mod Bodies
use jonson.Prelude.{
  ℕ, zero, suc, ◌+◌, String, Bool, true, false, Option, none, some, List, [], ◌∷◌, ◌++◌, length,
  ◌==◌, if◌then◌else◌, ltb,
}
use jonson.Text.{Text, codes}
use jonson.Types.{
  GoType, type_rpc_meta, type_http_request, type_http_response_writer, type_ws_client, type_secret,
}
use jonson.Value.{
  Value, RpcHttpMethod, RpcSource, Request, reply, rpc_meta, http_request, http_response_writer,
  ws_client, secret,
}
use jonson.Errors.{
  Error, GoError, rpc, plain, clone_with_data, error_data, nil, err_internal, err_parse, error_text,
}
use jonson.Rpc.{RpcRequest, Response, error_response, result_response}
use jonson.Validate.{Result}
use jonson.Method.{ApiEndpoint}
use jonson.Method.Call.{call_prog, finish, execute}
use jonson.Context.{Context, new_context}
use jonson.Context.Prog.{Outcome, returned}
use jonson.Context.Run.{State, Exec, set_ctx, leave, with_ctx, store_each, Providers}

-- The JSON decoder. A decoded value comes with `InputOffset`, the length of the text that was read.
pub record Json : Type 0 where
  pub decode_list : Text → Option (List Text × ℕ)
  pub decode_raw : Text → Option (Text × ℕ)
  pub unmarshal_request : Text → Option RpcRequest

pub record Transport : Type 0 where
  pub source : RpcSource
  pub http_method : RpcHttpMethod
  pub request : Request
  pub has_ws : Bool

-- What a message handler has besides its state. `fuel` bounds how deep procedures call procedures.
pub record Runtime : Type 0 where
  pub stack : String
  pub providers : Providers
  pub encode : Text → Text
  pub endpoints : List (Text × ApiEndpoint)
  pub fuel : ℕ

-- A handler answers, or its run ends otherwise: a panic goes through to the transport.
pub data Answer {ℓ} (A : Type ℓ) : Type ℓ where
  answered : A → Answer A
  unanswered : Outcome → Answer A

abbrev pub encoded_internal : (Text → Text) → GoError → Error
encoded_internal encode e = clone_with_data err_internal (error_data [] nil (encode (error_text e)))

-- An error is always answered, a result only if the request has an id.
unfoldable pub response_of : (Text → Text) → Option Text → Outcome → Answer (Option Response)
unfolding clone_with_data error_text
response_of encode ident (returned (reply v (some (rpc e)))) =
    answered (some (error_response ident e))
response_of encode ident (returned (reply v (some (plain s)))) =
    answered (some (error_response ident (encoded_internal encode (plain s))))
response_of encode none (returned (reply v none)) = answered none
response_of encode (some i) (returned (reply v none)) = answered (some (result_response (some i) v))
response_of encode ident o = unanswered o

abbrev pub ws_items : Bool → List (GoType × Value)
ws_items true = (type_ws_client, ws_client) ∷ []
ws_items false = []

-- The values that `processRpcMessage` stores in the new context.
abbrev pub message_items : Transport → Text → List (GoType × Value)
message_items tr method =
    (type_http_request, http_request tr.request)
    ∷ (type_http_response_writer, http_response_writer)
    ∷ (ws_items tr.has_ws
        ++ (type_secret, secret)
          ∷ (
            type_rpc_meta,
            rpc_meta (record { method = method; http_method = tr.http_method; source = tr.source }),
          )
          ∷ [])

-- `processRpcMessage` up to the response: the run of the call and its finalization.
unfoldable pub run_message : Runtime → Transport → RpcRequest → Option Text → State → Exec
unfolding finish execute call_prog store_each new_context
run_message rt tr r bindata s =
    with_ctx (store_each (message_items tr r.method) new_context) s (λ c. leave s.ctx (
      finish rt.encode (
        execute rt.stack rt.providers rt.encode rt.endpoints rt.fuel
          (call_prog rt.encode rt.endpoints r bindata) (set_ctx s c))))

-- `processRpcMessage`
unfoldable pub process_rpc_message :
    Runtime → Transport → RpcRequest → Option Text → State → Answer (Option Response) × State
unfolding run_message response_of
process_rpc_message rt tr r bindata s =
    let e = run_message rt tr r bindata s in (response_of rt.encode r.id e.0, e.1)

-- The response `r` before those of the later messages.
abbrev pub prepend :
    Option Response → Answer (List Response) × State → Answer (List Response) × State
prepend (some r) (answered rs, s) = (answered (r ∷ rs), s)
prepend none (answered rs, s) = (answered rs, s)
prepend r (unanswered o, s) = (unanswered o, s)

-- What follows a processed message; a panic ends the loop.
abbrev pub and_then :
    Answer (Option Response) × State
    → (State → Answer (List Response) × State)
    → Answer (List Response) × State
and_then (answered r, s) rest = prepend r (rest s)
and_then (unanswered o, s) rest = (unanswered o, s)

abbrev pub parse_error : Response
parse_error = error_response none err_parse

-- One message, given what `json.Unmarshal` makes of it and the rest of the loop: the bindata
-- stays for the next message if this one is no request.
unfoldable pub process_one :
    Runtime
    → Transport
    → Option RpcRequest
    → Option Text
    → State
    → (Option Text → State → Answer (List Response) × State)
    → Answer (List Response) × State
unfolding process_rpc_message
process_one rt tr none bindata s rest = prepend (some parse_error) (rest bindata s)
process_one rt tr (some r) bindata s rest =
    and_then (process_rpc_message rt tr r bindata s) (λ s'. rest none s')

-- The loop over the messages.
unfoldable pub process_all :
    Json → Runtime → Transport → List Text → Option Text → State → Answer (List Response) × State
unfolding process_one
process_all json rt tr [] bindata s = (answered [], s)
process_all json rt tr (raw ∷ raws) bindata s =
    process_one rt tr (json.unmarshal_request raw) bindata s
      (λ b s'. process_all json rt tr raws b s')

unfoldable pub drop {ℓ} : {A : Type ℓ} → ℕ → List A → List A
drop n [] = []
drop zero (x ∷ xs) = x ∷ xs
drop (suc n) (x ∷ xs) = drop n xs

-- `data[off+1:]` if more than one byte follows the offset
unfoldable pub remaining : Text → ℕ → Option Text
unfolding drop
remaining bytes off = if ltb (suc off) (length bytes) then some (drop (suc off) bytes) else none

-- The messages of a body, with whether they form a batch and the bindata behind them; none where
-- the body is empty, cannot be parsed, is an empty array, or is neither an array nor an object.
abbrev pub of_list_body : Text → Option (List Text × ℕ) → Option (List Text × (Bool × Option Text))
of_list_body bytes none = none
of_list_body bytes (some ([], off)) = none
of_list_body bytes (some (r ∷ rs, off)) = some (r ∷ rs, (true, remaining bytes off))

abbrev pub of_raw_body : Text → Option (Text × ℕ) → Option (List Text × (Bool × Option Text))
of_raw_body bytes none = none
of_raw_body bytes (some (r, off)) = some (r ∷ [], (false, remaining bytes off))

unfoldable pub messages_of : Json → Text → Option (List Text × (Bool × Option Text))
unfolding remaining
messages_of json [] = none
messages_of json (c ∷ cs) =
    if c == b'['
    then of_list_body (c ∷ cs) (json.decode_list (c ∷ cs))
    else if c == b'{'
    then of_raw_body (c ∷ cs) (json.decode_raw (c ∷ cs))
    else none

unfoldable pub process_body :
    Json
    → Runtime
    → Transport
    → Option (List Text × (Bool × Option Text))
    → State
    → (Answer (List Response) × State) × Bool
unfolding process_all
process_body json rt tr none s = ((answered (parse_error ∷ []), s), false)
process_body json rt tr (some (raws, (batch, bindata))) s =
    (process_all json rt tr raws bindata s, batch)

-- `processRpcMessages`: the responses, and whether they are a batch.
unfoldable pub process_rpc_messages :
    Json → Runtime → Transport → Text → State → (Answer (List Response) × State) × Bool
unfolding process_body messages_of
process_rpc_messages json rt tr bytes s = process_body json rt tr (messages_of json bytes) s
