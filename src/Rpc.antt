-- ===== src/Rpc.antt =====
-- rpc.go: requests, responses, and the reading of a procedure's params.
use jonson.Prelude.{Bool, Option, none, some, [], if◌then◌else◌}
use jonson.Text.{Text, codes, text_eq}
use jonson.Types.{GoType}
use jonson.Value.{
  Value, params, RpcHttpMethod, rpc_http_method_get, rpc_http_method_post, rpc_http_method_unknown,
}
use jonson.Errors.{
  Error, GoError, rpc, error_data, of_list, clone_with_data, err_invalid_params, error_text,
}
use jonson.Validate.{Result, ok, ◌>>=◌, Script, validate_value}
use jonson.Context.{Fallible, value, failure}

-- `RpcRequest`. `id` is none if the field is missing.
pub record RpcRequest : Type 0 where
  pub version : Text
  pub id : Option Text
  pub method : Text
  pub params : Text

-- A payload: raw JSON, or a value with what `json.Marshal` makes of it, none for an error.
pub data NotificationPayload : Type 0 where
  raw_message : Text → NotificationPayload
  marshalled : Option Text → NotificationPayload

-- `RpcNotification`; empty params are left out of its JSON.
pub record RpcNotification : Type 0 where
  pub version : Text
  pub method : Text
  pub params : Text

abbrev params_of : NotificationPayload → Text
params_of (raw_message raw) = raw
params_of (marshalled none) = []
params_of (marshalled (some raw)) = raw

-- `NewRpcNotification`
unfoldable pub new_rpc_notification : Text → NotificationPayload → RpcNotification
new_rpc_notification method payload = record {
  version = codes "2.0";
  method = method;
  params = params_of payload;
}

-- `RpcErrorResponse` and `RpcResultResponse`. The version is always "2.0".
pub data Response : Type 0 where
  error_response : (id : Option Text) → Error → Response
  result_response : (id : Option Text) → Value → Response

-- A struct type of params: what `json.Decoder.Decode` answers on a text, whether the struct has a
-- field `Bindata`, and its `JonsonValidate`, if it has one.
pub record ParamsType : Type 0 where
  pub rt : GoType
  pub decode : Text → Option GoError
  pub has_bindata : Bool
  pub json_validate : Option (Value → Script)

-- The params with the field `Bindata` set, where bindata was sent and the struct has the field.
abbrev pub set_bindata : ParamsType → Text → Option Text → Value
set_bindata pt raw bindata = params raw (if pt.has_bindata then bindata else none)

abbrev pub invalid_json : (Text → Text) → GoError → GoError
invalid_json encode e =
    rpc (clone_with_data err_invalid_params (error_data [] (of_list []) (encode (error_text e))))

abbrev pub of_verdict : Value → Option Error → Fallible Value
of_verdict v none = value v
of_verdict v (some e) = failure (rpc e)

abbrev pub check_params : (Text → Text) → Option (Value → Script) → Value → Result (Fallible Value)
check_params encode none v = ok (value v)
check_params encode (some validate) v =
    validate_value encode [] (validate v) >>= λ r. ok (of_verdict v r)

abbrev pub read_params :
    (Text → Text) → ParamsType → Text → Option Text → Option GoError → Result (Fallible Value)
read_params encode pt raw bindata (some e) = ok (failure (invalid_json encode e))
read_params encode pt raw bindata none =
    check_params encode pt.json_validate (set_bindata pt raw bindata)

-- `RpcRequest.UnmarshalAndValidate`
unfoldable pub unmarshal_and_validate :
    (Text → Text) → ParamsType → RpcRequest → Option Text → Result (Fallible Value)
unfolding validate_value clone_with_data error_text
unmarshal_and_validate encode pt r bindata =
    read_params encode pt r.params bindata (pt.decode r.params)

-- `getRpcHttpMethod`
unfoldable pub get_rpc_http_method : Text → RpcHttpMethod
unfolding text_eq
get_rpc_http_method m =
    if text_eq m (codes "GET")
    then rpc_http_method_get
    else if text_eq m (codes "get")
    then rpc_http_method_get
    else if text_eq m (codes "POST")
    then rpc_http_method_post
    else if text_eq m (codes "post")
    then rpc_http_method_post
    else rpc_http_method_unknown
