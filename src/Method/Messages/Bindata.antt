-- ===== src/Method/Messages/Bindata.antt =====
-- Which request of a body gets the bindata behind it (`processRpcMessages` of method.handler.go).
use jonson.Prelude.{Option, none, some, List, [], ◌∷◌, ◌≡◌, refl, ap}
use mathlib.Core.Path.{fun_ext}
use jonson.Text.{Text}
use jonson.Rpc.{RpcRequest, Response}
use jonson.Context.Run.{State}
use jonson.Method.Messages.{
  Json, Transport, Runtime, Answer, answered, prepend, and_then, parse_error, process_rpc_message,
  process_one, process_all,
}

-- Each message with the request that it is, and with its bindata.
abbrev handed :
    Option RpcRequest
    → Option Text
    → (Option Text → List (Option (RpcRequest × Option Text)))
    → List (Option (RpcRequest × Option Text))
handed none bindata rest = none ∷ rest bindata
handed (some r) bindata rest = some (r, bindata) ∷ rest none

-- The plan of a body: only the first message that is a request has the bindata.
abbrev pub hand_out : Json → List Text → Option Text → List (Option (RpcRequest × Option Text))
hand_out json [] bindata = []
hand_out json (raw ∷ raws) bindata =
    handed (json.unmarshal_request raw) bindata (λ b. hand_out json raws b)

-- Each planned request is processed by itself, one after the other.
abbrev pub process_planned :
    Runtime
    → Transport
    → List (Option (RpcRequest × Option Text))
    → State
    → Answer (List Response) × State
process_planned rt tr [] s = (answered [], s)
process_planned rt tr (none ∷ plan) s = prepend (some parse_error) (process_planned rt tr plan s)
process_planned rt tr (some (r, b) ∷ plan) s =
    and_then (process_rpc_message rt tr r b s) (λ s'. process_planned rt tr plan s')

handed-process_one :
    (rt : Runtime) (tr : Transport) (o : Option RpcRequest) (bindata : Option Text) (s : State)
    (rest : Option Text → State → Answer (List Response) × State)
    (plan : Option Text → List (Option (RpcRequest × Option Text)))
    → ((b : Option Text) (s' : State) → rest b s' ≡ process_planned rt tr (plan b) s')
    → process_one rt tr o bindata s rest ≡ process_planned rt tr (handed o bindata plan) s
unfolding process_one
handed-process_one rt tr none bindata s rest plan h = ap (prepend (some parse_error)) (h bindata s)
handed-process_one rt tr (some r) bindata s rest plan h =
    ap (and_then (process_rpc_message rt tr r bindata s)) (fun_ext (h none))

-- The loop does what the plan says: every message is processed by itself, in order, and the bindata
-- goes to the first message that is a request and to no other.
pub process_all-planned :
    (json : Json) (rt : Runtime) (tr : Transport) (raws : List Text) (bindata : Option Text)
    (s : State)
    → process_all json rt tr raws bindata s ≡ process_planned rt tr (hand_out json raws bindata) s
unfolding process_all
process_all-planned json rt tr [] bindata s = refl
process_all-planned json rt tr (raw ∷ raws) bindata s =
    handed-process_one rt tr (json.unmarshal_request raw) bindata s
      (λ b s'. process_all json rt tr raws b s') (λ b. hand_out json raws b)
      (λ b s'. process_all-planned json rt tr raws b s')
