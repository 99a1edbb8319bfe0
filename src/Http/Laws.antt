-- ===== src/Http/Laws.antt =====
-- What the handlers of http.handler.go write.
use jonson.Http.Status.{HasStatus, HasStatus-status_of}
use jonson.Prelude.{
  ℕ, String, false, ◌&&◌, Option, none, some, [], ◌∷◌, ◌≡◌, refl, arith, Bool-cases, inl, inr,
  if◌then◌else◌,
}
use mathlib.Core.Path.{subst}
use jonson.Text.{Text, text_eq, codes}
use jonson.Value.{Value, Request, reply}
use jonson.Errors.{negsuc, Error, error, error_data, no_data, nil, code, rpc, plain}
use jonson.Rpc.{Response}
use jonson.Method.{ApiEndpoint, endpoint_of}
use jonson.Method.Messages.{
  Json, Runtime, Answer, answered, unanswered, run_message, response_of, process_rpc_message,
}
use jonson.Method.Call.Outcomes.{DidNotReturn}
use jonson.Method.Messages.Answers.{
  Replies, failed, hidden, succeeded, stopped, process_rpc_message-Replies,
}
use jonson.Context.Prog.{Outcome, returned}
use jonson.Context.Run.{State, Exec}
use jonson.Http.{
  Payload, result_only, error_only, Handling, passed, handled, plain_reply, typed_reply,
  status_method_not_allowed, resp_method_not_allowed, handle_rpc, status_of, method_reply,
  method_handling, method_request, method_transport, method_path, payload_of, decoded,
  handle_payload, handle_endpoint, handle_method,
}

-- The params that the body of a request holds, given the position of the endpoint's params.
pub data Params (json : Json) : Option ℕ → Option Text → Option Text → Type 0 where
  no_params : (body : Option Text) → Params json none body (some [])
  no_body : (i : ℕ) → Params json (some i) none none
  undecoded :
      (i : ℕ) (body : Text) → json.decode_raw body ≡ none → Params json (some i) (some body) none
  decoded_params :
      (i off : ℕ) (body params : Text)
      → json.decode_raw body ≡ some (params, off)
      → Params json (some i) (some body) (some params)

Params-decoded :
    (json : Json) (i : ℕ) (body : Text) (o : Option (Text × ℕ))
    → json.decode_raw body ≡ o
    → Params json (some i) (some body) (decoded o)
Params-decoded json i body none e = undecoded i body e
Params-decoded json i body (some (params, off)) e = decoded_params i off body params e

Params-payload_of :
    (json : Json) (pos : Option ℕ) (body : Option Text)
    → Params json pos body (payload_of json pos body)
Params-payload_of json none body = no_params body
Params-payload_of json (some i) none = no_body i
Params-payload_of json (some i) (some body) = Params-decoded json i body (json.decode_raw body) refl

-- A reply with the given status and body was written.
abbrev Writes : Handling → ℕ → Text → Type 0
Writes passed n body = ⊥
Writes (handled (unanswered o)) n body = ⊥
Writes (handled (answered a)) n body = (a.status ≡ n) × (a.body ≡ body)

-- What is written for the outcome of the method's run.
pub data Shows (encode : Text → Text) (marshal : Payload → Text) : Outcome → Handling → Type 0 where
  shows_result :
      (v : Value) (h : Handling)
      → Writes h 200 (marshal (result_only v))
      → Shows encode marshal (returned (reply v none)) h
  shows_error :
      (v : Value) (e : Error) (n : ℕ) (h : Handling)
      → HasStatus (code e) n
      → Writes h n (marshal (error_only e))
      → Shows encode marshal (returned (reply v (some (rpc e)))) h
  hides_error :
      (v : Value) (t : String) (h : Handling)
      → Writes h 500 (
          marshal (
            error_only
              (error (negsuc 32602) "Internal error" (error_data [] nil (encode (codes t))))))
      → Shows encode marshal (returned (reply v (some (plain t)))) h
  shows_nothing : (o : Outcome) → DidNotReturn o → Shows encode marshal o (handled (unanswered o))

abbrev run_of : Runtime → Request → Text → State → Exec
run_of rt req params s =
    run_message rt (method_transport req) (method_request (method_path req.path) params) none s

-- What the handler for one endpoint per method does with a request, and the state behind it.
pub data Serves (marshal : Payload → Text) (json : Json) (rt : Runtime) (req : Request) (s : State)
    : Handling → State → Type 0 where
  not_served :
      endpoint_of (method_path req.path) rt.endpoints ≡ none → Serves marshal json rt req s passed s
  unreadable :
      (e : ApiEndpoint) (h : Handling)
      → endpoint_of (method_path req.path) rt.endpoints ≡ some e
      → Params json e.params_pos req.body none
      → Writes h 400 (marshal (error_only (error (negsuc 32699) "Parse error" no_data)))
      → Serves marshal json rt req s h s
  served :
      (e : ApiEndpoint) (params : Text) (h : Handling)
      → endpoint_of (method_path req.path) rt.endpoints ≡ some e
      → Params json e.params_pos req.body (some params)
      → Shows rt.encode marshal (run_of rt req params s).0 h
      → Serves marshal json rt req s h (run_of rt req params s).1

typed_reply-Writes : (n : ℕ) (body : Text) → Writes (handled (answered (typed_reply n body))) n body
typed_reply-Writes n [] = (refl, refl)
typed_reply-Writes n (c ∷ cs) = (refl, refl)

Shows-method_handling :
    (encode : Text → Text) (marshal : Payload → Text) (i : Text) (o : Outcome)
    (a : Answer (Option Response)) (s : State)
    → Replies encode (some i) o a
    → Shows encode marshal o (method_handling marshal (a, s)).0
unfolding method_reply
Shows-method_handling encode marshal i (_) (_) s (failed _ v e) =
    shows_error v e (status_of e) _ (HasStatus-status_of e)
      (typed_reply-Writes (status_of e) (marshal (error_only e)))
Shows-method_handling encode marshal i (_) (_) s (hidden _ v t) =
    hides_error v t _ (typed_reply-Writes 500 (marshal (error_only _)))
Shows-method_handling encode marshal i (_) (_) s (succeeded _ v) =
    shows_result v _ (typed_reply-Writes 200 (marshal (result_only v)))
Shows-method_handling encode marshal i o (_) s (stopped _ _ d) = shows_nothing o d

method_handling-state :
    (marshal : Payload → Text) (a : Answer (Option Response)) (s : State)
    → s ≡ (method_handling marshal (a, s)).1
method_handling-state marshal (answered o) s = refl
method_handling-state marshal (unanswered o) s = refl

handle_payload-Serves :
    (marshal : Payload → Text) (json : Json) (rt : Runtime) (e : ApiEndpoint) (req : Request)
    (s : State) (payload : Option Text)
    → endpoint_of (method_path req.path) rt.endpoints ≡ some e
    → Params json e.params_pos req.body payload
    → Serves marshal json rt req s
        (handle_payload marshal rt req payload s).0
        (handle_payload marshal rt req payload s).1
unfolding handle_payload process_rpc_message method_reply
handle_payload-Serves marshal json rt e req s none found bad =
    unreadable e _ found bad (typed_reply-Writes 400 (marshal (error_only _)))
handle_payload-Serves marshal json rt e req s (some params) found good =
    let a = response_of rt.encode (some (codes "-1")) (run_of rt req params s).0 in
    let s' = (run_of rt req params s).1 in
    subst (Serves marshal json rt req s (method_handling marshal (a, s')).0)
      (method_handling-state marshal a s')
      (served e params _ found good (
        Shows-method_handling rt.encode marshal (codes "-1") (run_of rt req params s).0 a s' (
          process_rpc_message-Replies rt (method_transport req)
            (method_request (method_path req.path) params) none s)))

handle_endpoint-Serves :
    (marshal : Payload → Text) (json : Json) (rt : Runtime) (e : Option ApiEndpoint) (req : Request)
    (s : State)
    → endpoint_of (method_path req.path) rt.endpoints ≡ e
    → Serves marshal json rt req s
        (handle_endpoint marshal json rt e req s).0
        (handle_endpoint marshal json rt e req s).1
handle_endpoint-Serves marshal json rt none req s missing = not_served missing
handle_endpoint-Serves marshal json rt (some e) req s found =
    handle_payload-Serves marshal json rt e req s (payload_of json e.params_pos req.body) found
      (Params-payload_of json e.params_pos req.body)

-- The handler for one endpoint per method leaves a request alone exactly where its path names no
-- endpoint. A body that cannot be read where params are expected gets the parse error with status
-- 400. Otherwise the method runs once, and the handler writes its result with status 200, its
-- protocol error with the status of the error's code (405, 400, 403 or 404 for the listed codes,
-- and otherwise 500), or another error as an internal error with status 500; it writes nothing if
-- the run does not return.
pub handle_method-Serves :
    (marshal : Payload → Text) (json : Json) (rt : Runtime) (req : Request) (s : State)
    → Serves marshal json rt req s
        (handle_method marshal json rt req s).0
        (handle_method marshal json rt req s).1
unfolding handle_method
handle_method-Serves marshal json rt req s =
    handle_endpoint-Serves marshal json rt (endpoint_of (method_path req.path) rt.endpoints) req s
      refl

-- The RPC endpoint runs nothing for a request to another path or with another method than POST:
-- the first is left to other handlers, the second is refused with status 405.
pub handle_rpc-guards :
    (marshal : Payload → Text) (json : Json) (rt : Runtime) (path : Text) (req : Request)
    (s : State)
    → (text_eq req.path path && text_eq req.method (codes "POST")) ≡ false
    → handle_rpc marshal json rt path req s ≡ (
      (if text_eq req.path path
          then handled
              (answered (plain_reply status_method_not_allowed (resp_method_not_allowed marshal)))
          else passed),
      s,
    )
unfolding handle_rpc
handle_rpc-guards marshal json rt path req s h = elim (Bool-cases (text_eq req.path path)) [
  | inl e ↦ elim (Bool-cases (text_eq req.method (codes "POST"))) [
    | inl m ↦ absurd (ground (arith, h, e, m))
    | inr m ↦ rw (e, m)
  ]
  | inr e ↦ rw e
]
