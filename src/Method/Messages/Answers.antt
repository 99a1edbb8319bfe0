-- ===== src/Method/Messages/Answers.antt =====
-- Which responses a body of messages gets (`processRpcMessages` of method.handler.go).
use jonson.Prelude.{String, Option, none, some, List, [], ◌∷◌, ◌≡◌, refl, sym}
use mathlib.Core.Path.{subst}
use jonson.Text.{Text, codes}
use jonson.Value.{Value, nil_value, reply}
use jonson.Errors.{Error, error, error_data, no_data, nil, negsuc, GoError, rpc, plain}
use jonson.Rpc.{RpcRequest, Response, error_response, result_response}
use jonson.Context.{Context, new_context}
use jonson.Context.Prog.{MethodCall, Outcome, returned}
use jonson.Context.Run.{State, Exec, leave, set_ctx, store_each, require_type, depth}
use jonson.Method.Call.{finish, finish_reply, execute, call_prog, call_method}
use jonson.Method.Call.Outcomes.{DidNotReturn, Ends, IsReply, call_prog-Ends, with_ctx-Ends}
use jonson.Method.Messages.{
  Json, Transport, Runtime, Answer, answered, unanswered, response_of, run_message, message_items,
  process_rpc_message, prepend, and_then, parse_error, process_one, process_all,
}

-- What a request with the given id gets for the outcome of its run.
pub data Replies (encode : Text → Text)
    : Option Text → Outcome → Answer (Option Response) → Type 0 where
  -- an error of the protocol, also for a notification
  failed :
      (i : Option Text) (v : Value) (e : Error)
      → Replies encode i (returned (reply v (some (rpc e)))) (answered (some (error_response i e)))
  -- another error: its text is encoded into an internal error
  hidden :
      (i : Option Text) (v : Value) (s : String)
      → Replies encode i (returned (reply v (some (plain s)))) (
          answered (
            some (
              error_response i
                (error (negsuc 32602) "Internal error" (error_data [] nil (encode (codes s)))))))
  succeeded :
      (i : Text) (v : Value)
      → Replies encode
          (some i)
          (returned (reply v none))
          (answered (some (result_response (some i) v)))
  notified : (v : Value) → Replies encode none (returned (reply v none)) (answered none)
  stopped : (i : Option Text) (o : Outcome) → DidNotReturn o → Replies encode i o (unanswered o)

abbrev added : Option Response → List Response → List Response
added none rs = rs
added (some r) rs = r ∷ rs

-- The response before those of the later messages, unless one of these stops the loop.
abbrev before : Option Response → Answer (List Response) → Answer (List Response)
before o (answered rs) = answered (added o rs)
before o (unanswered x) = unanswered x

-- The answer to messages and the state behind it, from the bindata and the state before it.
pub data Answers (json : Json) (rt : Runtime) (tr : Transport)
    : List Text → Option Text → State → Answer (List Response) → State → Type 0 where
  no_message : (b : Option Text) (s : State) → Answers json rt tr [] b s (answered []) s
  unreadable :
      (raw : Text) (raws : List Text) (b : Option Text) (s s' : State) (a : Answer (List Response))
      → json.unmarshal_request raw ≡ none
      → Answers json rt tr raws b s a s'
      → Answers json rt tr
          (raw ∷ raws)
          b
          s
          (before (some (error_response none (error (negsuc 32699) "Parse error" no_data))) a)
          s'
  request :
      (raw : Text) (raws : List Text) (b : Option Text) (s s' : State) (a : Answer (List Response))
      (r : RpcRequest) (o : Option Response)
      → json.unmarshal_request raw ≡ some r
      → Replies rt.encode r.id (run_message rt tr r b s).0 (answered o)
      → Answers json rt tr raws none (run_message rt tr r b s).1 a s'
      → Answers json rt tr (raw ∷ raws) b s (before o a) s'
  interrupted :
      (raw : Text) (raws : List Text) (b : Option Text) (s : State) (r : RpcRequest) (o : Outcome)
      → json.unmarshal_request raw ≡ some r
      → Replies rt.encode r.id (run_message rt tr r b s).0 (unanswered o)
      → Answers json rt tr (raw ∷ raws) b s (unanswered o) (run_message rt tr r b s).1

finish_reply-IsReply : (o : Option GoError) (v : Value) → IsReply (finish_reply o v)
finish_reply-IsReply none v = ((v, none), refl)
finish_reply-IsReply (some e) v = ((nil_value, some e), refl)

Replies-reply :
    (encode : Text → Text) (i : Option Text) (v : Value) (err : Option GoError)
    → Replies encode i (returned (reply v err)) (response_of encode i (returned (reply v err)))
unfolding response_of
Replies-reply encode i v (some (rpc e)) = failed i v e
Replies-reply encode i v (some (plain s)) = hidden i v s
Replies-reply encode none v none = notified v
Replies-reply encode (some i) v none = succeeded i v

Replies-response_of :
    (encode : Text → Text) (i : Option Text) (o : Outcome)
    → Ends IsReply o
    → Replies encode i o (response_of encode i o)
unfolding response_of
Replies-response_of encode i (returned v) (r, e) = rw e (Replies-reply encode i r.0 r.1)
Replies-response_of encode none (Outcome.panicked p) h = stopped none _ tt
Replies-response_of encode (some i) (Outcome.panicked p) h = stopped (some i) _ tt
Replies-response_of encode none Outcome.blocked h = stopped none _ tt
Replies-response_of encode (some i) Outcome.blocked h = stopped (some i) _ tt
Replies-response_of encode none Outcome.out_of_fuel h = stopped none _ tt
Replies-response_of encode (some i) Outcome.out_of_fuel h = stopped (some i) _ tt

finish-Ends :
    (encode : Text → Text) (e : Exec) → Ends IsReply e.0 → Ends IsReply (finish encode e).0
unfolding finish
finish-Ends encode (returned v, s) (r, e) = rw e (finish_reply-IsReply _ r.0)
finish-Ends encode (Outcome.panicked p, s) h = h
finish-Ends encode (Outcome.blocked, s) h = h
finish-Ends encode (Outcome.out_of_fuel, s) h = h

leave-Ends : (c : Context) (e : Exec) → Ends IsReply e.0 → Ends IsReply (leave c e).0
leave-Ends c (o, s) h = h

run_message-Ends :
    (rt : Runtime) (tr : Transport) (r : RpcRequest) (bindata : Option Text) (s : State)
    → Ends IsReply (run_message rt tr r bindata s).0
unfolding run_message execute
run_message-Ends rt tr r bindata s =
    with_ctx-Ends IsReply (store_each (message_items tr r.method) new_context) s
      (λ c. leave s.ctx (message_run c))
      (λ c. leave-Ends s.ctx (message_run c) (
        finish-Ends rt.encode (bare_run c) (
          call_prog-Ends
            (require_type rt.stack rt.providers call (depth rt.stack rt.providers call)) call
            rt.encode rt.endpoints r bindata (set_ctx s c))))
  where
    call : MethodCall → State → Exec
    call = call_method rt.stack rt.providers rt.encode rt.endpoints rt.fuel

    bare_run : Context → Exec
    bare_run c =
        execute rt.stack rt.providers rt.encode rt.endpoints rt.fuel
          (call_prog rt.encode rt.endpoints r bindata) (set_ctx s c)

    message_run : Context → Exec
    message_run c = finish rt.encode (bare_run c)

-- The response to one message is the one that its id and the outcome of its run ask for.
pub process_rpc_message-Replies :
    (rt : Runtime) (tr : Transport) (r : RpcRequest) (bindata : Option Text) (s : State)
    → Replies rt.encode r.id
        (run_message rt tr r bindata s).0
        (process_rpc_message rt tr r bindata s).0
unfolding process_rpc_message
process_rpc_message-Replies rt tr r bindata s =
    Replies-response_of rt.encode r.id (run_message rt tr r bindata s).0
      (run_message-Ends rt tr r bindata s)

prepend-before :
    (o : Option Response) (p : Answer (List Response) × State) → prepend o p ≡ (before o p.0, p.1)
prepend-before none (answered rs, s) = refl
prepend-before (some r) (answered rs, s) = refl
prepend-before none (unanswered x, s) = refl
prepend-before (some r) (unanswered x, s) = refl

module _ (json : Json) (rt : Runtime) (tr : Transport) where
  abbrev AnswersTo : List Text → Option Text → State → Answer (List Response) × State → Type 0
  AnswersTo raws b s p = Answers json rt tr raws b s p.0 p.1

  and_then-Answers :
      (raw : Text) (raws : List Text) (b : Option Text) (s : State) (r : RpcRequest)
      (a : Answer (Option Response)) (rest : State → Answer (List Response) × State)
      → json.unmarshal_request raw ≡ some r
      → Replies rt.encode r.id (run_message rt tr r b s).0 a
      → ((s' : State) → AnswersTo raws none s' (rest s'))
      → AnswersTo (raw ∷ raws) b s (and_then (a, (run_message rt tr r b s).1) rest)
  and_then-Answers raw raws b s r (answered o) rest e h k =
      let s1 = (run_message rt tr r b s).1 in
      subst (AnswersTo (raw ∷ raws) b s) (sym (prepend-before o (rest s1)))
        (request raw raws b s _ _ r o e h (k s1))
  and_then-Answers raw raws b s r (unanswered o) rest e h k = interrupted raw raws b s r o e h

  process_one-Answers :
      (raw : Text) (raws : List Text) (o : Option RpcRequest) (b : Option Text) (s : State)
      (rest : Option Text → State → Answer (List Response) × State)
      → json.unmarshal_request raw ≡ o
      → ((b' : Option Text) (s' : State) → AnswersTo raws b' s' (rest b' s'))
      → AnswersTo (raw ∷ raws) b s (process_one rt tr o b s rest)
  unfolding process_one process_rpc_message
  process_one-Answers raw raws none b s rest e k =
      subst (AnswersTo (raw ∷ raws) b s) (sym (prepend-before (some parse_error) (rest b s)))
        (unreadable raw raws b s _ _ e (k b s))
  process_one-Answers raw raws (some r) b s rest e k =
      and_then-Answers raw raws b s r (response_of rt.encode r.id (run_message rt tr r b s).0)
        (λ s'. rest none s') e
        (Replies-response_of rt.encode r.id (run_message rt tr r b s).0
          (run_message-Ends rt tr r b s))
        (k none)

  -- The loop over the messages of a body takes them in their order, each in the state that the one
  -- before it left. A message that is no request gets the parse error without an id. A request gets
  -- what the outcome of its run asks for: a protocol error with its id, another error as an internal
  -- error with its encoded text, the result if it has an id and nothing if it has none. A run that
  -- does not return ends the loop, and its outcome is that of the whole.
  pub process_all-Answers :
      (raws : List Text) (b : Option Text) (s : State)
      → AnswersTo raws b s (process_all json rt tr raws b s)
  unfolding process_all
  process_all-Answers [] b s = no_message b s
  process_all-Answers (raw ∷ raws) b s =
      process_one-Answers raw raws (json.unmarshal_request raw) b s
        (λ b' s'. process_all json rt tr raws b' s') refl (λ b' s'. process_all-Answers raws b' s')
