-- ===== src/Method/Tests.antt =====
-- The theorems on method.handler.go in the small application.
use jonson.Prelude.{false, none, some, List, [], ◌∷◌, ◌≡◌, refl, arith}
use jonson.Text.{codes, text_eq}
use jonson.Value.{is_shareable}
use jonson.Rpc.{Response}
use jonson.Validate.{ok}
use jonson.Context.{new_context, has}
use jonson.Context.Run.{State}
use jonson.Context.Run.Unique.{IsWellFormed}
use jonson.Method.{MethodHandler}
use jonson.Method.Register.{register_method}
use jonson.Method.Register.Laws.{Registered, register_method-Registered}
use jonson.Method.Call.Isolation.{KeepsOwnTypes}
use jonson.Method.Call.Isolated.{RunsIsolated, call_method-RunsIsolated}
use jonson.Method.Messages.{Answer, answered, parse_error, process_all, process_rpc_messages}
use jonson.Method.Messages.Answers.{Answers, process_all-Answers}
use jonson.Method.Messages.Bindata.{hand_out, process_planned, process_all-planned}
use jonson.Method.Messages.Bodies.{empty_list, process_rpc_messages-rejects}
use jonson.Scenario.{
  clear, caller, start, ping, ping_call, ping_request, ping_endpoint, ping_name, runtime, transport,
  toy_json, registry,
}

caller-IsWellFormed : IsWellFormed caller
unfolding caller new_context has
caller-IsWellFormed = record {
  unique = (refl, (refl, (refl, (refl, tt))));
  numbered = (omega arith, (omega arith, (omega arith, (omega arith, tt))));
}

caller-KeepsOwnTypes : KeepsOwnTypes caller.values
unfolding caller new_context is_shareable
caller-KeepsOwnTypes =
    (λ h. absurd (cc h), (λ h. absurd (cc h), (λ h. (refl, refl), (λ h. (refl, refl), tt))))

abbrev caller_state : State
caller_state = record { ctx = caller; publics = []; finalizations = [] }

call_method-RunsIsolated_example :
    RunsIsolated "" [] clear
      ((ping_name, ping_endpoint) ∷ [])
      0
      ping_call
      (codes "null")
      caller_state
call_method-RunsIsolated_example =
    call_method-RunsIsolated "" [] clear ((ping_name, ping_endpoint) ∷ []) 0 ping_call
      (codes "null") caller_state refl caller-IsWellFormed caller-KeepsOwnTypes

abbrev two_messages : Answer (List Response) × State
two_messages = process_all toy_json runtime transport (codes "?" ∷ codes "ping" ∷ []) none start

process_all-Answers_example :
    Answers toy_json runtime transport
      (codes "?" ∷ codes "ping" ∷ [])
      none
      start
      two_messages.0
      two_messages.1
process_all-Answers_example =
    process_all-Answers toy_json runtime transport (codes "?" ∷ codes "ping" ∷ []) none start

process_all-planned_example :
    process_all toy_json runtime transport
      (codes "?" ∷ codes "ping" ∷ codes "ping" ∷ [])
      (some (codes "image"))
      start
    ≡ process_planned runtime transport
        (hand_out toy_json (codes "?" ∷ codes "ping" ∷ codes "ping" ∷ []) (some (codes "image")))
        start
process_all-planned_example =
    process_all-planned toy_json runtime transport (codes "?" ∷ codes "ping" ∷ codes "ping" ∷ [])
      (some (codes "image")) start

-- The bindata goes to the second message, the first that is a request.
ping_plan :
    hand_out toy_json (codes "?" ∷ codes "ping" ∷ codes "ping" ∷ []) (some (codes "image"))
    ≡ none ∷ some (ping_request, some (codes "image")) ∷ some (ping_request, none) ∷ []
unfolding text_eq
ping_plan = refl

no_messages : toy_json.decode_list (codes "[]") ≡ some ([], 2)
unfolding text_eq
no_messages = refl

process_rpc_messages-rejects_example :
    process_rpc_messages toy_json runtime transport (codes "[]") start
    ≡ ((answered (parse_error ∷ []), start), false)
process_rpc_messages-rejects_example =
    process_rpc_messages-rejects toy_json runtime transport (codes "[]") start
      (empty_list (codes "]") 2 no_messages)

abbrev one_endpoint : MethodHandler
one_endpoint = record registry { endpoints = (ping_name, ping_endpoint) ∷ [] }

registered : register_method [] ping registry ≡ ok one_endpoint
unfolding register_method
registered = refl

register_method-Registered_example : Registered ping registry one_endpoint
register_method-Registered_example =
    register_method-Registered [] ping registry one_endpoint registered
