-- ===== src/Method/Messages/Bodies.antt =====
-- The bodies that hold no message (`processRpcMessages` of method.handler.go).
use jonson.Prelude.{ℕ, false, none, some, [], ◌∷◌, ◌≡◌, refl, ap, ◌==◌}
use jonson.Text.{Text}
use jonson.Context.Run.{State}
use jonson.Method.Messages.{
  Json, Transport, Runtime, answered, parse_error, messages_of, process_body, process_rpc_messages,
}

-- The bodies that are no message and no batch of messages.
pub data IsRejected (json : Json) : Text → Type 0 where
  empty_body : IsRejected json []
  other_body :
      (c : ℕ) (cs : Text) → (c == b'[') ≡ false → (c == b'{') ≡ false → IsRejected json (c ∷ cs)
  bad_list : (cs : Text) → json.decode_list (b'[' ∷ cs) ≡ none → IsRejected json (b'[' ∷ cs)
  empty_list :
      (cs : Text) (off : ℕ)
      → json.decode_list (b'[' ∷ cs) ≡ some ([], off)
      → IsRejected json (b'[' ∷ cs)
  bad_object : (cs : Text) → json.decode_raw (b'{' ∷ cs) ≡ none → IsRejected json (b'{' ∷ cs)

messages_of-IsRejected :
    (json : Json) (body : Text) → IsRejected json body → messages_of json body ≡ none
unfolding messages_of
messages_of-IsRejected json [] empty_body = refl
messages_of-IsRejected json (_) (other_body c cs h k) = rw (h, k) refl
messages_of-IsRejected json (_) (bad_list cs h) = rw h refl
messages_of-IsRejected json (_) (empty_list cs off h) = rw h refl
messages_of-IsRejected json (_) (bad_object cs h) = rw h refl

-- A body that is empty, that starts neither an array nor an object, that does not parse, or that
-- is an empty array: nothing is called, nothing changes, and the only response is the parse error
-- without an id, not as a batch.
pub process_rpc_messages-rejects :
    (json : Json) (rt : Runtime) (tr : Transport) (body : Text) (s : State)
    → IsRejected json body
    → process_rpc_messages json rt tr body s ≡ ((answered (parse_error ∷ []), s), false)
unfolding process_rpc_messages process_body
process_rpc_messages-rejects json rt tr body s h =
    ap (λ m. process_body json rt tr m s) (messages_of-IsRejected json body h)
