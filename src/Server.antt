-- ===== src/Server.antt =====
-- server.go: the handlers of a server, tried one after the other.
use jonson.Prelude.{List, [], ◌∷◌, ◌++◌, ◌≡◌, refl, sym, ap, ◌∙◌, All, append-nil}
use jonson.Value.{Request}
use jonson.Method.Messages.{Answer, answered}
use jonson.Context.Run.{State}
use jonson.Http.{Handling, passed, handled, HttpReply, plain_reply, status_not_found}
mod Tests

-- `Handler`
abbrev pub Handler : Type 0
Handler = Request → State → Handling × State

-- A handler that returns true ends the loop.
abbrev pub or_else :
    Handling × State → (State → Answer HttpReply × State) → Answer HttpReply × State
or_else (handled a, s) rest = (a, s)
or_else (passed, s) rest = rest s

-- `Server.ServeHTTP`
unfoldable pub serve_http : List Handler → Request → State → Answer HttpReply × State
serve_http [] req s = (answered (plain_reply status_not_found []), s)
serve_http (h ∷ hs) req s = or_else (h req s) (λ s'. serve_http hs req s')

-- The handler leaves the request to others, and the state as it is.
abbrev pub Passes : Request → State → Handler → Type 0
Passes req s h = h req s ≡ (passed, s)

-- Handlers that leave a request alone do not matter to it.
serve_http-append :
    (hs rest : List Handler) (req : Request) (s : State)
    → All (Passes req s) hs
    → serve_http (hs ++ rest) req s ≡ serve_http rest req s
unfolding serve_http
serve_http-append [] rest req s p = refl
serve_http-append (h ∷ hs) rest req s p =
    ap (λ x. or_else x (λ s'. serve_http (hs ++ rest) req s')) p.0
    ∙ serve_http-append hs rest req s p.1

-- Behind handlers that leave a request alone, a handler that takes it answers it, whatever handlers
-- come behind; without one the request is answered with status 404 and an empty body.
pub serve_http-first :
    (hs : List Handler) (req : Request) (s : State) (h : Handler) (rest : List Handler)
    (a : Answer HttpReply) (s' : State)
    → All (Passes req s) hs
    → h req s ≡ (handled a, s')
    → (serve_http (hs ++ h ∷ rest) req s ≡ (a, s'))
      × (serve_http hs req s ≡ (answered (plain_reply status_not_found []), s))
unfolding serve_http
serve_http-first hs req s h rest a s' p e = (
  serve_http-append hs (h ∷ rest) req s p ∙ ap (λ x. or_else x (λ s''. serve_http rest req s'')) e,
  ap (λ l. serve_http l req s) (sym (append-nil hs)) ∙ serve_http-append hs [] req s p,
)
