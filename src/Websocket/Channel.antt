-- ===== src/Websocket/Channel.antt =====
-- The channel of a websocket client is a bounded queue (`send` of ws.handler.go).
use jonson.Prelude.{
  ◌≤◌, true, List, [], ◌∷◌, ◌++◌, ◌≡◌, refl, ap, ◌∙◌, arith, append_assoc, append-nil, length,
  length-append,
}
use jonson.Text.{Text}
use jonson.Value.{Request}
use jonson.Context.Run.{State}
use jonson.Method.Messages.{Json, Runtime}
use jonson.Http.{Payload}
use jonson.Websocket.{
  WebsocketOptions, WsClient, new_ws_client, capacity, Step, read, read_fails, process, panics,
  notify, send, write, write_fails, ping, ping_fails, Steps, here, later,
}

-- What holds of the channel and the connection at all times.
pub record IsChannel (c : WsClient) : Type 0 where
  pub bounded : length c.queue ≤ capacity
  pub in_order : c.sent ≡ c.written ++ c.dropped ++ c.queue
  pub lost : length c.dropped ≤ 1
  pub kept : c.writing ≡ true → c.dropped ≡ []

-- `◌++◌` associates to the left.
taken_next :
    {sent dropped : List Text} (written rest : List Text) (t : Text)
    → dropped ≡ []
    → sent ≡ written ++ dropped ++ t ∷ rest
    → sent ≡ (written ++ t ∷ []) ++ dropped ++ rest
taken_next written rest t d e =
    rw (e, d, append-nil written, append-nil (written ++ t ∷ []), append_assoc)

lost_next :
    {sent dropped : List Text} (written rest : List Text) (t : Text)
    → dropped ≡ []
    → sent ≡ written ++ dropped ++ t ∷ rest
    → sent ≡ written ++ (t ∷ []) ++ rest
lost_next written rest t d e = rw (e, d, append-nil, append_assoc)

module _ (marshal : Payload → Text) (json : Json) (rt : Runtime) (req : Request)
    (options : WebsocketOptions) where
  abbrev Moves : WsClient → WsClient → Type 0
  Moves c d = Step marshal json rt req options c d

  Step-IsChannel : {c d : WsClient} → Moves c d → IsChannel c → IsChannel d
  Step-IsChannel (read body x y z w) h = record {
    bounded = h.bounded;
    in_order = h.in_order;
    lost = h.lost;
    kept = h.kept;
  }
  Step-IsChannel (read_fails x y) h = record {
    bounded = h.bounded;
    in_order = h.in_order;
    lost = h.lost;
    kept = h.kept;
  }
  Step-IsChannel (process i body rs s batch x y z) h = record {
    bounded = h.bounded;
    in_order = h.in_order;
    lost = h.lost;
    kept = h.kept;
  }
  Step-IsChannel (panics i body p s batch x y z) h = record {
    bounded = h.bounded;
    in_order = h.in_order;
    lost = h.lost;
    kept = h.kept;
  }
  Step-IsChannel (notify text x) h = record {
    bounded = h.bounded;
    in_order = h.in_order;
    lost = h.lost;
    kept = h.kept;
  }
  Step-IsChannel {c} (send i text x y room) h = record {
    bounded = omega (arith, length-append c.queue (text ∷ []));
    in_order =
        ap (λ l. l ++ text ∷ []) h.in_order
        ∙ append_assoc (c.written ++ c.dropped) c.queue (text ∷ []);
    lost = h.lost;
    kept = h.kept;
  }
  Step-IsChannel {c} (write text rest x y z e) h = record {
    bounded = omega (arith, h.bounded, ap length e);
    in_order =
        taken_next c.written rest text (h.kept y)
          (h.in_order ∙ ap (λ q. c.written ++ c.dropped ++ q) e);
    lost = h.lost;
    kept = h.kept;
  }
  Step-IsChannel {c} (write_fails text rest x y e) h = record {
    bounded = omega (arith, h.bounded, ap length e);
    in_order =
        lost_next c.written rest text (h.kept y)
          (h.in_order ∙ ap (λ q. c.written ++ c.dropped ++ q) e);
    lost = omega arith;
    kept = λ q. cc;
  }
  Step-IsChannel (ping x y z) h = h
  Step-IsChannel (ping_fails x y) h = record {
    bounded = h.bounded;
    in_order = h.in_order;
    lost = h.lost;
    kept = λ q. cc;
  }

  new_ws_client-IsChannel : (s : State) → IsChannel (new_ws_client s)
  unfolding new_ws_client
  new_ws_client-IsChannel s = record {
    bounded = omega arith;
    in_order = refl;
    lost = omega arith;
    kept = λ q. refl;
  }

  -- From a new client on, by any steps of any of its goroutines in any order, the channel holds at
  -- most 512 texts, what was written, lost and still waits is exactly what was sent in the same
  -- order, and at most one text was lost, none while the writer is at work.
  pub Steps-IsChannel :
      (s : State) {c : WsClient}
      → Steps marshal json rt req options (new_ws_client s) c
      → IsChannel c
  Steps-IsChannel s here = new_ws_client-IsChannel s
  Steps-IsChannel s (later steps step) = Step-IsChannel step (Steps-IsChannel s steps)
