-- ===== src/Websocket.antt =====
-- ws.handler.go: the handler of websockets and the client of one connection. The goroutines of a
-- client (its reader and writer, one for each message, and those that send notifications) are
-- interleaved step by step. `marshal` is what `json.Marshal` makes of a payload. A message is
-- processed in one step, so the states of two procedures at work are not interleaved.
pub mod Channel
pub mod Delivery
pub mod Stuck
mod Tests
use jonson.Prelude.{
  refl, ℕ, zero, suc, ◌+◌, ◌*◌, ◌/◌, ◌^◌, ◌≤◌, ◌<◌, Bool, true, false, ◌&&◌, not, Option, none,
  some, List, [], ◌∷◌, ◌++◌, ◌≡◌, ◌==◌, length, if◌then◌else◌,
}
use jonson.Text.{Text, codes, text_eq}
use jonson.Value.{Request, ws, rpc_http_method_post}
use jonson.Rpc.{Response}
use jonson.Context.Prog.{Outcome}
use jonson.Context.Run.{State, nth, update}
use jonson.Method.Messages.{
  Json, Transport, Runtime, Answer, answered, unanswered, process_rpc_messages, drop,
}
use jonson.Http.{Payload, single, batch_of}

-- `WebsocketOptions`; durations are in nanoseconds.
pub record WebsocketOptions : Type 0 where
  pub max_message_size : ℕ
  pub ping_period : ℕ
  pub pong_wait : ℕ
  pub write_wait : ℕ

abbrev pub second : ℕ
second = 1000000000

-- `NewWebsocketOptions`
unfoldable pub new_websocket_options : WebsocketOptions
new_websocket_options = record {
  write_wait = 10 * second;
  pong_wait = 60 * second;
  ping_period = 60 * second * 9 / 10;
  max_message_size = 2 ^ 22;
}

-- A goroutine that serves a message or sends a notification.
pub data Task : Type 0 where
  working : Text → Task
  sending : Text → Task
  finished : Task

-- A `WSClient` at work. `sent` and `dropped` are history: the texts that went through the channel
-- in this order, and the one that the writer had taken when its write failed.
pub record WsClient : Type 0 where
  pub reading : Bool
  pub writing : Bool
  pub is_open : Bool
  pub crashed : Bool
  pub tasks : List Task
  pub queue : List Text
  pub state : State
  pub written : List Text
  pub sent : List Text
  pub dropped : List Text

-- the capacity of the channel `send`
abbrev pub capacity : ℕ
capacity = 512

-- `NewWSClient` and `run`
unfoldable pub new_ws_client : State → WsClient
new_ws_client s = record {
  reading = true;
  writing = true;
  is_open = true;
  crashed = false;
  tasks = [];
  queue = [];
  state = s;
  written = [];
  sent = [];
  dropped = [];
}

abbrev pub ws_transport : Request → Transport
ws_transport req = record {
  source = ws;
  http_method = rpc_http_method_post;
  request = req;
  has_ws = true;
}

-- The text that a processed message sends, if any.
unfoldable pub reply_of : (Payload → Text) → Bool → List Response → Task
reply_of marshal batch [] = finished
reply_of marshal false (r ∷ rs) = sending (marshal (single r))
reply_of marshal true (r ∷ rs) = sending (marshal (batch_of (r ∷ rs)))

-- One step of one goroutine, or of the peer.
module _ (marshal : Payload → Text) (json : Json) (rt : Runtime) (req : Request)
    (options : WebsocketOptions) where
  pub data Step (c : WsClient) : WsClient → Type 0 where
    -- the reader's loop
    read :
        (body : Text)
        → c.crashed ≡ false
        → c.reading ≡ true
        → c.is_open ≡ true
        → length body ≤ options.max_message_size
        → Step c (record c { tasks = c.tasks ++ working body ∷ [] })
    read_fails :
        c.crashed ≡ false
        → c.reading ≡ true
        → Step c (record c { reading = false; is_open = false })
    -- the goroutine of a message
    process :
        (i : ℕ) (body : Text) (rs : List Response) (s : State) (batch : Bool)
        → c.crashed ≡ false
        → nth i c.tasks ≡ some (working body)
        → process_rpc_messages json rt (ws_transport req) body c.state ≡ ((answered rs, s), batch)
        → Step c (record c { tasks = update i (reply_of marshal batch rs) c.tasks; state = s })
    -- nothing recovers a panic in such a goroutine: it ends the whole program
    panics :
        (i : ℕ) (body : Text) (p : _) (s : State) (batch : Bool)
        → c.crashed ≡ false
        → nth i c.tasks ≡ some (working body)
        → process_rpc_messages json rt (ws_transport req) body c.state
          ≡ ((unanswered (Outcome.panicked p), s), batch)
        → Step c (record c { crashed = true })
    -- `SendNotification`
    notify :
        (text : Text)
        → c.crashed ≡ false
        → Step c (record c { tasks = c.tasks ++ sending text ∷ [] })
    -- `w.send <- b`
    send :
        (i : ℕ) (text : Text)
        → c.crashed ≡ false
        → nth i c.tasks ≡ some (sending text)
        → length c.queue < capacity
        → Step c (record c {
          tasks = update i finished c.tasks;
          queue = c.queue ++ text ∷ [];
          sent = c.sent ++ text ∷ [];
        })
    -- the writer's loop
    write :
        (text : Text) (rest : List Text)
        → c.crashed ≡ false
        → c.writing ≡ true
        → c.is_open ≡ true
        → c.queue ≡ text ∷ rest
        → Step c (record c { queue = rest; written = c.written ++ text ∷ [] })
    write_fails :
        (text : Text) (rest : List Text)
        → c.crashed ≡ false
        → c.writing ≡ true
        → c.queue ≡ text ∷ rest
        → Step c (record c { queue = rest; dropped = text ∷ []; writing = false; is_open = false })
    ping : c.crashed ≡ false → c.writing ≡ true → c.is_open ≡ true → Step c c
    ping_fails :
        c.crashed ≡ false
        → c.writing ≡ true
        → Step c (record c { writing = false; is_open = false })

  pub data Steps (c : WsClient) : WsClient → Type 0 where
    here : Steps c c
    later : {d e : WsClient} → Steps c d → Step d e → Steps c e

-- What `WebsocketHandler.Handle` does; `upgraded` is whether the connection could be upgraded.
pub data Handling : Type 0 where
  passed refused : Handling
  served : WsClient → Handling

unfoldable pub handle : Text → Bool → Request → State → Handling
unfolding text_eq new_ws_client
handle path upgraded req s =
    if not (text_eq req.path path)
    then passed
    else if upgraded
    then served (new_ws_client s)
    else refused

-- `strings.SplitN` with a separator that is not empty and a count that is not negative
unfoldable pub has_prefix : Text → Text → Bool
has_prefix [] s = true
has_prefix (c ∷ sep) [] = false
has_prefix (c ∷ sep) (d ∷ s) = c == d && has_prefix sep s

abbrev pub cut_behind : ℕ → Option (Text × Text) → Option (Text × Text)
cut_behind c none = none
cut_behind c (some (before, after)) = some (c ∷ before, after)

unfoldable pub cut : Text → Text → Option (Text × Text)
unfolding has_prefix drop
cut sep [] = none
cut sep (c ∷ s) =
    let later_cut = cut sep s in
    if has_prefix sep (c ∷ s) then some ([], drop (length sep) (c ∷ s)) else cut_behind c later_cut

unfoldable pub split_n : ℕ → Text → Text → List Text
unfolding cut
split_n zero sep s = []
split_n (suc zero) sep s = s ∷ []
split_n (suc (suc n)) sep s = elim (cut sep s) [
  | none ↦ s ∷ []
  | some (before, after) ↦ before ∷ split_n (suc n) sep after
]

-- `IPAddress`: the header X-FORWARDED-FOR, empty if it is missing, and the remote address.
abbrev pub first_or : Text → List Text → Text
first_or remote [] = remote
first_or remote (ip ∷ ips) = ip

unfoldable pub ip_address : Text → Text → Text
unfolding split_n
ip_address forwarded remote = first_or remote (split_n 1 (codes ", ") forwarded)

-- The address is the whole header, also where it is missing or a list: a count of 1 does not split.
pub ip_address_unsplit : (forwarded remote : Text) → ip_address forwarded remote ≡ forwarded
unfolding ip_address
ip_address_unsplit forwarded remote = refl
