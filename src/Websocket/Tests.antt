-- ===== src/Websocket/Tests.antt =====
-- The theorems on websocket clients at work in the small application.
use jonson.Prelude.{ℕ, zero, suc, false, some, List, [], ◌∷◌, ◌++◌, ◌≡◌, refl, arith, length}
use jonson.Text.{Text, codes}
use jonson.Context.Run.{nth, update}
use jonson.Http.{Payload}
use jonson.Websocket.{
  WebsocketOptions, new_websocket_options, WsClient, new_ws_client, capacity, sending, finished,
  Step, notify, send, write_fails, Steps, here, later, cut, split_n, has_prefix,
}
use jonson.Websocket.Channel.{IsChannel, Steps-IsChannel}
use jonson.Websocket.Delivery.{IsLive, delivered}
use jonson.Websocket.Stuck.{IsStuck, Steps-IsStuck}
use jonson.Scenario.{runtime, toy_json, start, post}

abbrev to_json : Payload → Text
to_json p = codes "{}"

abbrev options : WebsocketOptions
options = new_websocket_options

abbrev Moves : WsClient → WsClient → Type 0
Moves c d = Step to_json toy_json runtime post options c d

abbrev Runs : WsClient → WsClient → Type 0
Runs c d = Steps to_json toy_json runtime post options c d

abbrev hello : Text
hello = codes "hello"

abbrev client : WsClient
client = new_ws_client start

-- One notification waits for the channel.
abbrev waiting : WsClient
waiting = record client { tasks = sending hello ∷ [] }

abbrev queued : WsClient
queued = record waiting { tasks = finished ∷ []; queue = hello ∷ []; sent = hello ∷ [] }

-- The write of it fails.
abbrev broken : WsClient
broken = record queued { queue = []; dropped = hello ∷ []; writing = false; is_open = false }

Runs-waiting : Runs client waiting
unfolding new_ws_client
Runs-waiting = later here (notify hello refl)

Runs-queued : Runs client queued
unfolding new_ws_client nth update
Runs-queued = later Runs-waiting (send 0 hello refl refl (omega arith))

Runs-broken : Runs client broken
unfolding new_ws_client
Runs-broken = later Runs-queued (write_fails hello [] refl refl refl)

Steps-IsChannel_example : IsChannel broken
Steps-IsChannel_example =
    Steps-IsChannel to_json toy_json runtime post options start {c = broken} Runs-broken

waiting-IsLive : IsLive waiting
unfolding new_ws_client
waiting-IsLive = record { no_crash = refl; writes = refl; opened = refl }

waits_first : nth 0 waiting.tasks ≡ some (sending hello)
unfolding nth
waits_first = refl

delivered_example :
    (d : WsClient) × Runs waiting d
    × d.written ≡ waiting.written ++ waiting.queue ++ hello ∷ []
    × IsLive d
delivered_example =
    delivered to_json toy_json runtime post options 0 hello waiting waiting-IsLive waits_first

-- A channel with no room.
unfoldable copies : ℕ → List Text
copies zero = []
copies (suc n) = hello ∷ copies n

length-copies : (n : ℕ) → length (copies n) ≡ n
unfolding copies
length-copies zero = refl
length-copies (suc n) = omega (arith, length-copies n)

abbrev stuck : WsClient
stuck = record waiting { queue = copies capacity; writing = false; is_open = false }

abbrev stuck_two : WsClient
stuck_two = record stuck { tasks = sending hello ∷ sending hello ∷ [] }

stuck-IsStuck : IsStuck 0 hello stuck
unfolding nth
stuck-IsStuck = record {
  stopped = refl;
  full = omega (arith, length-copies capacity);
  waits = refl;
}

Steps-IsStuck_example : IsStuck 0 hello stuck_two
unfolding new_ws_client
Steps-IsStuck_example =
    Steps-IsStuck to_json toy_json runtime post options 0 hello {c = stuck} {d = stuck_two}
      (later {d = stuck} {e = stuck_two} here (notify hello refl)) stuck-IsStuck

split_two : split_n 2 (codes ", ") (codes "a, b, c") ≡ codes "a" ∷ codes "b, c" ∷ []
unfolding split_n cut has_prefix
split_two = refl
