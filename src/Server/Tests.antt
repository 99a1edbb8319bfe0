-- ===== src/Server/Tests.antt =====
-- The theorem on the server in the small application.
use jonson.Prelude.{none, [], ◌≡◌, refl}
use jonson.Text.{codes, text_eq}
use jonson.Value.{Request}
use jonson.Method.Messages.{answered}
use jonson.Http.{handle_rpc, passed, handled, plain_reply, Payload}
use jonson.Server.{Handler}
use jonson.Scenario.{runtime, toy_json, start}

abbrev rpc_handler : Handler
rpc_handler = handle_rpc (λ (p : Payload). []) toy_json runtime (codes "/rpc")

abbrev elsewhere : Request
elsewhere = record { method = codes "GET"; path = codes "/index.html"; body = none }

rpc_handler_passes : rpc_handler elsewhere start ≡ (passed, start)
unfolding handle_rpc text_eq
rpc_handler_passes = refl

-- A handler for everything.
abbrev teapot : Handler
teapot req s = (handled (answered (plain_reply 418 [])), s)
