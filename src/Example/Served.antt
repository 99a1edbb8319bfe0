-- ===== src/Example/Served.antt =====
-- The example application as a client sees it: from `main` over the server, the factory and the
-- procedure to the reply.
use jonson.Prelude.{ℕ, String, Option, [], ◌∷◌}
use jonson.Text.{Text, codes}
use jonson.Value.{Request}
use jonson.Context.Run.{State}
use jonson.Method.Messages.{Json, Runtime, Answer}
use jonson.Http.{Payload, HttpReply, handle_rpc, handle_method}
use jonson.Server.{serve_http}
use jonson.Example.{Application}

abbrev pub me_request : Text → Option Text → Request
me_request method body = record { method = method; path = codes "/account/me.v1"; body = body }

module _ (stack : String) (encode : Text → Text) (marshal : Payload → Text) (json : Json)
    (fuel : ℕ) where
  abbrev pub runtime_of : Application → Runtime
  runtime_of app = record {
    stack = stack;
    providers = app.providers;
    encode = encode;
    endpoints = app.handler.endpoints;
    fuel = fuel;
  }

  -- `NewServer(rpc, httpMethod)`
  abbrev pub serve : Application → Request → State → Answer HttpReply × State
  serve app = serve_http (
      handle_rpc marshal json (runtime_of app) (codes "/rpc")
      ∷ handle_method marshal json (runtime_of app)
      ∷ [])
