-- ===== src/Websocket/Server.antt =====
-- src/websocket/mod.rs, `run_server`: the routes and the listener. axum and the network are
-- arguments.
use alert_distributor.Base.{List, [], ◌∷◌}
use alert_distributor.Text.{Text, text}
use alert_distributor.Errors.{AppResult, ◌>>=◌, Attempt, map_err, http_server}

pub data Handler : Type 0 where
  ws_handler health_handler : Handler

-- Each answers GET.
unfoldable pub routes : List (Text × Handler)
routes = (text "/ws", ws_handler) ∷ (text "/health", health_handler) ∷ []

unfoldable pub run_server :
    {Listener : Type 0}
    → (Text → Attempt Listener)
    → (Listener → List (Text × Handler) → Attempt (Unit {0}))
    → Text
    → AppResult (Unit {0})
unfolding routes
run_server bind serve bind_addr = do
  listener ← map_err http_server (bind bind_addr)
  map_err http_server (serve listener routes)
