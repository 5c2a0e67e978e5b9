-- ===== src/Websocket/Tests.antt =====
-- Each theorem about the WebSocket side at an input.
use alert_distributor.Base.{
  arith, ℕ, ◌≡◌, refl, ◌↔◌, false, none, some, List, [], ◌∷◌, ◌++◌, map, nat_eq, pair_eq, list_eq,
  contains, if◌then◌else◌, ◌==◌,
}
use alert_distributor.HashMap.{get, insert, remove, holds_for}
use alert_distributor.Errors.{AppResult, ok, err, jwt}
use alert_distributor.Text.{Text, text, strip_prefix}
use alert_distributor.Websocket.Fixtures.{channels, alert, parse_uuid, two, two-IsIndexed}
use alert_distributor.Websocket.Registry.{
  RegistryState, add_connection, senders_for_unit, push_at, push_all,
}
use alert_distributor.Websocket.Registry.Invariant.{IsIndexed, contains-senders_for_unit}
use alert_distributor.Websocket.Dispatcher.{
  SendResult, accepted, closed, client_message, dispatch_event,
}
use mathlib.Core.List.{Memᴰ}
use alert_distributor.Websocket.Registry.Own.{IsOwn}
use alert_distributor.Websocket.Dispatcher.Sends.{attempts, Delivers, dispatch_event-Delivers}
use alert_distributor.Websocket.Auth.{AuthContext, JwtClaims, validate_bearer}
use alert_distributor.Websocket.Auth.Bearer.{Authorizes, validate_bearer_ok}
use alert_distributor.Websocket.Handler.{
  Frame, text_frame, ping_frame, pong, Input, outbound, incoming, tick, Transport, Live,
  socket_step, socket_loop, handle_socket,
}
use alert_distributor.Websocket.Handler.Loop.{IsOpen, socket_loop-IsOpen}
use alert_distributor.Websocket.Handler.Heartbeat.{heartbeat_closes}
use alert_distributor.Websocket.Handler.Closing.{handle_socket_closes}

contains-senders_for_unit_example :
    contains 100 (map (λ t. t.0) (senders_for_unit 11 two))
    ≡ holds_for (λ c. contains 11 c.unit_ids) (get 100 two.connections)
contains-senders_for_unit_example = contains-senders_for_unit 11 100 two two-IsIndexed

-- Connection 100 is closed, and 101 gets the alert.
dispatch_event-Delivers_example :
    (tried : List (ℕ × SendResult)) × ((id : ℕ)
      → contains id (map (λ t. t.0) tried)
        ≡ holds_for (λ c. contains 11 c.unit_ids) (get id two.connections))
    × (tried ≡ attempts channels (senders_for_unit 11 two) (client_message alert) 0)
    × ((id sender : ℕ)
        → Memᴰ {A = ℕ × ℕ} (id, sender) (senders_for_unit 11 two)
        → IsOwn two 11 id sender)
    × Delivers channels tried
        (record { registry = two; buffers = 0; sent_count = 0 })
        (dispatch_event channels parse_uuid alert two 0)
dispatch_event-Delivers_example =
    dispatch_event-Delivers channels parse_uuid alert two 0 11 refl two-IsIndexed

tried_both :
    attempts channels (senders_for_unit 11 two) (client_message alert) 0
    ≡ (100, closed) ∷ (101, accepted) ∷ []
unfolding senders_for_unit get add_connection insert remove push_all push_at
tried_both = refl

abbrev claims : JwtClaims
claims = record {
  sub = some (text "unit-11");
  user_id = none;
  organization_id = some (text "unit-11");
  exp = 5;
}

abbrev decode : Text → AppResult JwtClaims
decode token = if token == text "good" then ok claims else err (jwt (text "bad"))

abbrev person : AuthContext
person = record { user_id = 11; organization_id = 11 }

validate_bearer_ok_example :
    (validate_bearer decode parse_uuid (text "bearer good") ≡ ok person)
    ↔ Authorizes decode parse_uuid (text "bearer good") person
validate_bearer_ok_example = validate_bearer_ok decode parse_uuid (text "bearer good") person

accepts : validate_bearer decode parse_uuid (text "bearer good") ≡ ok person
unfolding validate_bearer strip_prefix
accepts = refl

-- The socket is the list of the frames sent; messages are texts.
abbrev transport : Transport Text
transport = record {
  Socket = List Frame;
  send = λ frame sent. some (sent ++ frame ∷ []);
  to_string = λ message. some message;
}

abbrev fresh : Live transport 60
fresh = record { socket = []; last_pong = 0 }

abbrev rounds : List (Input Text)
rounds = tick 30 ∷ incoming pong 31 ∷ outbound (some (text "alert")) ∷ tick 60 ∷ []

abbrev later : Live transport 60
later = record {
  socket = ping_frame [] ∷ text_frame (text "alert") ∷ ping_frame [] ∷ [];
  last_pong = 31;
}

socket_loop-IsOpen_example :
    (socket_loop transport 60 rounds fresh ≡ some later) ↔ IsOpen transport 60 rounds fresh later
socket_loop-IsOpen_example = socket_loop-IsOpen transport 60 rounds fresh later

stays_open : socket_loop transport 60 rounds fresh ≡ some later
unfolding socket_loop socket_step
stays_open = refl

abbrev pong_at_61 : List (Input Text)
pong_at_61 = incoming pong 61 ∷ []

-- No pong comes within 60 seconds.
abbrev silent : List (Input Text)
silent = tick 30 ∷ tick 60 ∷ []

heartbeat_closes_example : socket_loop transport 60 (tick 30 ∷ tick 60 ∷ pong_at_61) fresh ≡ none
heartbeat_closes_example =
    heartbeat_closes transport 60 (tick 30 ∷ []) pong_at_61 fresh 60 (omega arith)

handle_socket_closes_example :
    (after : RegistryState ℕ) × (after
      ≡ handle_socket transport 60 102 person (11 ∷ []) 902 silent fresh (λ r. r) two)
    × IsIndexed after
    × (get 102 after.connections ≡ none)
    × ((unit : ℕ) → contains 102 (map (λ t. t.0) (senders_for_unit unit after)) ≡ false)
unfolding get add_connection insert remove socket_loop socket_step
handle_socket_closes_example =
    handle_socket_closes transport 60 102 person (11 ∷ []) 902 silent fresh (λ r. r) two refl
      two-IsIndexed (λ r v. v) refl
