-- ===== src/Websocket/Handler.antt =====
-- src/websocket/handler.rs: the upgrade of a request, the loop of a connection, and /health. The
-- socket and serde_json are arguments; a round of the `select!` loop is one `Input`.
pub mod Loop
pub mod Access
pub mod Closing
pub mod Heartbeat
use alert_distributor.Base.{
  ℕ, ◌-◌, Bool, Option, none, some, List, [], ◌∷◌, leb, is_empty, if◌then◌else◌,
}
use alert_distributor.Text.{Text}
use alert_distributor.Permissions.Cache.{State}
use alert_distributor.Permissions.Cache.Read.{units_for, counts, ControlPlaneCounts}
use alert_distributor.Kafka.ControlPlane.Consumer.{ControlPlaneHealth}
use alert_distributor.Errors.{AppResult, ok, err}
use alert_distributor.Websocket.Auth.{AuthContext, JwtClaims, validate_bearer}
use alert_distributor.Websocket.Registry.{RegistryState, add_connection, remove_connection}

pub data WsResponse : Type 0 where
  unauthorized forbidden : WsResponse
  upgrade : AuthContext → List ℕ → WsResponse

module _ (decode : Text → AppResult JwtClaims) (parse_uuid : Text → Option ℕ) where
  authorize : AuthContext → State → WsResponse
  authorize context cache =
      let units = units_for cache context.organization_id context.user_id in
      if is_empty units then forbidden else upgrade context units

  respond : AppResult AuthContext → State → WsResponse
  unfolding authorize
  respond (err e) cache = unauthorized
  respond (ok context) cache = authorize context cache

  -- The header is `none` when it is missing or not text.
  unfoldable pub ws_handler : Option Text → State → WsResponse
  unfolding respond
  ws_handler none cache = unauthorized
  ws_handler (some auth_header) cache =
      respond (validate_bearer decode parse_uuid auth_header) cache

-- The messages that the loop sends.
pub data Frame : Type 0 where
  text_frame : Text → Frame
  ping_frame pong_frame : List ℕ → Frame

-- What the peer sends: a message, an error, or the end of the stream.
pub data Incoming : Type 0 where
  close pong text_message binary_message failed ended : Incoming
  ping : List ℕ → Incoming

-- A branch of `select!`, with the time where the branch reads the clock.
pub data Input (Message : Type 0) : Type 0 where
  outbound : Option Message → Input Message
  incoming : Incoming → ℕ → Input Message
  tick : ℕ → Input Message

pub record Transport (Message : Type 0) : Type 1 where
  pub Socket : Type 0
  pub send : Frame → Socket → Option Socket
  pub to_string : Message → Option Text

module _ {Message : Type 0} (transport : Transport Message) (heartbeat_timeout : ℕ) where
  pub record Live : Type 0 where
    pub socket : transport.Socket
    pub last_pong : ℕ

  -- `none` stands for `break`.
  send_or_break : Frame → Live → Option Live
  send_or_break frame live = elim (transport.send frame live.socket) [
    | none ↦ none
    | some socket ↦ some (record live { socket = socket })
  ]

  send_serialized : Option Text → Live → Option Live
  unfolding send_or_break
  send_serialized none live = some live
  send_serialized (some payload) live = send_or_break (text_frame payload) live

  on_incoming : Incoming → ℕ → Live → Option Live
  unfolding send_or_break
  on_incoming close now live = none
  on_incoming (ping payload) now live = send_or_break (pong_frame payload) live
  on_incoming pong now live = some (record live { last_pong = now })
  on_incoming text_message now live = some live
  on_incoming binary_message now live = some live
  on_incoming failed now live = none
  on_incoming ended now live = none

  unfoldable pub socket_step : Input Message → Live → Option Live
  unfolding send_serialized on_incoming send_or_break
  socket_step (outbound none) live = none
  socket_step (outbound (some message)) live = send_serialized (transport.to_string message) live
  socket_step (incoming message now) live = on_incoming message now live
  socket_step (tick now) live =
      if leb heartbeat_timeout (now - live.last_pong)
      then none
      else send_or_break (ping_frame []) live

  unfoldable pub socket_loop : List (Input Message) → Live → Option Live
  socket_loop [] live = some live
  socket_loop (input ∷ inputs) live = elim (socket_step input live) [
    | none ↦ none
    | some live' ↦ socket_loop inputs live'
  ]

  -- `others` is what the other tasks make of the registry while the loop runs.
  unfoldable pub handle_socket :
      {Sender : Type 0}
      → ℕ
      → AuthContext
      → List ℕ
      → Sender
      → List (Input Message)
      → Live
      → (RegistryState Sender → RegistryState Sender)
      → RegistryState Sender
      → RegistryState Sender
  handle_socket connection_id auth units sender inputs live others registry =
      let running =
        others
          (add_connection connection_id auth.user_id auth.organization_id units sender registry) in
      elim (socket_loop inputs live) [
        | some open' ↦ running
        | none ↦ (remove_connection connection_id running).1
      ]

pub record HealthReport : Type 0 where
  pub status : ℕ
  pub ok : Bool
  pub applied_offset : ℕ
  pub lag : ℕ
  pub counts : ControlPlaneCounts

unfoldable pub health_handler : ControlPlaneHealth → State → HealthReport
health_handler health cache = record {
  status = if health.ok then 200 else 503;
  ok = health.ok;
  applied_offset = health.applied_offset;
  lag = health.lag;
  counts = counts cache;
}
