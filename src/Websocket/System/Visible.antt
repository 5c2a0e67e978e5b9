-- ===== src/Websocket/System/Visible.antt =====
-- Who an alert reaches, and what stays well formed, in every state that the system can reach.
use mathlib.Core.List.{Memᴰ}
use alert_distributor.Base.{ℕ, ◌≡◌, sym, ap, ◌∙◌, true, Option, nat_eq, contains}
use alert_distributor.Text.{Text}
use alert_distributor.Errors.{AppResult}
use alert_distributor.Permissions.Cache.{State}
use alert_distributor.Permissions.Cache.Read.{units_for}
use alert_distributor.Permissions.Cache.Invariant.{Inv}
use alert_distributor.Kafka.ControlPlane.{Serde}
use alert_distributor.Websocket.Auth.{JwtClaims}
use alert_distributor.Websocket.Handler.Access.{Grants, ws_handler-Grants}
use alert_distributor.Websocket.Registry.Invariant.{IsIndexed}
use alert_distributor.Websocket.Dispatcher.{ClientAlertMessage, Channels}
use alert_distributor.Websocket.System.{Opening, Sent, System, Reach}
use alert_distributor.Websocket.System.Safety.{reach-Safe}

module _ {Value Time : Type 0} (serde : Serde) (decode : Text → AppResult JwtClaims)
    (parse_uuid : Text → Option ℕ) (channels : Channels (ClientAlertMessage Value Time)) where
  open channels use {Sender}

  -- The channel is that of a connection, which was let in by a handshake that read a well-formed cache, in which its user sees
  -- the unit.
  pub record WasVisible (s : System Value Time Sender) (x : Sent Sender) : Type 0 where
    pub opening : Opening Sender
    pub was_opened : Memᴰ opening s.opened
    pub same_id : opening.connection_id ≡ x.connection_id
    pub same_channel : opening.sender ≡ x.sender
    pub well_formed : Inv opening.cache
    pub auth_header : Option Text
    pub granted : Grants decode parse_uuid auth_header opening.cache opening.context opening.units
    pub sees :
        contains x.unit
          (units_for opening.cache opening.context.organization_id opening.context.user_id)
        ≡ true

  -- In every state that the system of handshakes, connections, alert and cache writers can reach
  -- from a well-formed cache, in any interleaving, an alert of a unit was accepted only by the
  -- channel that belongs to the connection it was sent to, whose handshake was granted on a
  -- well-formed cache of the past in which `units_for` shows the unit to the user of its token.
  pub sent-WasVisible :
      (cache : State) (s : System Value Time Sender) (x : Sent Sender)
      → Inv cache
      → Reach serde decode parse_uuid channels cache s
      → Memᴰ x s.sent
      → WasVisible s x
  sent-WasVisible cache s x v r m =
      let safe = reach-Safe serde decode parse_uuid channels cache v r in
      let o = safe.delivered x m in
      let a = safe.admitted o.opening o.was_opened in
      let g =
        ws_handler-Grants decode parse_uuid a.auth_header o.opening.cache o.opening.context
          o.opening.units a.upgraded in
      record {
        opening = o.opening;
        was_opened = o.was_opened;
        same_id = o.same_id;
        same_channel = o.same_channel;
        well_formed = a.well_formed;
        auth_header = a.auth_header;
        granted = g;
        sees = ap (contains x.unit) (sym g.subscribed) ∙ o.has_unit;
      }

  -- In every state that the system can reach from a well-formed cache, in any interleaving of
  -- connections that open and close, sends, and writes of the cache, the indexes of the registry
  -- agree with its connections, and the cache is well formed.
  pub reach-IsIndexed :
      (cache : State) (s : System Value Time Sender)
      → Inv cache
      → Reach serde decode parse_uuid channels cache s
      → IsIndexed s.registry × Inv s.cache
  reach-IsIndexed cache s v r =
      let safe = reach-Safe serde decode parse_uuid channels cache v r in
      (safe.indexed, safe.lived s.cache safe.now)
