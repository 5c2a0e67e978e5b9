-- ===== src/Websocket/System.antt =====
-- The WebSocket side as one system: handshakes, connections that open and close, the one alert that
-- the consumer is handing out, and the writers of the cache, interleaved in any order. Each step is
-- what a task does under one lock, or between two.
pub mod Openings
pub mod Safety
pub mod Visible
mod Tests
use mathlib.Core.List.{Memᴰ}
use alert_distributor.Base.{ℕ, ◌≡◌, Option, none, some, List, [], ◌∷◌, nat_eq, if◌then◌else◌}
use alert_distributor.HashMap.{get}
use alert_distributor.Text.{Text}
use alert_distributor.Errors.{AppResult}
use alert_distributor.Models.AlertEvent.{AlertEvent}
use alert_distributor.Permissions.Cache.{State}
use alert_distributor.Permissions.Cache.Write.{deactivate_device}
use alert_distributor.Kafka.ControlPlane.{Serde, apply_event}
use alert_distributor.Websocket.Auth.{AuthContext, JwtClaims}
use alert_distributor.Websocket.Handler.{upgrade, ws_handler}
use alert_distributor.Websocket.Registry.{
  RegistryState, no_connections, add_connection, remove_connection, senders_for_unit,
}
use alert_distributor.Websocket.Dispatcher.{
  ClientAlertMessage, client_message, SendResult, accepted, full, closed, drop_closed, Channels,
}

-- A connection that was opened, with its channel and the cache that its handshake read.
pub record Opening (Sender : Type 0) : Type 0 where
  pub connection_id : ℕ
  pub context : AuthContext
  pub units : List ℕ
  pub sender : Sender
  pub cache : State

-- What is left of `dispatch_event` once it has its targets.
pub record Flight (Value Time Sender : Type 0) : Type 0 where
  pub unit : ℕ
  pub targets : List (ℕ × Sender)
  pub message : ClientAlertMessage Value Time

-- A send that a channel accepted: for which target, of which unit, on which channel.
pub record Sent (Sender : Type 0) : Type 0 where
  pub connection_id : ℕ
  pub unit : ℕ
  pub sender : Sender

-- `past` has every value of the cache, `opened` every connection, and `sent` every send that a
-- channel accepted.
pub record System (Value Time Sender : Type 0) : Type 0 where
  pub cache : State
  pub past : List State
  pub registry : RegistryState Sender
  pub flight : Option (Flight Value Time Sender)
  pub opened : List (Opening Sender)
  pub sent : List (Sent Sender)

abbrev pub init : {Value Time Sender : Type 0} → State → System Value Time Sender
init cache = record {
  cache = cache;
  past = cache ∷ [];
  registry = no_connections;
  flight = none;
  opened = [];
  sent = [];
}

abbrev pub note_sent :
    {Sender : Type 0} → Sent Sender → SendResult → List (Sent Sender) → List (Sent Sender)
note_sent x accepted sent = x ∷ sent
note_sent x full sent = sent
note_sent x closed sent = sent

module _ {Value Time : Type 0} (serde : Serde) (decode : Text → AppResult JwtClaims)
    (parse_uuid : Text → Option ℕ) (channels : Channels (ClientAlertMessage Value Time)) where
  open channels use {Sender}

  abbrev pub write_cache : State → System Value Time Sender → System Value Time Sender
  write_cache cache s = record s { cache = cache; past = cache ∷ s.past }

  -- `handle_socket` runs some time behind the handshake, which read one of the past caches. The
  -- result of a send is whatever the channel gives.
  pub data Step (s : System Value Time Sender) : System Value Time Sender → Type 0 where
    apply : (payload : List ℕ) → Step s (write_cache (apply_event serde payload s.cache).1 s)
    retire : (device_id : ℕ) → Step s (write_cache (deactivate_device device_id s.cache).1 s)
    connect :
        (auth_header : Option Text) (o : Opening Sender)
        → Memᴰ o.cache s.past
        → ws_handler decode parse_uuid auth_header o.cache ≡ upgrade o.context o.units
        → get o.connection_id s.registry.connections ≡ none
        → Step s (record s {
          registry =
              add_connection o.connection_id o.context.user_id o.context.organization_id o.units
                o.sender s.registry;
          opened = o ∷ s.opened;
        })
    disconnect : (id : ℕ) → Step s (record s { registry = (remove_connection id s.registry).1 })
    receive :
        (event : AlertEvent Value Time) (unit : ℕ)
        → s.flight ≡ none
        → parse_uuid event.unit_id ≡ some unit
        → Step s (record s {
          flight = some (record {
            unit = unit;
            targets = senders_for_unit unit s.registry;
            message = client_message event;
          });
        })
    send :
        (unit id : ℕ) (sender : Sender) (targets : List (ℕ × Sender))
        (message : ClientAlertMessage Value Time) (result : SendResult)
        → s.flight
          ≡ some (record { unit = unit; targets = (id, sender) ∷ targets; message = message })
        → Step s (record s {
          registry = drop_closed channels id result s.registry;
          flight = some (record { unit = unit; targets = targets; message = message });
          sent =
              note_sent (record { connection_id = id; unit = unit; sender = sender }) result s.sent;
        })
    finish :
        (unit : ℕ) (message : ClientAlertMessage Value Time)
        → s.flight ≡ some (record { unit = unit; targets = []; message = message })
        → Step s (record s { flight = none })

  pub data Reach (cache : State) : System Value Time Sender → Type 0 where
    start : Reach cache (init cache)
    later : {s t : System Value Time Sender} → Reach cache s → Step s t → Reach cache t
