-- ===== src/Websocket/Dispatcher.antt =====
-- src/websocket/dispatcher.rs: an alert goes to the connections that subscribe to its unit.
pub mod Sends
use alert_distributor.Base.{ℕ, ◌+◌, Bool, Option, none, some, List, [], ◌∷◌}
use alert_distributor.Text.{Text, text}
use alert_distributor.Models.AlertEvent.{AlertEvent, notification_title, notification_body}
use alert_distributor.Websocket.Registry.{RegistryState, senders_for_unit, remove_connection}

-- The field `data` of the source is `payload` here.
pub record ClientAlertMessage (Value Time : Type 0) : Type 0 where
  pub message_type : Text
  pub unit_id : Text
  pub title : Text
  pub body : Text
  pub payload : Value
  pub occurred_at : Time

-- The result of `try_send` of a bounded channel.
pub data SendResult : Type 0 where
  accepted full closed : SendResult

-- tokio's channels: all of them together, and what `try_send` does to one.
pub record Channels (Message : Type 0) : Type 1 where
  pub Sender : Type 0
  pub Buffers : Type 0
  pub try_send : Sender → Message → Buffers → SendResult × Buffers

module _ {Value Time : Type 0} where
  unfoldable pub client_message : AlertEvent Value Time → ClientAlertMessage Value Time
  client_message event = record {
    message_type = text "alert";
    unit_id = event.unit_id;
    title = notification_title event;
    body = notification_body event;
    payload = event.payload;
    occurred_at = event.occurred_at;
  }

-- The registry, the buffers of the channels and `sent_count`.
pub record Delivery {Message : Type 0} (channels : Channels Message) : Type 0 where
  pub registry : RegistryState channels.Sender
  pub buffers : channels.Buffers
  pub sent_count : ℕ

module _ {Message : Type 0} (channels : Channels Message) where
  -- What the loop does with the result of a send: a full channel drops the message, and a closed
  -- one ends its connection.
  unfoldable pub count_sent : SendResult → ℕ → ℕ
  count_sent accepted n = n + 1
  count_sent full n = n
  count_sent closed n = n

  unfoldable pub drop_closed :
      ℕ → SendResult → RegistryState channels.Sender → RegistryState channels.Sender
  drop_closed id accepted registry = registry
  drop_closed id full registry = registry
  drop_closed id closed registry = (remove_connection id registry).1

  abbrev pub settle : ℕ → SendResult → channels.Buffers → Delivery channels → Delivery channels
  settle id result buffers d = record {
    registry = drop_closed id result d.registry;
    buffers = buffers;
    sent_count = count_sent result d.sent_count;
  }

  unfoldable pub send_to_all :
      List (ℕ × channels.Sender) → Message → Delivery channels → Delivery channels
  unfolding drop_closed count_sent
  send_to_all [] message d = d
  send_to_all ((connection_id, sender) ∷ targets) message d =
      let (result, buffers) = channels.try_send sender message d.buffers in
      send_to_all targets message (settle connection_id result buffers d)

module _ {Value Time : Type 0} (channels : Channels (ClientAlertMessage Value Time))
    (parse_uuid : Text → Option ℕ) where
  unfoldable pub dispatch_event :
      AlertEvent Value Time → RegistryState channels.Sender → channels.Buffers → Delivery channels
  unfolding client_message
  dispatch_event event registry buffers = elim (parse_uuid event.unit_id) [
    | none ↦ record { registry = registry; buffers = buffers; sent_count = 0 }
    | some unit ↦
        send_to_all channels (senders_for_unit unit registry) (client_message event)
          (record { registry = registry; buffers = buffers; sent_count = 0 })
  ]
