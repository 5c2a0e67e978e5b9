-- ===== src/Kafka/Alerts.antt =====
-- src/kafka/consumer.rs: the reader of the alerts, which hands each to both dispatchers and then
-- commits it. rdkafka, serde_json, the parser of UUIDs and the channels are arguments.
pub mod Commits
mod Tests
use alert_distributor.Base.{ℕ, Bool, Option, none, some, List, [], ◌∷◌, ◌++◌}
use alert_distributor.Text.{Text}
use alert_distributor.Errors.{AppResult, ok, ◌>>=◌, Attempt, map_err, kafka}
use alert_distributor.Models.AlertEvent.{AlertEvent}
use alert_distributor.Permissions.Cache.{State}
use alert_distributor.Kafka.ControlPlane.Consumer.{Message}
use alert_distributor.Websocket.Registry.{RegistryState}
use alert_distributor.Websocket.Dispatcher.{
  ClientAlertMessage, Channels, dispatch_event as ws_dispatch_event,
}
use alert_distributor.Sns.Models.{UserDevice}
use alert_distributor.Sns.Metrics.{SnsMetrics}
use alert_distributor.Sns.Dispatcher.{
  Dispatched, invalid_unit, no_targets, broadcast, dispatch_event as sns_dispatch_event,
}

pub record Outside (Value Time : Type 0) : Type 1 where
  pub from_slice : List ℕ → Option (AlertEvent Value Time)
  pub parse_uuid : Text → Option ℕ
  pub channels : Channels (ClientAlertMessage Value Time)
  pub Queue : Type 0
  pub send : UserDevice × AlertEvent Value Time → Queue → Option Queue

-- An item of the stream. With a message comes the cache as the SNS dispatcher finds it when it asks
-- for the recipients, and then for the devices of each of them.
pub data StreamItem : Type 0 where
  message : Message → State → (ℕ → State) → StreamItem
  receive_error : StreamItem

module _ {Value Time : Type 0} (outside : Outside Value Time) where
  open outside use {channels, Queue, send, parse_uuid, from_slice}

  -- What the dispatchers act on, and the messages whose commit was asked for.
  pub record Pipeline : Type 0 where
    pub registry : RegistryState channels.Sender
    pub buffers : channels.Buffers
    pub queue : Queue
    pub metrics : SnsMetrics
    pub commits : List Message

  unfoldable pub queue_after : Dispatched Queue → Queue → Queue
  queue_after invalid_unit queue = queue
  queue_after no_targets queue = queue
  queue_after (broadcast sent queue') queue = queue'

  -- `tokio::join!`: the two dispatchers share nothing that they write.
  unfoldable pub dispatch : AlertEvent Value Time → State → (ℕ → State) → Pipeline → Pipeline
  unfolding queue_after
  dispatch event now cache p =
      let delivery = ws_dispatch_event channels parse_uuid event p.registry p.buffers in
      let (dispatched, metrics) =
        sns_dispatch_event send parse_uuid now cache event p.queue p.metrics in
      record p {
        registry = delivery.registry;
        buffers = delivery.buffers;
        queue = queue_after dispatched p.queue;
        metrics = metrics;
      }

  process_event :
      Option (AlertEvent Value Time) → Message → State → (ℕ → State) → Pipeline → Pipeline
  process_event none m now cache p = p
  process_event (some event) m now cache p =
      let p' = dispatch event now cache p in record p' { commits = p'.commits ++ m ∷ [] }

  process_payload : Option (List ℕ) → Message → State → (ℕ → State) → Pipeline → Pipeline
  unfolding process_event
  process_payload none m now cache p = p
  process_payload (some payload) m now cache p = process_event (from_slice payload) m now cache p

  unfoldable pub process_message : Message → State → (ℕ → State) → Pipeline → Pipeline
  unfolding process_payload
  process_message m now cache p = process_payload m.payload m now cache p

  -- The loop of `run`: until the stream ends.
  unfoldable pub run : List StreamItem → Pipeline → Pipeline
  run [] p = p
  run (message m now cache ∷ items) p = run items (process_message m now cache p)
  run (receive_error ∷ items) p = run items p

  -- `run` with the subscription, which can fail.
  unfoldable pub run_topic : Attempt (Unit {0}) → List StreamItem → Pipeline → AppResult Pipeline
  run_topic subscribe items p = do subscribed ← map_err kafka subscribe; ok (run items p)
