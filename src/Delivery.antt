-- ===== src/Delivery.antt =====
-- How an alert reaches a device: the consumer of src/kafka/consumer.rs, the SNS dispatcher, the
-- queue of src/sns/publisher.rs and the worker of src/main.rs, one behind the other.
pub mod Queue
pub mod Pushes
pub mod Reaches
mod Tests
use alert_distributor.Base.{ℕ, ◌≡◌, ◌⊎◌, Option, none, some, List, [], ◌∷◌, ◌++◌, map, filter}
use alert_distributor.Models.AlertEvent.{AlertEvent}
use alert_distributor.Permissions.Cache.{State}
use alert_distributor.Permissions.Cache.Invariant.{Inv}
use alert_distributor.Permissions.Cache.Rule.{IsLocated}
use alert_distributor.Permissions.Cache.Read.{users_for_unit}
use alert_distributor.Sns.Models.{UserDevice}
use alert_distributor.Sns.Dispatcher.Targets.{is_target, candidates}
use alert_distributor.Sns.Dispatcher.Entitled.{IsPushed, chosen}
use alert_distributor.Kafka.ControlPlane.Consumer.{Message}
use alert_distributor.Kafka.Alerts.{Outside, StreamItem, message, receive_error}
use alert_distributor.Kafka.Alerts.Commits.{alert_of}

module _ {Value Time : Type 0} (outside : Outside Value Time) where
  -- The message carries the alert, and the device is to have it: by the documented rule, at the
  -- times at which the dispatcher reads the cache for that message.
  pub record Asks (m : Message) (now : State) (cache : ℕ → State) (d : UserDevice)
      (event : AlertEvent Value Time) : Type 0 where
    pub parsed : alert_of outside m ≡ some event
    pub unit : ℕ
    pub valid : outside.parse_uuid event.unit_id ≡ some unit
    pub pushed : IsPushed now cache unit d

  -- Some message of the stream asks for it.
  abbrev pub IsDue : List StreamItem → UserDevice → AlertEvent Value Time → Type 0
  IsDue [] d event = ⊥
  IsDue (receive_error ∷ items) d event = IsDue items d event
  IsDue (message m now cache ∷ items) d event = Asks m now cache d event ⊎ IsDue items d event

  -- Wherever a dispatcher reads the recipients, the cache is well formed.
  abbrev pub AreWell : List StreamItem → Type 0
  AreWell [] = Unit
  AreWell (receive_error ∷ items) = AreWell items
  AreWell (message m now cache ∷ items) = Inv now × IsLocated now × AreWell items

  abbrev pub targets : State → (ℕ → State) → Option ℕ → List UserDevice
  targets now cache none = []
  targets now cache (some unit) = chosen now cache unit

  abbrev pub addressed :
      AlertEvent Value Time → List UserDevice → List (UserDevice × AlertEvent Value Time)
  addressed event devices = map (λ d. (d, event)) devices

  -- What an alert adds to the queue.
  abbrev pub due_of :
      Option (AlertEvent Value Time)
      → State
      → (ℕ → State)
      → List (UserDevice × AlertEvent Value Time)
  due_of none now cache = []
  due_of (some event) now cache =
      addressed event (targets now cache (outside.parse_uuid event.unit_id))

  abbrev pub due : List StreamItem → List (UserDevice × AlertEvent Value Time)
  due [] = []
  due (receive_error ∷ items) = due items
  due (message m now cache ∷ items) = due_of (alert_of outside m) now cache ++ due items
