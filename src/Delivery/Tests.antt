-- ===== src/Delivery/Tests.antt =====
-- The way of an alert, from the stream to the phone of an owner.
use alert_distributor.Base.{
  ℕ, ◌≡◌, refl, true, false, Option, none, some, List, [], ◌∷◌, ◌++◌, nat_eq, list_eq, pair_eq,
}
use alert_distributor.Text.{to_ascii_lowercase}
use alert_distributor.Text.Split.{split, next_back}
use alert_distributor.HashMap.{get, insert, remove, insert_at}
use alert_distributor.Sort.{sort, nat_ord, pair_ord}
use alert_distributor.Models.AlertEvent.{AlertEvent}
use alert_distributor.Permissions.Cache.{active_membership, unassign_device}
use alert_distributor.Permissions.Cache.Read.{users_for_unit, devices_for}
use alert_distributor.Permissions.Cache.Write.{
  upsert_membership, upsert_user_unit, upsert_unit_device, upsert_user_device,
}
use alert_distributor.Permissions.Fixtures.{scene, scene-Inv, scene-IsLocated, parse_uuid}
use alert_distributor.Websocket.Registry.{no_connections}
use alert_distributor.Websocket.Fixtures.{channels, alert}
use alert_distributor.Sns.Models.{
  UserDevice, endpoint_channel, channel_of, endpoint_is_supported_for_platform,
}
use alert_distributor.Sns.Client.{sent}
use alert_distributor.Sns.Metrics.{zeroed}
use alert_distributor.Sns.Publisher.{send_alert}
use alert_distributor.Sns.Dispatcher.{
  dispatch_event, enqueue_targets, evaluate_users, evaluate_devices, evaluate_device,
}
use alert_distributor.Sns.Dispatcher.Fixtures.{phone, with_phone, send}
use alert_distributor.Sns.Worker.{Services, World, Received, item, closed, sns_worker_task}
use alert_distributor.Sns.Worker.Batches.{items}
use alert_distributor.Sns.Worker.Drains.{idle}
use alert_distributor.Kafka.Alerts.{
  Outside, StreamItem, message, receive_error, Pipeline, queue_after, dispatch, process_message,
  run,
}
use alert_distributor.Delivery.Queue.{Holds}
use alert_distributor.Delivery.Pushes.{Pushes, dispatch_event-Pushes}
use alert_distributor.Kafka.Alerts.Commits.{left_in}
use alert_distributor.Delivery.Reaches.{Reaches, alerts_reach}

abbrev from_slice : List ℕ → Option (AlertEvent ℕ ℕ)
from_slice (b ∷ []) = some alert
from_slice _ = none

abbrev outside : Outside ℕ ℕ
outside = record {
  from_slice = from_slice;
  parse_uuid = parse_uuid;
  channels = channels;
  Queue = List (UserDevice × AlertEvent ℕ ℕ);
  send = send;
}

abbrev contents : List (UserDevice × AlertEvent ℕ ℕ) → List (UserDevice × AlertEvent ℕ ℕ)
contents queue = queue

contents-Holds : Holds outside contents
contents-Holds = record {
  sent = λ x queue. queue ++ x ∷ [];
  accepted = λ x queue. refl;
  held = λ x queue. refl;
}

-- One alert of unit 11 between an error and a message without payload.
abbrev stream : List StreamItem
stream =
    receive_error
    ∷ message (record { partition = 0; offset = 7; payload = some (1 ∷ []) }) scene with_phone
    ∷ message (record { partition = 0; offset = 8; payload = none }) scene with_phone
    ∷ []

abbrev before : Pipeline outside
before = record {
  registry = no_connections;
  buffers = 0;
  queue = [];
  metrics = zeroed;
  commits = [];
}

abbrev services : Services ℕ ℕ
services = record {
  Output = ℕ;
  Db = List ℕ;
  publish = λ arn payload attempt. sent 1;
  max_retries = 3;
  mark_device_inactive = λ id db. some (id ∷ db);
  to_string = λ j. [];
  lower = λ s. s;
}

abbrev world : World services
world = record { cache = scene; metrics = zeroed; db = [] }

abbrev received : List (Option (Received (UserDevice × AlertEvent ℕ ℕ)))
received = none ∷ some (item (phone, alert)) ∷ []

all_received : items received ≡ (run outside stream before).queue
unfolding run process_message dispatch queue_after dispatch_event enqueue_targets evaluate_users
    evaluate_devices evaluate_device send_alert users_for_unit devices_for get insert remove sort
    upsert_user_unit upsert_membership upsert_unit_device upsert_user_device unassign_device
    insert_at active_membership endpoint_channel split next_back channel_of
    endpoint_is_supported_for_platform to_ascii_lowercase
all_received = refl

alerts_reach_example :
    Reaches outside services false stream world
      (sns_worker_task services (λ b. b) (received ++ none ∷ []) (idle services world))
    × Reaches outside services true stream world (
        sns_worker_task services
          (λ b. b)
          (received ++ some closed ∷ some closed ∷ [])
          (idle services world))
alerts_reach_example =
    alerts_reach outside services contents (λ b. b) stream before world received contents-Holds
      (λ b. refl) (scene-Inv, scene-IsLocated, (scene-Inv, scene-IsLocated, tt)) scene-Inv refl tt
      all_received

dispatch_event-Pushes_example :
    Pushes outside contents alert scene with_phone 11 []
      (left_in outside (dispatch_event send parse_uuid scene with_phone alert [] zeroed).0 [])
dispatch_event-Pushes_example =
    dispatch_event-Pushes outside contents alert scene with_phone [] zeroed 11 contents-Holds refl
      scene-Inv scene-IsLocated
