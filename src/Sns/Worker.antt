-- ===== src/Sns/Worker.antt =====
-- src/main.rs, `sns_worker_task` and `process_sns_delivery`: the worker that takes what the
-- dispatcher enqueued in batches and pushes each alert to its device.
pub mod Batches
pub mod Deliveries
pub mod Drains
pub mod Shutdown
mod Tests
use alert_distributor.Base.{
  ℕ, Bool, true, false, Option, none, some, List, [], ◌∷◌, ◌++◌, length, leb, is_empty,
  if◌then◌else◌,
}
use alert_distributor.Text.{Text}
use alert_distributor.Models.AlertEvent.{AlertEvent, sns_notification_title, notification_body}
use alert_distributor.Permissions.Cache.{State}
use alert_distributor.Permissions.Cache.Write.{deactivate_device}
use alert_distributor.Sns.Models.{UserDevice, SnsError, invalid_endpoint}
use alert_distributor.Sns.Message.{Json, new_message, to_json_payload}
use alert_distributor.Sns.Client.{Result, ok, err, Answer, publish_to_endpoint}
use alert_distributor.Sns.Metrics.{SnsMetrics, inc_published, inc_failed, add_lagged}

-- What the worker is given: SNS (the answer to each attempt at an endpoint with a payload), the
-- update of the database by src/sns/db_update.rs, serde_json and Unicode's lower case.
pub record Services (Value Time : Type 0) : Type 1 where
  pub Output : Type 0
  pub Db : Type 0
  pub publish : Text → Text → ℕ → Answer Output
  pub max_retries : ℕ
  pub mark_device_inactive : ℕ → Db → Option Db
  pub to_string : Json → Text
  pub lower : Text → Text

-- What the queue gives: an item, how many were skipped, or its end. `none` is the deadline of a
-- batch, which means nothing while the worker waits for a first item.
pub data Received (Item : Type 0) : Type 0 where
  item : Item → Received Item
  lagged : ℕ → Received Item
  closed : Received Item

abbrev pub max_batch : ℕ
max_batch = 256

module _ {Value Time : Type 0} (services : Services Value Time) where
  pub record World : Type 0 where
    pub cache : State
    pub metrics : SnsMetrics
    pub db : services.Db

  -- The device of an invalid endpoint is marked in the database first, and leaves the cache if that
  -- succeeds.
  retire : UserDevice → World → World
  retire device w = elim (services.mark_device_inactive device.id w.db) [
    | none ↦ w
    | some db ↦ record w { db = db; cache = (deactivate_device device.id w.cache).1 }
  ]

  on_error : UserDevice → SnsError → World → World
  unfolding retire
  on_error device (invalid_endpoint msg) w =
      retire device (record w { metrics = inc_failed w.metrics })
  on_error device _ w = record w { metrics = inc_failed w.metrics }

  -- `publish_to_endpoint` always gives a result.
  conclude : UserDevice → Option (Result services.Output × List ℕ) → World → World
  unfolding on_error
  conclude device none w = w
  conclude device (some (ok output, delays)) w = record w { metrics = inc_published w.metrics }
  conclude device (some (err sns_error, delays)) w = on_error device sns_error w

  unfoldable pub payload_of : AlertEvent Value Time → Text
  payload_of event =
      to_json_payload services.to_string
        (new_message (sns_notification_title services.lower event) (notification_body event))

  unfoldable pub process_sns_delivery : UserDevice × AlertEvent Value Time → World → World
  unfolding payload_of conclude
  process_sns_delivery (device, event) w =
      conclude device
        (publish_to_endpoint (services.publish device.endpoint_arn (payload_of event))
          services.max_retries)
        w

  -- The deliveries of a batch run concurrently: here in the order in which they finish.
  unfoldable pub process_batch : List (UserDevice × AlertEvent Value Time) → World → World
  process_batch [] w = w
  process_batch (d ∷ ds) w = process_batch ds (process_sns_delivery d w)

  -- The batch that is being filled, empty before its first item; the batches that were processed;
  -- and whether the queue has ended.
  pub record Worker : Type 0 where
    pub filling : List (UserDevice × AlertEvent Value Time)
    pub batches : List (List (UserDevice × AlertEvent Value Time))
    pub world : World
    pub stopped : Bool

  -- `finish` orders the deliveries of a batch by their end.
  module _
      (finish : List (UserDevice × AlertEvent Value Time)
        → List (UserDevice × AlertEvent Value Time)) where
    unfoldable pub flush : Worker → Worker
    flush w = record w {
      filling = [];
      batches = w.batches ++ w.filling ∷ [];
      world = process_batch (finish w.filling) w.world;
    }

    -- The test behind each receive of the inner loop.
    unfoldable pub flush_full : Worker → Worker
    unfolding flush
    flush_full w = if leb max_batch (length w.filling) then flush w else w

    -- `rx.recv()` of the outer loop.
    receive_first : Option (Received (UserDevice × AlertEvent Value Time)) → Worker → Worker
    receive_first none w = w
    receive_first (some closed) w = record w { stopped = true }
    receive_first (some (lagged skipped)) w = record w {
      world = record w.world { metrics = add_lagged skipped w.world.metrics };
    }
    receive_first (some (item x)) w = record w { filling = x ∷ [] }

    -- `timeout_at(deadline, rx.recv())` of the inner loop.
    receive_more : Option (Received (UserDevice × AlertEvent Value Time)) → Worker → Worker
    unfolding flush flush_full
    receive_more none w = flush w
    receive_more (some closed) w = flush w
    receive_more (some (lagged skipped)) w =
        flush_full
          (record w { world = record w.world { metrics = add_lagged skipped w.world.metrics } })
    receive_more (some (item x)) w = flush_full (record w { filling = w.filling ++ x ∷ [] })

    unfoldable pub receive :
        Option (Received (UserDevice × AlertEvent Value Time)) → Worker → Worker
    unfolding receive_first receive_more
    receive event w =
        if w.stopped
        then w
        else if is_empty w.filling
        then receive_first event w
        else receive_more event w

    unfoldable pub sns_worker_task :
        List (Option (Received (UserDevice × AlertEvent Value Time))) → Worker → Worker
    sns_worker_task [] w = w
    sns_worker_task (event ∷ events) w = sns_worker_task events (receive event w)
