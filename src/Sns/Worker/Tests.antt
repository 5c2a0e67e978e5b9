-- ===== src/Sns/Worker/Tests.antt =====
-- The worker at a queue, and a batch with an endpoint that is invalid.
use alert_distributor.Base.{
  ℕ, ◌≡◌, refl, true, Option, none, some, List, [], ◌∷◌, ◌++◌, nat_eq, list_eq, ◌==◌, if◌then◌else◌,
}
use alert_distributor.Text.{text}
use alert_distributor.Models.AlertEvent.{AlertEvent}
use alert_distributor.Permissions.Cache.{empty}
use alert_distributor.Permissions.Cache.Invariant.{Inv}
use alert_distributor.Permissions.Cache.Invariant.Keeps.{empty-Inv, upsert_user_device-Inv}
use alert_distributor.Permissions.Cache.Write.{upsert_user_device}
use alert_distributor.Sns.Models.{UserDevice, is_retryable}
use alert_distributor.Sns.Client.{
  sent, refused, service_error, endpoint_disabled, publish_to_endpoint, publish_loop,
  classify_sdk_error, classify_publish_error,
}
use alert_distributor.Sns.Metrics.{zeroed}
use alert_distributor.Base.{false}
use alert_distributor.Sns.Worker.{closed}
use alert_distributor.Sns.Worker.{
  Services, World, Received, item, lagged, process_batch, sns_worker_task,
}
use alert_distributor.Sns.Worker.Batches.{items, Takes, sns_worker_task-Takes}
use alert_distributor.Sns.Worker.Shutdown.{Settles, sns_worker_task_finishes}
use alert_distributor.Sns.Worker.Drains.{idle}
use alert_distributor.Sns.Worker.Deliveries.{
  retired, successes, failures, Delivered, process_batch-Delivered,
}

abbrev good : UserDevice
good = record {
  id = 41;
  user_id = 21;
  device_token = text "a";
  platform = text "ios";
  endpoint_arn = text "good";
  is_active = true;
}

abbrev gone : UserDevice
gone = record good { id = 42; endpoint_arn = text "gone" }

abbrev event : AlertEvent ℕ ℕ
event = record {
  id = 1;
  organization_id = 2;
  unit_id = text "unit";
  unit_name = none;
  rule_id = 4;
  source_type = text "event";
  source_id = 5;
  alert_type = text "speeding";
  alert_name = none;
  payload = 0;
  occurred_at = 0;
}

-- The endpoint `gone` is disabled; the database notes the ids.
abbrev services : Services ℕ ℕ
services = record {
  Output = ℕ;
  Db = List ℕ;
  publish = λ arn payload attempt.
      if arn == text "gone"
      then refused
          (service_error (record { exception = endpoint_disabled; code = none; message = none }))
      else sent 1;
  max_retries = 3;
  mark_device_inactive = λ id db. some (id ∷ db);
  to_string = λ j. [];
  lower = λ s. s;
}

abbrev world : World services
world = record {
  cache = upsert_user_device good (upsert_user_device gone empty);
  metrics = zeroed;
  db = [];
}

world-Inv : Inv world.cache
world-Inv = upsert_user_device-Inv (upsert_user_device-Inv empty-Inv gone) good

abbrev batch : List (UserDevice × AlertEvent ℕ ℕ)
batch = (gone, event) ∷ (good, event) ∷ []

process_batch-Delivered_example :
    Delivered services
      (successes services batch)
      (failures services batch)
      (retired services batch [])
      world
      (process_batch services batch world)
process_batch-Delivered_example = process_batch-Delivered services batch world world-Inv

retires_one : (retired services batch [] ≡ 42 ∷ []) × (successes services batch ≡ 1)
unfolding publish_to_endpoint publish_loop classify_sdk_error classify_publish_error is_retryable
retires_one = (refl, refl)

abbrev queue : List (Option (Received (UserDevice × AlertEvent ℕ ℕ)))
queue = some (item (good, event)) ∷ some (lagged 3) ∷ some (item (gone, event)) ∷ none ∷ []

sns_worker_task-Takes_example :
    Takes services
      (λ b. b)
      (items queue)
      (idle services world)
      (sns_worker_task services (λ b. b) queue (idle services world))
sns_worker_task-Takes_example = sns_worker_task-Takes services (λ b. b) queue (idle services world)

-- The same queue up to its deadline.
abbrev waiting : List (Option (Received (UserDevice × AlertEvent ℕ ℕ)))
waiting = some (item (good, event)) ∷ some (lagged 3) ∷ some (item (gone, event)) ∷ []

sns_worker_task_finishes_example :
    Settles services false
      (items waiting)
      world
      (sns_worker_task services (λ b. b) (waiting ++ none ∷ []) (idle services world))
    × Settles services true (items waiting) world (
        sns_worker_task services
          (λ b. b)
          (waiting ++ some closed ∷ some closed ∷ [])
          (idle services world))
sns_worker_task_finishes_example =
    sns_worker_task_finishes services (λ b. b) waiting world (λ b. refl) world-Inv tt
