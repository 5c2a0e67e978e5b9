-- ===== src/Sns/Dispatcher.antt =====
-- src/sns/dispatcher.rs: which devices an alert is pushed to.
pub mod Targets
pub mod Entitled
pub mod Fixtures
mod Tests
use alert_distributor.Base.{
  ℕ, zero, suc, ◌+◌, Bool, true, false, not, Option, none, some, List, [], ◌∷◌, ◌++◌, is_empty,
  if◌then◌else◌,
}
use alert_distributor.Text.{Text}
use alert_distributor.Sns.Models.{UserDevice, endpoint_is_supported_for_platform}
use alert_distributor.Sns.Metrics.{SnsMetrics, inc_resolved}
use alert_distributor.Sns.Publisher.{send_alert}
use alert_distributor.Models.AlertEvent.{AlertEvent}
use alert_distributor.Permissions.Cache.{State}
use alert_distributor.Permissions.Cache.Read.{users_for_unit, devices_for}

-- The local variables of `dispatch_event`, and the counters of the process.
pub record Evaluation : Type 0 where
  pub sns_targets : List UserDevice
  pub permitted_user_count : ℕ
  pub candidate_device_count : ℕ
  pub skipped_empty_endpoint_count : ℕ
  pub skipped_unsupported_endpoint_count : ℕ
  pub metrics : SnsMetrics

abbrev pub start_evaluation : SnsMetrics → Evaluation
start_evaluation metrics = record {
  sns_targets = [];
  permitted_user_count = 0;
  candidate_device_count = 0;
  skipped_empty_endpoint_count = 0;
  skipped_unsupported_endpoint_count = 0;
  metrics = metrics;
}

-- The body of the inner loop, behind the count of candidates.
consider : UserDevice → Evaluation → Evaluation
consider device v =
    if not device.is_active
    then v
    else if is_empty device.endpoint_arn
    then record v { skipped_empty_endpoint_count = v.skipped_empty_endpoint_count + 1 }
    else if not (endpoint_is_supported_for_platform device)
    then record v { skipped_unsupported_endpoint_count = v.skipped_unsupported_endpoint_count + 1 }
    else record v { metrics = inc_resolved v.metrics; sns_targets = v.sns_targets ++ device ∷ [] }

unfoldable pub evaluate_device : UserDevice → Evaluation → Evaluation
unfolding consider
evaluate_device device v =
    consider device (record v { candidate_device_count = v.candidate_device_count + 1 })

unfoldable pub evaluate_devices : List UserDevice → Evaluation → Evaluation
evaluate_devices [] v = v
evaluate_devices (device ∷ devices) v = evaluate_devices devices (evaluate_device device v)

-- The lock is taken anew for each user: `cache` gives the state when the devices of a user are read.
unfoldable pub evaluate_users : (ℕ → State) → List (ℕ × ℕ) → Evaluation → Evaluation
evaluate_users cache [] v = v
evaluate_users cache ((org, user) ∷ users) v = evaluate_users cache users (
    evaluate_devices (devices_for (cache user) user)
      (record v { permitted_user_count = v.permitted_user_count + 1 }))

pub data Dispatched (Channel : Type 0) : Type 0 where
  invalid_unit no_targets : Dispatched Channel
  broadcast : Bool → Channel → Dispatched Channel

module _ {Channel Value Time : Type 0}
    (send : UserDevice × AlertEvent Value Time → Channel → Option Channel)
    (parse_uuid : Text → Option ℕ) where
  -- The end of `dispatch_event`: the enqueueing of what was selected.
  unfoldable pub enqueue_targets :
      AlertEvent Value Time → Channel → Evaluation → Dispatched Channel × SnsMetrics
  enqueue_targets event channel v =
      if is_empty v.sns_targets
      then (no_targets, v.metrics)
      else let (sent, channel', metrics) = send_alert send event v.sns_targets channel v.metrics in
        (broadcast sent channel', metrics)

  unfoldable pub dispatch_event :
      State
      → (ℕ → State)
      → AlertEvent Value Time
      → Channel
      → SnsMetrics
      → Dispatched Channel × SnsMetrics
  unfolding enqueue_targets
  dispatch_event now cache event channel metrics = elim (parse_uuid event.unit_id) [
    | none ↦ (invalid_unit, metrics)
    | some unit ↦
        enqueue_targets event channel
          (evaluate_users cache (users_for_unit now unit) (start_evaluation metrics))
  ]
