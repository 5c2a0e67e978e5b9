-- ===== src/Delivery/Pushes.antt =====
-- What one call of the SNS dispatcher puts into the queue.
use mathlib.Core.List.{Memᴰ}
use alert_distributor.Base.{ℕ, ◌≡◌, sym, ap, ◌∙◌, some, List, ◌++◌, map}
use alert_distributor.Models.AlertEvent.{AlertEvent}
use alert_distributor.Permissions.Cache.{State}
use alert_distributor.Permissions.Cache.Invariant.{Inv}
use alert_distributor.Permissions.Cache.Rule.{IsLocated}
use alert_distributor.Sns.Models.{UserDevice}
use alert_distributor.Sns.Metrics.{SnsMetrics}
use alert_distributor.Sns.Dispatcher.{dispatch_event}
use alert_distributor.Sns.Dispatcher.Entitled.{IsPushed, chosen, chosen-IsPushed, IsPushed-chosen}
use alert_distributor.Kafka.Alerts.{Outside}
use alert_distributor.Kafka.Alerts.Commits.{left_in, left_in-queue_after}
use alert_distributor.Delivery.{addressed, targets}
use alert_distributor.Delivery.Queue.{Holds, sns-contents}

module _ {Value Time : Type 0} (outside : Outside Value Time) where
  -- The dispatcher appended the alert for each of these devices, which are exactly the ones to push to.
  pub record Pushes (contents : outside.Queue → List (UserDevice × AlertEvent Value Time))
      (event : AlertEvent Value Time) (now : State) (cache : ℕ → State) (unit : ℕ)
      (q q' : outside.Queue) : Type 0 where
    pub devices : List UserDevice
    pub appended : contents q' ≡ contents q ++ map (λ d. (d, event)) devices
    pub only : (d : UserDevice) → Memᴰ d devices → IsPushed now cache unit d
    pub all : (d : UserDevice) → IsPushed now cache unit d → Memᴰ d devices

  -- When the unit id of the alert parses, the cache is well formed with the devices of each unit
  -- naming its organization, and the queue keeps what is sent, the SNS dispatcher appends to the
  -- queue the alert for a list of devices and nothing else, and a device is in that list exactly
  -- when it is active, has a supported endpoint, and is listed, when the devices of its owner are
  -- read, for a user whom the documented rule entitles to the unit at the time the recipients are
  -- read.
  pub dispatch_event-Pushes :
      (contents : outside.Queue → List (UserDevice × AlertEvent Value Time))
      (event : AlertEvent Value Time) (now : State) (cache : ℕ → State) (q : outside.Queue)
      (metrics : SnsMetrics) (unit : ℕ)
      → Holds outside contents
      → outside.parse_uuid event.unit_id ≡ some unit
      → Inv now
      → IsLocated now
      → Pushes contents event now cache unit q (
          left_in outside
            (dispatch_event outside.send outside.parse_uuid now cache event q metrics).0
            q)
  dispatch_event-Pushes contents event now cache q metrics unit holds valid inv located =
      let d = dispatch_event outside.send outside.parse_uuid now cache event q metrics in
      record {
        devices = chosen now cache unit;
        appended =
            ap contents (sym (left_in-queue_after outside d.0 q))
            ∙ (sns-contents outside contents holds event now cache q metrics
                ∙ ap (λ o. contents q ++ addressed outside event (targets outside now cache o))
                    valid);
        only = λ d. chosen-IsPushed now cache unit d inv located;
        all = λ d. IsPushed-chosen now cache unit d inv located;
      }
