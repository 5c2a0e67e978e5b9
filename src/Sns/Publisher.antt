-- ===== src/Sns/Publisher.antt =====
-- src/sns/publisher.rs: the queue between the dispatcher and the worker. The broadcast channel is
-- tokio's: a type with an operation that fails when no receiver is left.
use alert_distributor.Base.{Bool, true, false, Option, none, some, List, [], ◌∷◌}
use alert_distributor.Sns.Models.{UserDevice}
use alert_distributor.Sns.Metrics.{SnsMetrics, inc_enqueued}

module _ {Channel Event : Type 0} (send : UserDevice × Event → Channel → Option Channel) where
  -- Whether all were sent, the channel and the counters.
  unfoldable pub send_alert :
      Event → List UserDevice → Channel → SnsMetrics → Bool × Channel × SnsMetrics
  send_alert event [] channel metrics = (true, channel, metrics)
  send_alert event (device ∷ devices) channel metrics = elim (send (device, event) channel) [
    | none ↦ (false, channel, metrics)
    | some channel' ↦ send_alert event devices channel' (inc_enqueued metrics)
  ]
