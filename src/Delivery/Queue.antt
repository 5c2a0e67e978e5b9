-- ===== src/Delivery/Queue.antt =====
-- What the consumer of the alerts puts into the queue.
use alert_distributor.Base.{
  ℕ, ◌≡◌, sym, ap, ◌∙◌, Option, none, some, List, [], ◌∷◌, ◌++◌, is_empty, Option-cases, Bool-cases,
  inl, inr,
}
use mathlib.Core.List.{append-nil, append_assoc}
use alert_distributor.Models.AlertEvent.{AlertEvent}
use alert_distributor.Permissions.Cache.{State}
use alert_distributor.Permissions.Cache.Read.{users_for_unit}
use alert_distributor.Sns.Models.{UserDevice}
use alert_distributor.Sns.Metrics.{SnsMetrics, inc_enqueued}
use alert_distributor.Sns.Worker.Batches.{is_empty-nil}
use alert_distributor.Sns.Publisher.{send_alert}
use alert_distributor.Sns.Dispatcher.{
  start_evaluation, evaluate_users, enqueue_targets, Evaluation, dispatch_event,
}
use alert_distributor.Sns.Dispatcher.Targets.{evaluate_users-Evaluates}
use alert_distributor.Kafka.Alerts.{
  Outside, StreamItem, message, receive_error, Pipeline, queue_after, dispatch, run,
}
use alert_distributor.Kafka.Alerts.Commits.{
  alert_of, dispatch-handed, dispatch_if, dispatch_all, run-dispatch_all,
}
use alert_distributor.Delivery.{addressed, due_of, due}

module _ {Value Time : Type 0} (outside : Outside Value Time) where
  -- The queue has a receiver and room: what is sent is held behind what it held.
  pub record Holds (contents : outside.Queue → List (UserDevice × AlertEvent Value Time))
      : Type 0 where
    pub sent : UserDevice × AlertEvent Value Time → outside.Queue → outside.Queue
    pub accepted :
        (x : UserDevice × AlertEvent Value Time) (q : outside.Queue)
        → outside.send x q ≡ some (sent x q)
    pub held :
        (x : UserDevice × AlertEvent Value Time) (q : outside.Queue)
        → contents (sent x q) ≡ contents q ++ x ∷ []

  module _ (contents : outside.Queue → List (UserDevice × AlertEvent Value Time))
      (holds : Holds contents) where
    send_alert-contents :
        (event : AlertEvent Value Time) (devices : List UserDevice) (q : outside.Queue)
        (metrics : SnsMetrics)
        → contents (send_alert outside.send event devices q metrics).1
          ≡ contents q ++ addressed outside event devices
    unfolding send_alert
    send_alert-contents event [] q metrics = sym (append-nil (contents q))
    send_alert-contents event (d ∷ ds) q metrics =
        rw (send_alert, holds.accepted (d, event) q)
          (send_alert-contents event ds (holds.sent (d, event) q) (inc_enqueued metrics)
            ∙ (ap (λ l. l ++ addressed outside event ds) (holds.held (d, event) q)
                ∙ append_assoc (contents q) ((d, event) ∷ []) (addressed outside event ds)))

    enqueue_targets-contents :
        (event : AlertEvent Value Time) (v : Evaluation) (q : outside.Queue)
        → contents
            (queue_after outside (enqueue_targets outside.send outside.parse_uuid event q v).0 q)
          ≡ contents q ++ addressed outside event v.sns_targets
    unfolding enqueue_targets queue_after
    enqueue_targets-contents event v q = elim (Bool-cases (is_empty v.sns_targets)) [
      | inl e ↦ rw e (
          sym (append-nil (contents q))
          ∙ ap (λ l. contents q ++ addressed outside event l) (sym (is_empty-nil v.sns_targets e)))
      | inr e ↦ rw e (send_alert-contents event v.sns_targets q v.metrics)
    ]

    -- What the SNS dispatcher leaves in the queue.
    pub sns-contents :
        (event : AlertEvent Value Time) (now : State) (cache : ℕ → State) (q : outside.Queue)
        (metrics : SnsMetrics)
        → contents (
            queue_after outside
              (dispatch_event outside.send outside.parse_uuid now cache event q metrics).0
              q)
          ≡ contents q ++ due_of outside (some event) now cache
    unfolding dispatch_event queue_after
    sns-contents event now cache q metrics =
        elim (Option-cases (outside.parse_uuid event.unit_id)) [
          | inl e ↦ rw (e, dispatch_event) (sym (append-nil (contents q)))
          | inr (unit, e) ↦
              let users = users_for_unit now unit in
              let v = evaluate_users cache users (start_evaluation metrics) in
              rw (e, dispatch_event)
                (enqueue_targets-contents event v q
                  ∙ ap (λ l. contents q ++ addressed outside event l)
                      (evaluate_users-Evaluates cache users (start_evaluation metrics)).targets)
        ]

    dispatch-contents :
        (event : AlertEvent Value Time) (now : State) (cache : ℕ → State) (p : Pipeline outside)
        → contents (dispatch outside event now cache p).queue
          ≡ contents p.queue ++ due_of outside (some event) now cache
    unfolding dispatch
    dispatch-contents event now cache p = sns-contents event now cache p.queue p.metrics

    dispatch_if-contents :
        (o : Option (AlertEvent Value Time)) (now : State) (cache : ℕ → State)
        (p : Pipeline outside)
        → contents (dispatch_if outside o now cache p).queue
          ≡ contents p.queue ++ due_of outside o now cache
    dispatch_if-contents none now cache p = sym (append-nil (contents p.queue))
    dispatch_if-contents (some event) now cache p =
        ap (λ (q : Pipeline outside). contents q.queue)
          (sym (dispatch-handed outside event now cache p))
        ∙ dispatch-contents event now cache p

    dispatch_all-contents :
        (items : List StreamItem) (p : Pipeline outside)
        → contents (dispatch_all outside items p).queue ≡ contents p.queue ++ due outside items
    dispatch_all-contents [] p = sym (append-nil (contents p.queue))
    dispatch_all-contents (receive_error ∷ items) p = dispatch_all-contents items p
    dispatch_all-contents (message m now cache ∷ items) p =
        dispatch_all-contents items (dispatch_if outside (alert_of outside m) now cache p)
        ∙ (ap (λ l. l ++ due outside items) (dispatch_if-contents (alert_of outside m) now cache p)
            ∙ append_assoc (contents p.queue) (due_of outside (alert_of outside m) now cache)
                (due outside items))

    -- The queue holds, behind what it held, exactly what is due, in order.
    pub run-contents :
        (items : List StreamItem) (p : Pipeline outside)
        → contents (run outside items p).queue ≡ contents p.queue ++ due outside items
    run-contents items p =
        ap (λ (x : Pipeline outside). contents x.queue) (run-dispatch_all outside items p)
        ∙ dispatch_all-contents items p
