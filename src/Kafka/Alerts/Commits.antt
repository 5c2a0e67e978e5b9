-- ===== src/Kafka/Alerts/Commits.antt =====
-- Which alerts are handed on and committed, and that the registry stays consistent.
use alert_distributor.Base.{
  ℕ, ◌≡◌, refl, ◌∙◌, ap, sym, subst, Option, none, some, List, [], ◌∷◌, ◌++◌, Option-cases, inl,
  inr, and_then,
}
use mathlib.Core.List.{append-nil, append_assoc}
use alert_distributor.Models.AlertEvent.{AlertEvent}
use alert_distributor.Permissions.Cache.{State}
use alert_distributor.Kafka.ControlPlane.Consumer.{Message}
use alert_distributor.Websocket.Registry.Invariant.{IsIndexed}
use alert_distributor.Websocket.Dispatcher.Sends.{dispatch_event-IsIndexed}
use alert_distributor.Websocket.Dispatcher.{dispatch_event as ws_dispatch_event}
use alert_distributor.Sns.Dispatcher.{
  Dispatched, invalid_unit, no_targets, broadcast, dispatch_event as sns_dispatch_event,
}
use alert_distributor.Kafka.Alerts.{
  queue_after, Outside, StreamItem, message, receive_error, Pipeline, dispatch, process_event,
  process_payload, process_message, run,
}

module _ {Value Time : Type 0} (outside : Outside Value Time) where
  -- The alert that a message carries.
  abbrev pub alert_of : Message → Option (AlertEvent Value Time)
  alert_of m = and_then m.payload outside.from_slice

  abbrev pub listed : Option (AlertEvent Value Time) → Message → List Message
  listed none m = []
  listed (some event) m = m ∷ []

  -- The messages that carry an alert, in order.
  abbrev pub alerts : List StreamItem → List Message
  alerts [] = []
  alerts (receive_error ∷ items) = alerts items
  alerts (message m now cache ∷ items) = listed (alert_of m) m ++ alerts items

  -- The queue behind the SNS dispatcher: it is left alone but for a broadcast.
  abbrev pub left_in : Dispatched outside.Queue → outside.Queue → outside.Queue
  left_in (broadcast sent queue') queue = queue'
  left_in _ queue = queue

  pub left_in-queue_after :
      (d : Dispatched outside.Queue) (queue : outside.Queue)
      → queue_after outside d queue ≡ left_in d queue
  unfolding queue_after
  left_in-queue_after invalid_unit queue = refl
  left_in-queue_after no_targets queue = refl
  left_in-queue_after (broadcast sent queue') queue = refl

  -- The alert goes to both dispatchers: the connections are those that the WebSocket dispatcher
  -- leaves, and the queue and the counters those that the SNS dispatcher leaves.
  abbrev pub handed :
      AlertEvent Value Time → State → (ℕ → State) → Pipeline outside → Pipeline outside
  handed event now cache p =
      let ws = ws_dispatch_event outside.channels outside.parse_uuid event p.registry p.buffers in
      let sns =
        sns_dispatch_event outside.send outside.parse_uuid now cache event p.queue p.metrics in
      record {
        registry = ws.registry;
        buffers = ws.buffers;
        queue = left_in sns.0 p.queue;
        metrics = sns.1;
        commits = p.commits;
      }

  -- `dispatch` hands the alert on so.
  pub dispatch-handed :
      (event : AlertEvent Value Time) (now : State) (cache : ℕ → State) (p : Pipeline outside)
      → dispatch outside event now cache p ≡ handed event now cache p
  unfolding dispatch
  dispatch-handed event now cache p =
      let ws = ws_dispatch_event outside.channels outside.parse_uuid event p.registry p.buffers in
      let sns =
        sns_dispatch_event outside.send outside.parse_uuid now cache event p.queue p.metrics in
      ap
        (λ (queue : outside.Queue). record p {
          registry = ws.registry;
          buffers = ws.buffers;
          queue = queue;
          metrics = sns.1;
        })
        (left_in-queue_after sns.0 p.queue)

  abbrev pub dispatch_if :
      Option (AlertEvent Value Time) → State → (ℕ → State) → Pipeline outside → Pipeline outside
  dispatch_if none now cache p = p
  dispatch_if (some event) now cache p = handed event now cache p

  -- The dispatches of all alerts, one after the other.
  abbrev pub dispatch_all : List StreamItem → Pipeline outside → Pipeline outside
  dispatch_all [] p = p
  dispatch_all (receive_error ∷ items) p = dispatch_all items p
  dispatch_all (message m now cache ∷ items) p =
      dispatch_all items (dispatch_if (alert_of m) now cache p)

  abbrev with_commits : Pipeline outside → List Message → Pipeline outside
  with_commits p c = record p { commits = c }

  process-alert_of :
      (m : Message) (now : State) (cache : ℕ → State) (p : Pipeline outside)
      → process_message outside m now cache p ≡ process_event outside (alert_of m) m now cache p
  unfolding process_message process_payload process_event
  process-alert_of m now cache p = elim (Option-cases m.payload) [
    | inl e ↦ rw (e, process_payload) refl
    | inr (bytes, e) ↦ rw (e, process_payload) refl
  ]

  process_event-dispatch_if :
      (o : Option (AlertEvent Value Time)) (m : Message) (now : State) (cache : ℕ → State)
      (p : Pipeline outside)
      → process_event outside o m now cache p
        ≡ with_commits (dispatch_if o now cache p) (p.commits ++ listed o m)
  unfolding process_event dispatch
  process_event-dispatch_if none m now cache p = ap (with_commits p) (sym (append-nil p.commits))
  process_event-dispatch_if (some event) m now cache p =
      ap (λ (q : Pipeline outside). with_commits q (q.commits ++ m ∷ []))
        (dispatch-handed event now cache p)

  dispatch_if-commits :
      (o : Option (AlertEvent Value Time)) (now : State) (cache : ℕ → State) (p : Pipeline outside)
      (c : List Message)
      → dispatch_if o now cache (with_commits p c) ≡ with_commits (dispatch_if o now cache p) c
  unfolding dispatch
  dispatch_if-commits none now cache p c = refl
  dispatch_if-commits (some event) now cache p c = refl

  dispatch_all-commits :
      (items : List StreamItem) (p : Pipeline outside) (c : List Message)
      → dispatch_all items (with_commits p c) ≡ with_commits (dispatch_all items p) c
  dispatch_all-commits [] p c = refl
  dispatch_all-commits (receive_error ∷ items) p c = dispatch_all-commits items p c
  dispatch_all-commits (message m now cache ∷ items) p c =
      ap (dispatch_all items) (dispatch_if-commits (alert_of m) now cache p c)
      ∙ dispatch_all-commits items (dispatch_if (alert_of m) now cache p) c

  pub run-dispatch_all :
      (items : List StreamItem) (p : Pipeline outside)
      → run outside items p ≡ with_commits (dispatch_all items p) (p.commits ++ alerts items)
  unfolding run
  run-dispatch_all [] p = ap (with_commits p) (sym (append-nil p.commits))
  run-dispatch_all (receive_error ∷ items) p = run-dispatch_all items p
  run-dispatch_all (message m now cache ∷ items) p =
      let o = alert_of m in
      let q = dispatch_if o now cache p in
      let c = p.commits ++ listed o m in
      ap (run outside items)
        (process-alert_of m now cache p ∙ process_event-dispatch_if o m now cache p)
      ∙ (run-dispatch_all items (with_commits q c)
          ∙ (ap (λ (r : Pipeline outside). with_commits r (c ++ alerts items))
                (dispatch_all-commits items q c)
              ∙ ap (with_commits (dispatch_all items q))
                  (append_assoc p.commits (listed o m) (alerts items))))

  dispatch_if-IsIndexed :
      (o : Option (AlertEvent Value Time)) (now : State) (cache : ℕ → State) (p : Pipeline outside)
      → IsIndexed p.registry
      → IsIndexed (dispatch_if o now cache p).registry
  unfolding dispatch
  dispatch_if-IsIndexed none now cache p v = v
  dispatch_if-IsIndexed (some event) now cache p v =
      dispatch_event-IsIndexed outside.channels outside.parse_uuid event p.registry p.buffers v

  dispatch_all-IsIndexed :
      (items : List StreamItem) (p : Pipeline outside)
      → IsIndexed p.registry
      → IsIndexed (dispatch_all items p).registry
  dispatch_all-IsIndexed [] p v = v
  dispatch_all-IsIndexed (receive_error ∷ items) p v = dispatch_all-IsIndexed items p v
  dispatch_all-IsIndexed (message m now cache ∷ items) p v =
      dispatch_all-IsIndexed items (dispatch_if (alert_of m) now cache p)
        (dispatch_if-IsIndexed (alert_of m) now cache p v)

  -- When the indexes of the registry agree, reading a stream of alerts hands exactly the messages
  -- that carry an alert to both dispatchers, in order: the connections and buffers become those
  -- that the WebSocket dispatcher leaves, the queue and the counters those that the SNS dispatcher
  -- leaves; it asks for the commit of each of these messages and of no other, skips errors and what
  -- does not parse, and leaves the indexes in agreement.
  pub run-commits :
      (items : List StreamItem) (p : Pipeline outside)
      → IsIndexed p.registry
      → (run outside items p
          ≡ record (dispatch_all items p) { commits = p.commits ++ alerts items })
        × IsIndexed (run outside items p).registry
  run-commits items p v = (
    run-dispatch_all items p,
    subst (λ (q : Pipeline outside). IsIndexed q.registry) (sym (run-dispatch_all items p))
        (dispatch_all-IsIndexed items p v),
  )
