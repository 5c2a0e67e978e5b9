-- ===== src/Delivery/Reaches.antt =====
-- From the stream of alerts to the batches of the worker: whose devices are reached.
use mathlib.Core.List.{Memᴰ}
use mathlib.Core.List.Memᴰ
use alert_distributor.Base.{
  ℕ, length, ◌≡◌, refl, sym, ap, ◌∙◌, subst, Bool, true, false, inl, inr, Option, none, some, List,
  [], ◌∷◌, ◌++◌,
}
use alert_distributor.Models.AlertEvent.{AlertEvent}
use alert_distributor.Permissions.Cache.{State}
use alert_distributor.Permissions.Cache.Invariant.{Inv}
use alert_distributor.Permissions.Cache.Rule.{IsLocated}
use alert_distributor.Sns.Models.{UserDevice}
use alert_distributor.Sns.Dispatcher.Entitled.{IsPushed, chosen-IsPushed, IsPushed-chosen}
use alert_distributor.Sns.Worker.{Services, World, Worker, Received, closed, sns_worker_task}
use alert_distributor.Sns.Worker.Batches.{items, concat}
use alert_distributor.Sns.Worker.Drains.{idle}
use alert_distributor.Sns.Worker.Shutdown.{AreOpen, Settles, sns_worker_task_finishes}
use alert_distributor.Kafka.ControlPlane.Consumer.{Message}
use alert_distributor.Kafka.Alerts.{Outside, StreamItem, message, receive_error, Pipeline, run}
use alert_distributor.Kafka.Alerts.Commits.{alert_of}
use alert_distributor.Delivery.{Asks, IsDue, AreWell, targets, due_of, due}
use alert_distributor.Delivery.Queue.{Holds, run-contents}

module _ {Value Time : Type 0} (outside : Outside Value Time) where
  targets-IsPushed :
      (o : Option ℕ) (now : State) (cache : ℕ → State) (d : UserDevice)
      → Inv now
      → IsLocated now
      → Memᴰ d (targets outside now cache o)
      → (unit : ℕ) × (o ≡ some unit) × IsPushed now cache unit d
  targets-IsPushed none now cache d inv located m = absurd (Memᴰ.not-nil m)
  targets-IsPushed (some unit) now cache d inv located m =
      (unit, refl, chosen-IsPushed now cache unit d inv located m)

  due_of-Asks :
      (o : Option (AlertEvent Value Time)) (m : Message) (now : State) (cache : ℕ → State)
      (d : UserDevice) (event : AlertEvent Value Time)
      → alert_of outside m ≡ o
      → Inv now
      → IsLocated now
      → Memᴰ {A = UserDevice × AlertEvent Value Time} (d, event) (due_of outside o now cache)
      → Asks outside m now cache d event
  due_of-Asks none m now cache d event h inv located k = absurd (Memᴰ.not-nil k)
  due_of-Asks (some e) m now cache d event h inv located k =
      let (x, listed, same) =
        Memᴰ.of_map (λ (d : UserDevice). (d, e))
          (targets outside now cache (outside.parse_uuid e.unit_id)) k in
      let (unit, valid, pushed) =
        targets-IsPushed (outside.parse_uuid e.unit_id) now cache x inv located listed in
      record {
        parsed = h ∙ ap (λ (q : UserDevice × AlertEvent Value Time). some q.1) same;
        unit = unit;
        valid =
            ap (λ (q : UserDevice × AlertEvent Value Time). outside.parse_uuid q.1.unit_id)
              (sym same)
            ∙ valid;
        pushed =
            subst (IsPushed now cache unit)
              (ap (λ (q : UserDevice × AlertEvent Value Time). q.0) same) pushed;
      }

  Asks-due_of :
      (m : Message) (now : State) (cache : ℕ → State) (d : UserDevice)
      (event : AlertEvent Value Time)
      → Inv now
      → IsLocated now
      → Asks outside m now cache d event
      → Memᴰ {A = UserDevice × AlertEvent Value Time}
          (d, event)
          (due_of outside (alert_of outside m) now cache)
  Asks-due_of m now cache d event inv located a =
      subst
        (λ o. Memᴰ {A = UserDevice × AlertEvent Value Time} (d, event) (due_of outside o now cache))
        (sym a.parsed)
        (Memᴰ.map (λ (x : UserDevice). (x, event))
          (subst (λ o. Memᴰ d (targets outside now cache o)) (sym a.valid)
            (IsPushed-chosen now cache a.unit d inv located a.pushed)))

  due-IsDue :
      (stream : List StreamItem) (d : UserDevice) (event : AlertEvent Value Time)
      → AreWell outside stream
      → Memᴰ {A = UserDevice × AlertEvent Value Time} (d, event) (due outside stream)
      → IsDue outside stream d event
  due-IsDue [] d event h k = absurd (Memᴰ.not-nil k)
  due-IsDue (receive_error ∷ stream) d event h k = due-IsDue stream d event h k
  due-IsDue (message m now cache ∷ stream) d event (inv, located, h) k =
      elim (Memᴰ.append_cases (due_of outside (alert_of outside m) now cache) k) [
        | inl a ↦ inl (due_of-Asks (alert_of outside m) m now cache d event refl inv located a)
        | inr b ↦ inr (due-IsDue stream d event h b)
      ]

  IsDue-due :
      (stream : List StreamItem) (d : UserDevice) (event : AlertEvent Value Time)
      → AreWell outside stream
      → IsDue outside stream d event
      → Memᴰ {A = UserDevice × AlertEvent Value Time} (d, event) (due outside stream)
  IsDue-due [] d event h k = absurd k
  IsDue-due (receive_error ∷ stream) d event h k = IsDue-due stream d event h k
  IsDue-due (message m now cache ∷ stream) d event (inv, located, h) (inl a) =
      Memᴰ.append_left (due outside stream) (Asks-due_of m now cache d event inv located a)
  IsDue-due (message m now cache ∷ stream) d event (inv, located, h) (inr b) =
      Memᴰ.append_right (due_of outside (alert_of outside m) now cache)
        (IsDue-due stream d event h b)

  module _ (services : Services Value Time) where
    -- The worker settled what the stream asks for, and nothing else.
    pub record Reaches (stopped : Bool) (stream : List StreamItem) (w : World services)
        (w' : Worker services) : Type 0 where
      pub settles : Settles services stopped (due outside stream) w w'
      pub only_due :
          (d : UserDevice) (event : AlertEvent Value Time)
          → Memᴰ {A = UserDevice × AlertEvent Value Time} (d, event) (concat w'.batches)
          → IsDue outside stream d event
      pub all_due :
          (d : UserDevice) (event : AlertEvent Value Time)
          → IsDue outside stream d event
          → Memᴰ {A = UserDevice × AlertEvent Value Time} (d, event) (concat w'.batches)

    Settles-Reaches :
        {stopped : Bool} (stream : List StreamItem) (w : World services) (w' : Worker services)
        → AreWell outside stream
        → Settles services stopped (due outside stream) w w'
        → Reaches stopped stream w w'
    Settles-Reaches stream w w' well h = record {
      settles = h;
      only_due = λ d event k. due-IsDue stream d event well (
          subst (λ (l : List (UserDevice × AlertEvent Value Time)). Memᴰ (d, event) l)
            h.drained.batched k);
      all_due = λ d event k.
          subst (λ (l : List (UserDevice × AlertEvent Value Time)). Memᴰ (d, event) l)
            (sym h.drained.batched) (IsDue-due stream d event well k);
    }

    -- When the consumer of the alerts has handled a stream, with the cache well formed and the
    -- devices of each unit naming its organization wherever the recipients are read, the queue
    -- keeps what is sent and was empty, and the worker, started on a well-formed cache, received
    -- all of it in order, with other events between but not the end of the queue, then behind a
    -- deadline as behind the end of the queue the batches hold a device with an alert exactly when
    -- some message carries the alert and the documented rule entitles a user to its unit for whom
    -- the device is listed, active and with a supported endpoint, and as many deliveries were
    -- counted (modulo 2^64) as were due.
    pub alerts_reach :
        (contents : outside.Queue → List (UserDevice × AlertEvent Value Time))
        (finish : List (UserDevice × AlertEvent Value Time)
          → List (UserDevice × AlertEvent Value Time))
        (stream : List StreamItem) (p : Pipeline outside) (w : World services)
        (events : List (Option (Received (UserDevice × AlertEvent Value Time))))
        → Holds outside contents
        → ((ds : List (UserDevice × AlertEvent Value Time)) → length (finish ds) ≡ length ds)
        → AreWell outside stream
        → Inv w.cache
        → contents p.queue ≡ []
        → AreOpen events
        → items events ≡ contents (run outside stream p).queue
        → Reaches false stream w
            (sns_worker_task services finish (events ++ none ∷ []) (idle services w))
          × Reaches true stream w (
              sns_worker_task services finish
                (events ++ some closed ∷ some closed ∷ [])
                (idle services w))
    alerts_reach contents finish stream p w events holds all_finish well inv fresh is_open
          all_received =
        let received : items events ≡ due outside stream =
          all_received
          ∙ (run-contents outside contents holds stream p
              ∙ ap (λ l. l ++ due outside stream) fresh) in
        let (pause, end) =
          sns_worker_task_finishes services finish events w all_finish inv is_open in
        (
          Settles-Reaches stream w _ well (
              subst
                (λ l.
                  Settles services false l w
                    (sns_worker_task services finish (events ++ none ∷ []) (idle services w)))
                received pause),
          Settles-Reaches stream w _ well (
              subst
                (λ l. Settles services true l w (
                  sns_worker_task services finish (events ++ some closed ∷ some closed ∷ [])
                    (idle services w)))
                received end),
        )
