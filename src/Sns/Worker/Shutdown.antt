-- ===== src/Sns/Worker/Shutdown.antt =====
-- How the worker of src/main.rs pauses and how it ends: at a deadline and at the end of the queue
-- nothing is left behind.
use alert_distributor.Base.{
  ◌+◌, ◌%◌, ◌≡◌, refl, sym, ◌∙◌, ap, true, false, Bool, Option, none, some, List, [], ◌∷◌, ◌++◌,
  arith, length, is_empty, Bool-cases, inl, inr,
}
use mathlib.Core.List.{append-nil}
use alert_distributor.Models.AlertEvent.{AlertEvent}
use alert_distributor.Permissions.Cache.Invariant.{Inv}
use alert_distributor.Sns.Models.{UserDevice}
use alert_distributor.Sns.Metrics.{u64_mod}
use alert_distributor.Sns.Worker.{
  Services, World, Received, item, lagged, closed, Worker, flush, flush_full, receive_first,
  receive_more, receive, sns_worker_task,
}
use alert_distributor.Sns.Worker.Batches.{
  items, concat, concat-append, is_empty-nil, taken, AreBatches, sns_worker_task-Takes,
}
use alert_distributor.Sns.Worker.Drains.{
  idle, Drained, settled, task-Accounts, task-append, sns_worker_task_drains,
}

-- The queue has not ended among these.
abbrev pub AreOpen : {Item : Type 0} → List (Option (Received Item)) → Type 0
AreOpen [] = Unit
AreOpen (some closed ∷ events) = ⊥
AreOpen (none ∷ events) = AreOpen events
AreOpen (some (lagged n) ∷ events) = AreOpen events
AreOpen (some (item x) ∷ events) = AreOpen events

module _ {Value Time : Type 0} (services : Services Value Time)
    (finish : List (UserDevice × AlertEvent Value Time)
      → List (UserDevice × AlertEvent Value Time)) where
  open-running :
      (events : List (Option (Received (UserDevice × AlertEvent Value Time)))) (w : Worker services)
      → AreOpen events
      → w.stopped ≡ false
      → (sns_worker_task services finish events w).stopped ≡ false
  unfolding sns_worker_task receive receive_first receive_more flush flush_full
  open-running [] w o h = h
  open-running (some closed ∷ events) w o h = absurd o
  open-running (none ∷ events) w o h =
      open-running events (receive services finish none w) o (ground (arith, h))
  open-running (some (lagged n) ∷ events) w o h =
      open-running events (receive services finish (some (lagged n)) w) o (ground (arith, h))
  open-running (some (item x) ∷ events) w o h =
      open-running events (receive services finish (some (item x)) w) o (ground (arith, h))

  -- The end of the queue is received once for the batch that is being filled, and once more.
  record Ends (w w' : Worker services) : Type 0 where
    ended : w'.stopped ≡ true
    waiting : w'.filling ≡ []
    batched : concat w'.batches ≡ taken services finish w

  closing-Ends :
      (w : Worker services)
      → w.stopped ≡ false
      → Ends w (sns_worker_task services finish (some closed ∷ some closed ∷ []) w)
  unfolding sns_worker_task receive receive_first receive_more flush
  closing-Ends w h = elim (Bool-cases (is_empty w.filling)) [
    | inl e ↦
        simp (h, e, receive)
          (record {
            ended = refl;
            waiting = is_empty-nil w.filling e;
            batched =
                sym (append-nil (concat w.batches))
                ∙ ap (λ l. concat w.batches ++ l) (sym (is_empty-nil w.filling e));
          })
    | inr e ↦
        simp (h, e, receive)
          (record { ended = refl; waiting = refl; batched = concat-append w.batches w.filling })
  ]

module _ {Value Time : Type 0} (services : Services Value Time) where
  -- Nothing waits and every item is settled; each batch has from 1 to 256 items; the worker has
  -- stopped or goes on.
  pub record Settles (stopped : Bool) (xs : List (UserDevice × AlertEvent Value Time))
      (w : World services) (w' : Worker services) : Type 0 where
    pub drained : Drained services xs w w'
    pub bounded : AreBatches w'.batches
    pub state : w'.stopped ≡ stopped

  idle-bounded :
      (finish : List (UserDevice × AlertEvent Value Time)
        → List (UserDevice × AlertEvent Value Time))
      (events : List (Option (Received (UserDevice × AlertEvent Value Time)))) (w : World services)
      → AreBatches (sns_worker_task services finish events (idle services w)).batches
  idle-bounded finish events w =
      ((sns_worker_task-Takes services finish events (idle services w)).bounded
        (record { batches = tt; filling = omega arith })).batches

  -- When a worker that has just started on a well-formed cache receives any events before the end
  -- of the queue, then a deadline lets it go on and the end of the queue stops it, and in either
  -- case nothing waits: all items received are in its batches, in order, each batch has from 1 to
  -- 256 of them, the counters of published and failed together have grown by exactly their number
  -- (modulo 2^64), and the cache is well formed; the deliveries of a batch may finish in any order
  -- that keeps their number.
  pub sns_worker_task_finishes :
      (finish : List (UserDevice × AlertEvent Value Time)
        → List (UserDevice × AlertEvent Value Time))
      (events : List (Option (Received (UserDevice × AlertEvent Value Time)))) (w : World services)
      → ((ds : List (UserDevice × AlertEvent Value Time)) → length (finish ds) ≡ length ds)
      → Inv w.cache
      → AreOpen events
      → Settles false
          (items events)
          w
          (sns_worker_task services finish (events ++ none ∷ []) (idle services w))
        × Settles true (items events) w (
            sns_worker_task services finish
              (events ++ some closed ∷ some closed ∷ [])
              (idle services w))
  unfolding sns_worker_task
  sns_worker_task_finishes finish events w all_finish v o =
      let before = sns_worker_task services finish events (idle services w) in
      let goes_on : before.stopped ≡ false =
        open-running services finish events (idle services w) o refl in
      let rest : List (Option (Received (UserDevice × AlertEvent Value Time))) =
        some closed ∷ some closed ∷ [] in
      let pause = task-append services finish events (none ∷ []) (idle services w) in
      let end = task-append services finish events rest (idle services w) in
      let e = closing-Ends services finish before goes_on in
      let batched =
        ap (λ (x : Worker services). concat x.batches) end
        ∙ (e.batched
            ∙ (sns_worker_task-Takes services finish events (idle services w)).taken_items
                goes_on) in
      let accounts =
        task-Accounts services finish all_finish (settled services w) (events ++ rest)
          (idle services w) (record { counted = omega arith; keeps = v }) in
      let running =
        ap (λ (x : Worker services). x.stopped) pause
        ∙ open-running services finish (none ∷ []) before tt goes_on in
      (
        record {
          drained = sns_worker_task_drains services finish events w all_finish v running;
          bounded = idle-bounded finish (events ++ none ∷ []) w;
          state = running;
        },
        record {
          drained = record {
            waiting = ap (λ (x : Worker services). x.filling) end ∙ e.waiting;
            batched = batched;
            counted =
                accounts.counted ∙ ap (λ l. (settled services w + length l) % u64_mod) batched;
            keeps = accounts.keeps;
          };
          bounded = idle-bounded finish (events ++ rest) w;
          state = ap (λ (x : Worker services). x.stopped) end ∙ e.ended;
        },
      )
