-- ===== src/Sns/Worker/Drains.antt =====
-- What the worker owes: behind a deadline nothing waits, and every item taken was counted as
-- published or failed.
use alert_distributor.Base.{
  ℕ, ◌+◌, ◌%◌, ◌≡◌, refl, sym, ◌∙◌, ap, false, Option, none, some, List, [], ◌∷◌, ◌++◌, arith,
  length, length-append, leb, is_empty, Bool-cases, inl, inr,
}
use mathlib.Core.List.{append-nil, append_assoc}
use alert_distributor.Models.AlertEvent.{AlertEvent}
use alert_distributor.Permissions.Cache.Invariant.{Inv}
use alert_distributor.Sns.Models.{UserDevice}
use alert_distributor.Sns.Metrics.{u64_mod, add_lagged}
use alert_distributor.Sns.Worker.{
  Services, World, Received, item, lagged, closed, max_batch, Worker, flush, flush_full,
  receive_first, receive_more, receive, sns_worker_task,
}
use alert_distributor.Sns.Worker.Batches.{
  items, items_of, concat, concat-append, is_empty-nil, sns_worker_task-Takes,
}
use alert_distributor.Sns.Worker.Deliveries.{
  successes, failures, succeeds, outcome, process_batch-Delivered,
}

items-append :
    {Item : Type 0} (events more : List (Option (Received Item)))
    → items (events ++ more) ≡ items events ++ items more
items-append [] more = refl
items-append (event ∷ events) more =
    ap (λ l. items_of event ++ l) (items-append events more)
    ∙ sym (append_assoc (items_of event) (items events) (items more))

module _ {Value Time : Type 0} (services : Services Value Time) where
  -- Every delivery either succeeds or fails.
  successes-failures :
      (ds : List (UserDevice × AlertEvent Value Time))
      → successes services ds + failures services ds ≡ length ds
  successes-failures [] = omega arith
  successes-failures (d ∷ ds) = elim (Bool-cases (succeeds (outcome services d))) [
    | inl e ↦ ground (arith, e, successes-failures ds)
    | inr e ↦ ground (arith, e, successes-failures ds)
  ]

  abbrev pub settled : World services → ℕ
  settled w = w.metrics.published + w.metrics.failed

  -- The counters have grown by the items of the batches since they stood at `base`.
  pub record Accounts (base : ℕ) (w : Worker services) : Type 0 where
    pub counted : settled w.world % u64_mod ≡ (base + length (concat w.batches)) % u64_mod
    pub keeps : Inv w.world.cache

  -- A worker that has just started.
  abbrev pub idle : World services → Worker services
  idle w = record { filling = []; batches = []; world = w; stopped = false }

  -- From `w`, the worker took those items: none waits, all are in batches, each is counted once as
  -- published or failed.
  pub record Drained (xs : List (UserDevice × AlertEvent Value Time)) (w : World services)
      (w' : Worker services) : Type 0 where
    pub waiting : w'.filling ≡ []
    pub batched : concat w'.batches ≡ xs
    pub counted : settled w'.world % u64_mod ≡ (settled w + length xs) % u64_mod
    pub keeps : Inv w'.world.cache

  module _
      (finish : List (UserDevice × AlertEvent Value Time)
        → List (UserDevice × AlertEvent Value Time))
      (all_finish : (ds : List (UserDevice × AlertEvent Value Time))
        → length (finish ds) ≡ length ds)
      (base : ℕ) where
    flush-Accounts :
        (w : Worker services) → Accounts base w → Accounts base (flush services finish w)
    unfolding flush
    flush-Accounts w h =
        let d = process_batch-Delivered services (finish w.filling) w.world h.keeps in
        record {
          counted = omega (
            arith,
            d.published_count,
            d.failed_count,
            h.counted,
            successes-failures (finish w.filling),
            all_finish w.filling,
            ap length (concat-append w.batches w.filling),
            length-append (concat w.batches) w.filling,
          );
          keeps = d.keeps;
        }

    flush_full-Accounts :
        (w : Worker services) → Accounts base w → Accounts base (flush_full services finish w)
    unfolding flush_full
    flush_full-Accounts w h = elim (Bool-cases (leb max_batch (length w.filling))) [
      | inl e ↦ rw (e, flush_full) (flush-Accounts w h)
      | inr e ↦ rw (e, flush_full) h
    ]

    first-Accounts :
        (event : Option (Received (UserDevice × AlertEvent Value Time))) (w : Worker services)
        → Accounts base w
        → Accounts base (receive_first services finish event w)
    unfolding receive_first add_lagged
    first-Accounts none w h = h
    first-Accounts (some closed) w h = record { counted = h.counted; keeps = h.keeps }
    first-Accounts (some (lagged n)) w h = record { counted = h.counted; keeps = h.keeps }
    first-Accounts (some (item x)) w h = record { counted = h.counted; keeps = h.keeps }

    more-Accounts :
        (event : Option (Received (UserDevice × AlertEvent Value Time))) (w : Worker services)
        → Accounts base w
        → Accounts base (receive_more services finish event w)
    unfolding receive_more add_lagged
    more-Accounts none w h = flush-Accounts w h
    more-Accounts (some closed) w h = flush-Accounts w h
    more-Accounts (some (lagged n)) w h =
        flush_full-Accounts _ (record { counted = h.counted; keeps = h.keeps })
    more-Accounts (some (item x)) w h =
        flush_full-Accounts _ (record { counted = h.counted; keeps = h.keeps })

    receive-Accounts :
        (event : Option (Received (UserDevice × AlertEvent Value Time))) (w : Worker services)
        → Accounts base w
        → Accounts base (receive services finish event w)
    unfolding receive
    receive-Accounts event w h = elim (Bool-cases w.stopped) [
      | inl s ↦ simp (s, receive) h
      | inr s ↦ elim (Bool-cases (is_empty w.filling)) [
        | inl e ↦ simp (s, e, receive) (first-Accounts event w h)
        | inr e ↦ simp (s, e, receive) (more-Accounts event w h)
      ]
    ]

    pub task-Accounts :
        (events : List (Option (Received (UserDevice × AlertEvent Value Time))))
        (w : Worker services)
        → Accounts base w
        → Accounts base (sns_worker_task services finish events w)
    unfolding sns_worker_task
    task-Accounts [] w h = h
    task-Accounts (event ∷ events) w h =
        task-Accounts events (receive services finish event w) (receive-Accounts event w h)

  module _
      (finish : List (UserDevice × AlertEvent Value Time)
        → List (UserDevice × AlertEvent Value Time)) where
    pub task-append :
        (events more : List (Option (Received (UserDevice × AlertEvent Value Time))))
        (w : Worker services)
        → sns_worker_task services finish (events ++ more) w
          ≡ sns_worker_task services finish more (sns_worker_task services finish events w)
    unfolding sns_worker_task
    task-append [] more w = refl
    task-append (event ∷ events) more w = task-append events more (receive services finish event w)

    -- A deadline leaves nothing waiting.
    deadline_empties :
        (w : Worker services)
        → (receive services finish none w).stopped ≡ false
        → (receive services finish none w).filling ≡ []
    unfolding receive receive_first receive_more flush
    deadline_empties w h = elim (Bool-cases w.stopped) [
      | inl s ↦ absurd (ground (arith, s))
      | inr s ↦ elim (Bool-cases (is_empty w.filling)) [
        | inl e ↦ simp (s, e, receive) (is_empty-nil w.filling e)
        | inr e ↦ simp (s, e, receive) refl
      ]
    ]

  pub sns_worker_task_drains :
      (finish : List (UserDevice × AlertEvent Value Time)
        → List (UserDevice × AlertEvent Value Time))
      (events : List (Option (Received (UserDevice × AlertEvent Value Time)))) (w : World services)
      → ((ds : List (UserDevice × AlertEvent Value Time)) → length (finish ds) ≡ length ds)
      → Inv w.cache
      → (sns_worker_task services finish (events ++ none ∷ []) (idle w)).stopped ≡ false
      → Drained (items events) w (sns_worker_task services finish (events ++ none ∷ []) (idle w))
  unfolding sns_worker_task
  sns_worker_task_drains finish events w all_finish v h =
      let before = sns_worker_task services finish events (idle w) in
      let end = sns_worker_task services finish (events ++ none ∷ []) (idle w) in
      let split = task-append finish events (none ∷ []) (idle w) in
      let waiting : end.filling ≡ [] =
        ap (λ (x : Worker services). x.filling) split
        ∙ deadline_empties finish before
            (ap (λ (x : Worker services). x.stopped) (sym split) ∙ h) in
      let batched : concat end.batches ≡ items events =
        sym (append-nil (concat end.batches))
        ∙ (ap (λ l. concat end.batches ++ l) (sym waiting)
            ∙ ((sns_worker_task-Takes services finish (events ++ none ∷ []) (idle w)).taken_items h
                ∙ (items-append events (none ∷ []) ∙ append-nil (items events)))) in
      let accounts =
        task-Accounts finish all_finish (settled w) (events ++ none ∷ []) (idle w)
          (record { counted = omega arith; keeps = v }) in
      record {
        waiting = waiting;
        batched = batched;
        counted = accounts.counted ∙ ap (λ l. (settled w + length l) % u64_mod) batched;
        keeps = accounts.keeps;
      }
