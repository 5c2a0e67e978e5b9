-- ===== src/Sns/Worker/Batches.antt =====
-- No item of the queue is lost or taken twice, and the batches keep their bound.
use alert_distributor.Base.{
  ◌≤◌, ◌<◌, ◌≡◌, refl, ◌∙◌, ap, sym, Bool, true, false, Option, none, some, List, [], ◌∷◌, ◌++◌,
  arith, length, length-append, leb, is_empty, Bool-cases, inl, inr,
}
use mathlib.Core.List.{append-nil, append_assoc}
use alert_distributor.Models.AlertEvent.{AlertEvent}
use alert_distributor.Sns.Models.{UserDevice}
use alert_distributor.Sns.Metrics.{add_lagged}
use alert_distributor.Sns.Worker.{
  Services, Received, item, lagged, closed, max_batch, Worker, flush, flush_full, receive_first,
  receive_more, receive, sns_worker_task,
}

-- The items among what the queue gave, in order.
abbrev pub items_of : {Item : Type 0} → Option (Received Item) → List Item
items_of none = []
items_of (some closed) = []
items_of (some (lagged n)) = []
items_of (some (item x)) = x ∷ []

abbrev pub items : {Item : Type 0} → List (Option (Received Item)) → List Item
items [] = []
items (event ∷ events) = items_of event ++ items events

abbrev pub concat : {A : Type 0} → List (List A) → List A
concat [] = []
concat (l ∷ ls) = l ++ concat ls

pub concat-append :
    {A : Type 0} (ls : List (List A)) (l : List A) → concat (ls ++ l ∷ []) ≡ concat ls ++ l
concat-append [] l = append-nil l
concat-append (k ∷ ls) l = ap (◌++◌ k) (concat-append ls l) ∙ sym (append_assoc k (concat ls) l)

-- Each batch has an item, and no more than the bound.
abbrev pub AreBatches : {A : Type 0} → List (List A) → Type 0
AreBatches [] = Unit
AreBatches (l ∷ ls) = (0 < length l) × (length l ≤ max_batch) × AreBatches ls

append-AreBatches :
    {A : Type 0} (ls : List (List A)) (l : List A)
    → AreBatches ls
    → 0 < length l
    → length l ≤ max_batch
    → AreBatches (ls ++ l ∷ [])
append-AreBatches [] l h k m = (k, m, tt)
append-AreBatches (x ∷ ls) l h k m = (h.0, h.1, append-AreBatches ls l h.2 k m)

is_empty-length : {A : Type 0} (l : List A) → is_empty l ≡ false → 0 < length l
is_empty-length [] h = cc
is_empty-length (x ∷ l) h = omega arith

pub is_empty-nil : {A : Type 0} (l : List A) → is_empty l ≡ true → l ≡ []
is_empty-nil [] h = refl
is_empty-nil (x ∷ l) h = cc

-- By contraposition.
still_false : {a b : Bool} → (a ≡ true → b ≡ true) → b ≡ false → a ≡ false
still_false {a} h e = elim (Bool-cases a) [ inl t ↦ ground (arith, h t, e) | inr f ↦ f ]

module _ {Value Time : Type 0} (services : Services Value Time)
    (finish : List (UserDevice × AlertEvent Value Time)
      → List (UserDevice × AlertEvent Value Time)) where
  -- The items that the worker took: those of its batches, and those waiting in the next.
  abbrev pub taken : Worker services → List (UserDevice × AlertEvent Value Time)
  taken w = concat w.batches ++ w.filling

  pub record IsBounded (w : Worker services) : Type 0 where
    pub batches : AreBatches w.batches
    pub filling : length w.filling < max_batch

  pub record Takes (xs : List (UserDevice × AlertEvent Value Time)) (w w' : Worker services)
      : Type 0 where
    pub taken_items : w'.stopped ≡ false → taken w' ≡ taken w ++ xs
    pub bounded : IsBounded w → IsBounded w'
    pub stays : w.stopped ≡ true → w'.stopped ≡ true

  flush-taken : (w : Worker services) → taken (flush services finish w) ≡ taken w
  unfolding flush
  flush-taken w =
      append-nil (concat (w.batches ++ w.filling ∷ [])) ∙ concat-append w.batches w.filling

  flush-IsBounded :
      (w : Worker services)
      → AreBatches w.batches
      → 0 < length w.filling
      → length w.filling ≤ max_batch
      → IsBounded (flush services finish w)
  unfolding flush
  flush-IsBounded w h k m = record {
    batches = append-AreBatches w.batches w.filling h k m;
    filling = omega arith;
  }

  flush_full-taken : (w : Worker services) → taken (flush_full services finish w) ≡ taken w
  unfolding flush_full
  flush_full-taken w = elim (Bool-cases (leb max_batch (length w.filling))) [
    | inl e ↦ rw (e, flush_full) (flush-taken w)
    | inr e ↦ rw (e, flush_full) refl
  ]

  flush_full-IsBounded :
      (w : Worker services)
      → AreBatches w.batches
      → 0 < length w.filling
      → length w.filling ≤ max_batch
      → IsBounded (flush_full services finish w)
  unfolding flush_full
  flush_full-IsBounded w h k m = elim (Bool-cases (leb max_batch (length w.filling))) [
    | inl e ↦ rw (e, flush_full) (flush-IsBounded w h k m)
    | inr e ↦ rw (e, flush_full) (record { batches = h; filling = ground (arith, e) })
  ]

  flush_full-stopped : (w : Worker services) → (flush_full services finish w).stopped ≡ w.stopped
  unfolding flush_full flush
  flush_full-stopped w = ground arith

  first-Takes :
      (event : Option (Received (UserDevice × AlertEvent Value Time))) (w : Worker services)
      → w.filling ≡ []
      → w.stopped ≡ false
      → Takes (items_of event) w (receive_first services finish event w)
  unfolding receive_first
  first-Takes none w h g = record {
    taken_items = λ e. sym (append-nil (taken w));
    bounded = λ b. b;
    stays = λ e. e;
  }
  first-Takes (some closed) w h g = record {
    taken_items = λ e. cc;
    bounded = λ b. record { batches = b.batches; filling = b.filling };
    stays = λ e. refl;
  }
  first-Takes (some (lagged n)) w h g = record {
    taken_items = λ e. sym (append-nil (taken w));
    bounded = λ b. record { batches = b.batches; filling = b.filling };
    stays = λ e. e;
  }
  first-Takes (some (item x)) w h g = record {
    taken_items = λ e. ground (arith, h, append-nil (concat w.batches));
    bounded = λ b. record { batches = b.batches; filling = omega arith };
    stays = λ e. e;
  }

  more-Takes :
      (event : Option (Received (UserDevice × AlertEvent Value Time))) (w : Worker services)
      → is_empty w.filling ≡ false
      → Takes (items_of event) w (receive_more services finish event w)
  unfolding receive_more flush
  more-Takes none w h = record {
    taken_items = λ e. flush-taken w ∙ sym (append-nil (taken w));
    bounded =
        λ b. flush-IsBounded w b.batches (is_empty-length w.filling h) (omega (arith, b.filling));
    stays = λ e. e;
  }
  more-Takes (some closed) w h = record {
    taken_items = λ e. flush-taken w ∙ sym (append-nil (taken w));
    bounded =
        λ b. flush-IsBounded w b.batches (is_empty-length w.filling h) (omega (arith, b.filling));
    stays = λ e. e;
  }
  more-Takes (some (lagged n)) w h =
      let v : Worker services = record w {
        world = record w.world { metrics = add_lagged n w.world.metrics };
      } in
      record {
        taken_items = λ e. flush_full-taken v ∙ sym (append-nil (taken w));
        bounded = λ b.
            flush_full-IsBounded v b.batches (is_empty-length w.filling h)
              (omega (arith, b.filling));
        stays = λ e. flush_full-stopped v ∙ e;
      }
  more-Takes (some (item x)) w h =
      let v : Worker services = record w { filling = w.filling ++ x ∷ [] } in
      record {
        taken_items =
            λ e. flush_full-taken v ∙ sym (append_assoc (concat w.batches) w.filling (x ∷ []));
        bounded = λ b.
            flush_full-IsBounded v b.batches (omega (arith, length-append w.filling (x ∷ [])))
              (omega (arith, length-append w.filling (x ∷ []), b.filling));
        stays = λ e. flush_full-stopped v ∙ e;
      }

  receive-Takes :
      (event : Option (Received (UserDevice × AlertEvent Value Time))) (w : Worker services)
      → Takes (items_of event) w (receive services finish event w)
  unfolding receive
  receive-Takes event w = elim (Bool-cases w.stopped) [
    | inl s ↦ simp (s, receive) (record { taken_items = λ e. cc; bounded = λ b. b; stays = λ e. e })
    | inr s ↦ elim (Bool-cases (is_empty w.filling)) [
      | inl e ↦ simp (s, e, receive) (first-Takes event w (is_empty-nil w.filling e) s)
      | inr e ↦ simp (s, e, receive) (more-Takes event w e)
    ]
  ]

  -- Whatever the queue gives, while the worker has not stopped its batches and the one being filled
  -- hold exactly the items received, in order, none lost and none twice; when each batch has from 1
  -- to 256 items and the one being filled fewer than 256, that stays so; and a worker that has
  -- stopped stays stopped.
  pub sns_worker_task-Takes :
      (events : List (Option (Received (UserDevice × AlertEvent Value Time)))) (w : Worker services)
      → Takes (items events) w (sns_worker_task services finish events w)
  unfolding sns_worker_task
  sns_worker_task-Takes [] w = record {
    taken_items = λ e. sym (append-nil (taken w));
    bounded = λ b. b;
    stays = λ e. e;
  }
  sns_worker_task-Takes (event ∷ events) w =
      let h = receive-Takes event w in
      let k = sns_worker_task-Takes events (receive services finish event w) in
      record {
        taken_items = λ e.
            k.taken_items e
            ∙ (ap (λ l. l ++ items events) (h.taken_items (still_false k.stays e))
                ∙ append_assoc (taken w) (items_of event) (items events));
        bounded = λ b. k.bounded (h.bounded b);
        stays = λ e. k.stays (h.stays e);
      }
