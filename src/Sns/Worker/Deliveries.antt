-- ===== src/Sns/Worker/Deliveries.antt =====
-- What the deliveries of a batch count, and which devices they remove.
use alert_distributor.Base.{
  ℕ, ◌+◌, ◌%◌, ◌≡◌, refl, ◌∙◌, ap, sym, subst, Bool, true, false, not, Option, none, some, List, [],
  ◌∷◌, ◌++◌, arith, filter, nat_eq, contains, contains-nil, contains-cons, contains-append,
  if◌then◌else◌, inl, inr, Option-cases, unwrap_or,
}
use alert_distributor.Models.AlertEvent.{AlertEvent}
use alert_distributor.Permissions.Cache.Invariant.{Inv}
use alert_distributor.Permissions.Cache.Invariant.Keeps.{deactivate_device-Inv}
use alert_distributor.Permissions.Cache.Mobiles.{devices_of, devices_of-drop_device, is_other}
use alert_distributor.Permissions.Cache.Write.{deactivate_device}
use alert_distributor.Sns.Models.{
  UserDevice, SnsError, invalid_endpoint, throttled, auth_error, platform_disabled, network_error,
  unknown_error,
}
use alert_distributor.Sns.Metrics.{SnsMetrics, u64_mod, inc_published, inc_failed}
use alert_distributor.Sns.Client.{Result, ok, err, publish_to_endpoint}
use alert_distributor.Sns.Client.Attempts.{publish_to_endpoint_returns}
use alert_distributor.Sns.Worker.{
  Services, World, payload_of, process_sns_delivery, process_batch, conclude, on_error, retire,
}

abbrev pub succeeds : {Output : Type 0} → Option (Result Output × List ℕ) → Bool
succeeds (some (ok output, delays)) = true
succeeds _ = false

abbrev pub is_invalid_endpoint : {Output : Type 0} → Option (Result Output × List ℕ) → Bool
is_invalid_endpoint (some (err (invalid_endpoint msg), delays)) = true
is_invalid_endpoint _ = false

module _ {Value Time : Type 0} (services : Services Value Time) where
  abbrev pub outcome : UserDevice × AlertEvent Value Time → Option (Result services.Output × List ℕ)
  outcome (device, event) =
      publish_to_endpoint (services.publish device.endpoint_arn (payload_of services event))
        services.max_retries

  -- The devices of invalid endpoints that the database marks, one after the other.
  abbrev pub marked : Bool → ℕ → services.Db → Option services.Db
  marked invalid id db = if invalid then services.mark_device_inactive id db else none

  -- The device that a delivery with that outcome retires, and the database behind it.
  abbrev pub gone : UserDevice → Option (Result services.Output × List ℕ) → services.Db → List ℕ
  gone device o db = elim (marked (is_invalid_endpoint o) device.id db) [
    | none ↦ []
    | some db' ↦ device.id ∷ []
  ]

  abbrev pub db_after :
      UserDevice → Option (Result services.Output × List ℕ) → services.Db → services.Db
  db_after device o db = unwrap_or (marked (is_invalid_endpoint o) device.id db) db

  abbrev pub retired : List (UserDevice × AlertEvent Value Time) → services.Db → List ℕ
  retired [] db = []
  retired (d ∷ ds) db = gone d.0 (outcome d) db ++ retired ds (db_after d.0 (outcome d) db)

  -- From `w` to `w'` with so many successes and failures, and with those devices gone.
  pub record Delivered (published failed : ℕ) (left : List ℕ) (w w' : World services) : Type 0 where
    pub published_count :
        w'.metrics.published % u64_mod ≡ (w.metrics.published + published) % u64_mod
    pub failed_count : w'.metrics.failed % u64_mod ≡ (w.metrics.failed + failed) % u64_mod
    pub devices :
        (user : ℕ)
        → devices_of user w'.cache.user_devices
          ≡ filter (λ d. not (contains d.id left)) (devices_of user w.cache.user_devices)
    pub same : w'.cache ≡ record w.cache { user_devices = w'.cache.user_devices }
    pub keeps : Inv w'.cache

  filter-none : (l : List UserDevice) → filter (λ d. not (contains d.id [])) l ≡ l
  filter-none [] = refl
  filter-none (d ∷ l) = ground (arith, filter-none l, contains-nil d.id)

  filter-one :
      (id : ℕ) (l : List UserDevice)
      → filter (is_other id) l ≡ filter (λ d. not (contains d.id (id ∷ []))) l
  filter-one id [] = refl
  filter-one id (d ∷ l) =
      ground (arith, filter-one id l, contains-nil d.id, contains-cons d.id id [])

  filter-both :
      (gone more : List ℕ) (l : List UserDevice)
      → filter (λ d. not (contains d.id more)) (filter (λ d. not (contains d.id gone)) l)
        ≡ filter (λ d. not (contains d.id (gone ++ more))) l
  filter-both gone more [] = refl
  filter-both gone more (d ∷ l) =
      ground (arith, filter-both gone more l, contains-append d.id gone more)

  Delivered-compose :
      {p f p' f' : ℕ} {g g' : List ℕ} {u v w : World services}
      → Delivered p f g u v
      → Delivered p' f' g' v w
      → Delivered (p + p') (f + f') (g ++ g') u w
  Delivered-compose {p} {f} {p'} {f'} {g} {g'} {u} {v} {w} h k = record {
    published_count = omega (arith, h.published_count, k.published_count);
    failed_count = omega (arith, h.failed_count, k.failed_count);
    devices = λ user.
        k.devices user
        ∙ (ap (filter (λ d. not (contains d.id g'))) (h.devices user)
            ∙ filter-both g g' (devices_of user u.cache.user_devices));
    same = ground (arith, h.same, k.same);
    keeps = k.keeps;
  }

  metrics-Delivered :
      {p f : ℕ} (w : World services) (m : SnsMetrics)
      → Inv w.cache
      → m.published % u64_mod ≡ (w.metrics.published + p) % u64_mod
      → m.failed % u64_mod ≡ (w.metrics.failed + f) % u64_mod
      → Delivered p f [] w (record w { metrics = m })
  metrics-Delivered w m v h k = record {
    published_count = h;
    failed_count = k;
    devices = λ user. sym (filter-none (devices_of user w.cache.user_devices));
    same = refl;
    keeps = v;
  }

  error-Delivered :
      (device : UserDevice) (e : SnsError) (delays : List ℕ) (w : World services)
      → Inv w.cache
      → Delivered 0 1 (gone device (some (err e, delays)) w.db) w (on_error services device e w)
  unfolding on_error retire inc_failed deactivate_device
  error-Delivered device (invalid_endpoint msg) delays w v =
      elim (Option-cases (services.mark_device_inactive device.id w.db)) [
        | inl e ↦
            rw (e, retire)
              (record {
                published_count = omega arith;
                failed_count = omega arith;
                devices = λ user. sym (filter-none (devices_of user w.cache.user_devices));
                same = refl;
                keeps = v;
              })
        | inr (db, e) ↦
            rw (e, retire)
              (record {
                published_count = omega arith;
                failed_count = omega arith;
                devices = λ user.
                    devices_of-drop_device device.id user w.cache.user_devices v.mobiles
                    ∙ filter-one device.id (devices_of user w.cache.user_devices);
                same = refl;
                keeps = deactivate_device-Inv v device.id;
              })
      ]
  error-Delivered device throttled delays w v =
      metrics-Delivered w (inc_failed w.metrics) v (omega arith) (omega arith)
  error-Delivered device (auth_error m) delays w v =
      metrics-Delivered w (inc_failed w.metrics) v (omega arith) (omega arith)
  error-Delivered device (platform_disabled m) delays w v =
      metrics-Delivered w (inc_failed w.metrics) v (omega arith) (omega arith)
  error-Delivered device (network_error m) delays w v =
      metrics-Delivered w (inc_failed w.metrics) v (omega arith) (omega arith)
  error-Delivered device (unknown_error m) delays w v =
      metrics-Delivered w (inc_failed w.metrics) v (omega arith) (omega arith)

  -- What one delivery with that outcome does.
  abbrev pub Settled :
      UserDevice
      → Option (Result services.Output × List ℕ)
      → World services
      → World services
      → Type 0
  Settled device o w w' =
      Delivered (if succeeds o then 1 else 0) (if succeeds o then 0 else 1) (gone device o w.db) w
        w'

  conclude-Delivered :
      (device : UserDevice) (r : Result services.Output) (delays : List ℕ) (w : World services)
      → Inv w.cache
      → Settled device (some (r, delays)) w (conclude services device (some (r, delays)) w)
  unfolding conclude inc_published
  conclude-Delivered device (ok output) delays w v =
      metrics-Delivered w (inc_published w.metrics) v (omega arith) (omega arith)
  conclude-Delivered device (err e) delays w v = error-Delivered device e delays w v

  delivery-Delivered :
      (d : UserDevice × AlertEvent Value Time) (w : World services)
      → Inv w.cache
      → Settled d.0 (outcome d) w (process_sns_delivery services d w)
  unfolding process_sns_delivery
  delivery-Delivered (device, event) w v =
      let (r, delays, e, o, twice, few) =
        publish_to_endpoint_returns
          (services.publish device.endpoint_arn (payload_of services event)) services.max_retries in
      subst
        (λ (o : Option (Result services.Output × List ℕ)).
          Settled device o w (conclude services device o w))
        (sym e) (conclude-Delivered device r delays w v)

  db-on_error :
      (device : UserDevice) (e : SnsError) (delays : List ℕ) (w : World services)
      → (on_error services device e w).db ≡ db_after device (some (err e, delays)) w.db
  unfolding on_error retire
  db-on_error device (invalid_endpoint msg) delays w =
      elim (Option-cases (services.mark_device_inactive device.id w.db)) [
        | inl e ↦ ground (arith, e)
        | inr (db, e) ↦ ground (arith, e)
      ]
  db-on_error device throttled delays w = refl
  db-on_error device (auth_error m) delays w = refl
  db-on_error device (platform_disabled m) delays w = refl
  db-on_error device (network_error m) delays w = refl
  db-on_error device (unknown_error m) delays w = refl

  db-conclude :
      (device : UserDevice) (o : Option (Result services.Output × List ℕ)) (w : World services)
      → (conclude services device o w).db ≡ db_after device o w.db
  unfolding conclude
  db-conclude device none w = refl
  db-conclude device (some (ok output, delays)) w = refl
  db-conclude device (some (err e, delays)) w = db-on_error device e delays w

  abbrev pub successes : List (UserDevice × AlertEvent Value Time) → ℕ
  successes [] = 0
  successes (d ∷ ds) = (if succeeds (outcome d) then 1 else 0) + successes ds

  abbrev pub failures : List (UserDevice × AlertEvent Value Time) → ℕ
  failures [] = 0
  failures (d ∷ ds) = (if succeeds (outcome d) then 0 else 1) + failures ds

  -- From a well-formed cache, the deliveries of a batch count each success and each failure once
  -- (modulo 2^64), remove from the lists of mobile devices exactly the devices whose endpoint SNS
  -- calls invalid and which the database could mark, change nothing else of the cache, and leave it
  -- well formed, in whatever order they finish.
  pub process_batch-Delivered :
      (ds : List (UserDevice × AlertEvent Value Time)) (w : World services)
      → Inv w.cache
      → Delivered (successes ds) (failures ds) (retired ds w.db) w (process_batch services ds w)
  unfolding process_batch process_sns_delivery
  process_batch-Delivered [] w v = metrics-Delivered w w.metrics v (omega arith) (omega arith)
  process_batch-Delivered ((device, event) ∷ ds) w v =
      let d : UserDevice × AlertEvent Value Time = (device, event) in
      let w' = process_sns_delivery services d w in
      let h = delivery-Delivered d w v in
      subst
        (λ (db : services.Db).
          Delivered (successes (d ∷ ds)) (failures (d ∷ ds))
            (gone device (outcome d) w.db ++ retired ds db) w (process_batch services ds w'))
        (db-conclude device (outcome d) w)
        (Delivered-compose h (process_batch-Delivered ds w' h.keeps))
