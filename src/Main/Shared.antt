-- ===== src/Main/Shared.antt =====
-- The cache under its two writers: the reader of the control plane, and the worker that retires the
-- devices whose endpoint is gone.
use alert_distributor.Base.{
  ℕ, ◌+◌, ◌≡◌, ◌∙◌, ap, Option, none, some, List, [], ◌∷◌, nat_eq, list_eq,
}
use alert_distributor.HashMap.{HashMap, insert}
use alert_distributor.Permissions.Cache.{State}
use alert_distributor.Permissions.Cache.Invariant.{Inv}
use alert_distributor.Permissions.Cache.Write.{deactivate_device}
use alert_distributor.Permissions.Cache.Facts.{Key, user, member, granted, device, mobile, fact}
use alert_distributor.Permissions.Cache.Facts.Assertions.{asserted}
use alert_distributor.Permissions.Cache.Facts.Writes.{deactivate_device-Asserts}
use alert_distributor.Permissions.Loader.Shows.{IsControl}
use alert_distributor.Kafka.ControlPlane.{Serde, apply_event}
use alert_distributor.Kafka.ControlPlane.Events.{apply_event-Overwrites}
use alert_distributor.Kafka.ControlPlane.CatchUp.{same_at}
use alert_distributor.Kafka.ControlPlane.Consumer.{
  ControlPlaneHealth, Input, probe, received, receive_failed, Consumer, step, run, lag, probed,
  mark_applied, mark_error, apply_payload,
}

-- A round of the reader, or a device that the worker takes out.
pub data Act : Type 0 where
  reads : Input → Act
  retires : ℕ → Act

abbrev pub inputs_of : List Act → List Input
inputs_of [] = []
inputs_of (reads i ∷ acts) = i ∷ inputs_of acts
inputs_of (retires id ∷ acts) = inputs_of acts

abbrev retire : ℕ → Consumer → Consumer
retire id c = record c { cache = (deactivate_device id c.cache).1 }

module _ (serde : Serde) where
  abbrev pub live : List Act → Consumer → Consumer
  live [] c = c
  live (reads i ∷ acts) c = live acts (step serde i c)
  live (retires id ∷ acts) c = live acts (retire id c)

  -- Two readers at the same place, whose well-formed caches agree on the key.
  pub record Alike (k : Key) (c d : Consumer) : Type 0 where
    pub inv : Inv c.cache
    pub inv' : Inv d.cache
    pub same : fact k c.cache ≡ fact k d.cache
    pub next : c.next ≡ d.next
    pub health : c.health ≡ d.health

  payload-Alike :
      (k : Key) (p : Option (List ℕ)) (s t : State)
      → Inv s
      → Inv t
      → fact k s ≡ fact k t
      → Inv (apply_payload serde p s).1
        × Inv (apply_payload serde p t).1
        × (fact k (apply_payload serde p s).1 ≡ fact k (apply_payload serde p t).1)
  unfolding apply_payload
  payload-Alike k none s t v w h = (v, w, h)
  payload-Alike k (some p) s t v w h =
      let o = apply_event-Overwrites serde p in
      (o.keeps s v, o.keeps t w, same_at k (λ x. (apply_event serde p x).1) s t (o.at k) v w h)

  step-Alike :
      (k : Key) (i : Input) (c d : Consumer)
      → Alike k c d
      → Alike k (step serde i c) (step serde i d)
  unfolding step
  step-Alike k (probe high) c d h = record {
    inv = h.inv;
    inv' = h.inv';
    same = h.same;
    next = h.next;
    health =
        ap (λ (n : HashMap ℕ ℕ). probed (lag high n 0) c.health) h.next
        ∙ ap (λ (x : ControlPlaneHealth). probed (lag high d.next 0) x) h.health;
  }
  step-Alike k (received m) c d h =
      let (v, w, e) = payload-Alike k m.payload c.cache d.cache h.inv h.inv' h.same in
      record {
        inv = v;
        inv' = w;
        same = e;
        next = ap (insert m.partition (m.offset + 1)) h.next;
        health = ap (mark_applied m.offset) h.health;
      }
  step-Alike k receive_failed c d h = record {
    inv = h.inv;
    inv' = h.inv';
    same = h.same;
    next = h.next;
    health = ap mark_error h.health;
  }

  -- The worker writes no fact of the control plane.
  retire-fact :
      (k : Key) (id : ℕ) (s : State)
      → IsControl k
      → Inv s
      → fact k (deactivate_device id s).1 ≡ fact k s
  unfolding asserted
  retire-fact (user u) id s c v = (deactivate_device-Asserts id).at (user u) s v
  retire-fact (member o u) id s c v = (deactivate_device-Asserts id).at (member o u) s v
  retire-fact (granted u n) id s c v = (deactivate_device-Asserts id).at (granted u n) s v
  retire-fact (device imei) id s c v = (deactivate_device-Asserts id).at (device imei) s v
  retire-fact (mobile u x) id s c v = absurd c

  -- So it makes no difference to the facts of the control plane, nor to the reader.
  pub live-Alike :
      (k : Key) (acts : List Act) (c d : Consumer)
      → IsControl k
      → Alike k c d
      → Alike k (live acts c) (run serde (inputs_of acts) d)
  unfolding run
  live-Alike k [] c d control h = h
  live-Alike k (reads i ∷ acts) c d control h =
      live-Alike k acts (step serde i c) (step serde i d) control (step-Alike k i c d h)
  live-Alike k (retires id ∷ acts) c d control h =
      live-Alike k acts (retire id c) d control (record {
        inv = (deactivate_device-Asserts id).keeps c.cache h.inv;
        inv' = h.inv';
        same = retire-fact k id c.cache control h.inv ∙ h.same;
        next = h.next;
        health = h.health;
      })
