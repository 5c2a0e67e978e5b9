-- ===== src/Kafka/ControlPlane/Consumer.antt =====
-- src/kafka/control_plane.rs, `run_control_plane_consumer`: the loop that reads the topic, and the
-- state of health that it keeps. Offsets are not negative; each round of the loop is one input.
pub mod Cache
pub mod Lag
pub mod Task
use alert_distributor.Base.{
  ℕ, ◌+◌, ◌-◌, Bool, true, false, Option, none, some, List, [], ◌∷◌, nat_eq, if◌then◌else◌,
}
use alert_distributor.HashMap.{HashMap, get, insert}
use alert_distributor.Permissions.Cache.{State}
use alert_distributor.Errors.{AppResult, ok, err, ◌>>=◌, Attempt, done, failed, map_err, kafka}
use alert_distributor.Kafka.ControlPlane.{Serde, Applied, malformed, apply_event}

pub record ControlPlaneHealth : Type 0 where
  pub ok : Bool
  pub applied_offset : ℕ
  pub lag : ℕ

-- `ControlPlaneHealth::default()`.
abbrev pub unhealthy : ControlPlaneHealth
unhealthy = record { ok = false; applied_offset = 0; lag = 0 }

unfoldable pub mark_ok : ℕ → ControlPlaneHealth → ControlPlaneHealth
mark_ok lag h = record h { lag = lag; ok = true }

unfoldable pub mark_applied : ℕ → ControlPlaneHealth → ControlPlaneHealth
mark_applied offset h = record h { applied_offset = offset; ok = true }

unfoldable pub mark_error : ControlPlaneHealth → ControlPlaneHealth
mark_error h = record h { ok = false }

-- Messages that are not applied yet, over all partitions; `high` asks the broker for an end.
unfoldable pub lag : (ℕ → Option ℕ) → HashMap ℕ ℕ → ℕ → Option ℕ
lag high [] total = some total
lag high ((partition, next_offset) ∷ next) total = elim (high partition) [
  | none ↦ none
  | some end ↦ lag high next (total + (end - next_offset))
]

pub record Message : Type 0 where
  pub partition : ℕ
  pub offset : ℕ
  pub payload : Option (List ℕ)

-- The branches of `select!`.
pub data Input : Type 0 where
  probe : (ℕ → Option ℕ) → Input
  received : Message → Input
  receive_failed : Input

pub record Consumer : Type 0 where
  pub cache : State
  pub next : HashMap ℕ ℕ
  pub health : ControlPlaneHealth

unfoldable pub start : State → List (ℕ × ℕ) → Consumer
unfolding mark_ok
start cache offsets = record {
  cache = cache;
  next = insert_all offsets [];
  health = mark_ok 0 unhealthy;
}
  where
    insert_all : List (ℕ × ℕ) → HashMap ℕ ℕ → HashMap ℕ ℕ
    insert_all [] next = next
    insert_all ((partition, offset) ∷ rest) next = insert_all rest (insert partition offset next)

unfoldable pub probed : Option ℕ → ControlPlaneHealth → ControlPlaneHealth
unfolding mark_ok mark_error
probed none h = mark_error h
probed (some total) h = mark_ok total h

module _ (serde : Serde) where
  unfoldable pub apply_payload : Option (List ℕ) → State → Applied × State
  apply_payload none s = (malformed, s)
  apply_payload (some payload) s = apply_event serde payload s

  -- One round of the loop. The result of `apply_event` goes to the log alone.
  unfoldable pub step : Input → Consumer → Consumer
  unfolding apply_payload probed mark_applied mark_error
  step (probe high) c = record c { health = probed (lag high c.next 0) c.health }
  step (received m) c = record {
    cache = (apply_payload m.payload c.cache).1;
    next = insert m.partition (m.offset + 1) c.next;
    health = mark_applied m.offset c.health;
  }
  step receive_failed c = record c { health = mark_error c.health }

  -- Until the stream ends.
  unfoldable pub run : List Input → Consumer → Consumer
  run [] c = c
  run (input ∷ inputs) c = run inputs (step input c)

-- `add_partition_offset` for each noted end, until one fails.
unfoldable pub add_offsets : (ℕ → ℕ → Attempt (Unit {0})) → List (ℕ × ℕ) → AppResult (Unit {0})
add_offsets add_partition_offset [] = ok tt
add_offsets add_partition_offset ((partition, offset) ∷ rest) =
    let added = add_offsets add_partition_offset rest in
    elim (add_partition_offset partition offset) [
      | failed detail ↦ err (kafka detail)
      | done tt ↦ added
    ]

-- The whole task: the assignment, which can fail, and the loop until the stream ends.
unfoldable pub run_control_plane_consumer :
    Serde
    → (ℕ → ℕ → Attempt (Unit {0}))
    → Attempt (Unit {0})
    → State
    → List (ℕ × ℕ)
    → List Input
    → AppResult Consumer
run_control_plane_consumer serde add_partition_offset assign cache offsets inputs = do
  added ← add_offsets add_partition_offset offsets
  assigned ← map_err kafka assign
  ok (run serde inputs (start cache offsets))
