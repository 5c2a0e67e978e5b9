-- ===== src/Kafka/ControlPlane/Startup.antt =====
-- The start of the process as a whole: the snapshot, and then the reader of the topic.
use alert_distributor.Base.{ℕ, ◌≡◌, sym, subst, some, List, nat_eq, pair_eq}
use alert_distributor.Permissions.Cache.{State}
use alert_distributor.Permissions.Cache.Invariant.{Inv}
use alert_distributor.Permissions.Loader.{Views, load_control_plane_snapshot}
use alert_distributor.Permissions.Loader.Loads.{load_control_plane_snapshot-Inv}
use alert_distributor.Kafka.ControlPlane.{Serde}
use alert_distributor.Kafka.ControlPlane.Replay.{apply_all-Inv}
use alert_distributor.Kafka.ControlPlane.Consumer.{Input, start, run}
use alert_distributor.Kafka.ControlPlane.Consumer.Cache.{payloads, cache-run}

-- When the snapshot loads, the cache is well formed after it and after any inputs to the reader of
-- the control plane, whatever payloads, failures and probes they are: the indexes of grants mirror
-- one another, and the index of units by organization counts exactly the assigned devices.
pub running-Inv :
    (serde : Serde) (v : Views) (s : State) (offsets : List (ℕ × ℕ)) (inputs : List Input)
    → load_control_plane_snapshot v ≡ some s
    → Inv (run serde inputs (start s offsets)).cache
unfolding start
running-Inv serde v s offsets inputs e =
    subst Inv (sym (cache-run serde inputs (start s offsets)))
      (apply_all-Inv serde (payloads inputs) s (load_control_plane_snapshot-Inv v e))
