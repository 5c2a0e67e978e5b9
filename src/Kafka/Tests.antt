-- ===== src/Kafka/Tests.antt =====
-- A small stand-in for serde_json, and each theorem about the control plane at an input.
use alert_distributor.Base.{
  ℕ, ◌+◌, ◌≡◌, refl, Bool, true, false, Option, none, some, List, [], ◌∷◌, map, nat_eq, list_eq,
  nat_beq, if◌then◌else◌, is_empty, unwrap_or,
}
use alert_distributor.Text.{Text, text}
use alert_distributor.Permissions.Cache.{State, empty}
use alert_distributor.Permissions.Cache.Invariant.{Inv}
use alert_distributor.Permissions.Cache.Invariant.Keeps.{empty-Inv}
use alert_distributor.Permissions.Cache.Facts.{member, fact}
use alert_distributor.Permissions.Loader.{Views, load_control_plane_snapshot, for_each}
use alert_distributor.Kafka.ControlPlane.{
  EventType, upsert, delete, Envelope, UserData, MembershipData, UnitDeviceData, Serde,
}
use alert_distributor.Kafka.ControlPlane.Replay.{apply_all, last_word, apply_all-last_word}
use alert_distributor.Kafka.ControlPlane.Start.{
  TopicMetadata, prepare_control_plane_consumer, collect_partitions, fetch_offsets,
}
use alert_distributor.Kafka.ControlPlane.Start.Fails.{
  HasNoError, NotesEnds, partitions_of, prepare_control_plane_consumer_ready,
}
use alert_distributor.Errors.{done, failed}
use alert_distributor.Kafka.ControlPlane.Consumer.Task.{Assigns, run_control_plane_consumer-Assigns}
use alert_distributor.Kafka.ControlPlane.Consumer.{
  run_control_plane_consumer, Input, received, receive_failed, start, run,
}
use alert_distributor.Kafka.ControlPlane.Consumer.Cache.{payloads, offset_after, cache-run}
use alert_distributor.Kafka.ControlPlane.Startup.{running-Inv}

abbrev event_of : EventType → Text → List ℕ → Option (Envelope (List ℕ))
event_of t entity body =
    some (record { event_type = t; entity = entity; schema_version = some 1; body = body })

-- A payload is a number for the entity, and then its data.
abbrev decode : List ℕ → Option (Envelope (List ℕ))
decode [] = none
decode (kind ∷ body) =
    if nat_beq kind 1
    then event_of upsert (text "user") body
    else if nat_beq kind 2
    then event_of upsert (text "organization_user") body
    else if nat_beq kind 3
    then event_of upsert (text "unit_device") body
    else if nat_beq kind 5
    then event_of delete (text "organization_user") body
    else event_of upsert (text "geofence") body

abbrev decode_user : List ℕ → Option UserData
decode_user (user ∷ []) = some (record { id = user; status = some (text "ACTIVE") })
decode_user _ = none

abbrev decode_membership : List ℕ → Option MembershipData
decode_membership (org ∷ user ∷ []) = some (record {
  organization_id = org;
  user_id = user;
  role = some (text "owner");
  status = some (text "ACTIVE");
})
decode_membership _ = none

abbrev decode_unit_device : List ℕ → Option UnitDeviceData
decode_unit_device (unit ∷ org ∷ imei) =
    some (record { device_id = imei; unit_id = some unit; organization_id = some org })
decode_unit_device _ = none

abbrev pub serde : Serde
serde = record {
  Value = List ℕ;
  envelope = decode;
  user_data = decode_user;
  membership_data = decode_membership;
  user_unit_data = λ v. none;
  unit_device_data = decode_unit_device;
  user_device_data = λ v. none;
}

-- An owner of organization 7, a device of its unit 5, and a message that nobody understands.
abbrev pub history : List (List ℕ)
history = (2 ∷ 7 ∷ 9 ∷ []) ∷ (3 ∷ 5 ∷ 7 ∷ text "111") ∷ (4 ∷ []) ∷ []

abbrev topic : Text
topic = text "control-plane-events"

abbrev metadata : List TopicMetadata
metadata = record { name = topic; error = none; partitions = 0 ∷ 1 ∷ [] } ∷ []

abbrev ends : ℕ → Option ℕ
ends partition = some (partition + 4)

abbrev prepared : List (ℕ × ℕ)
prepared = (0, 4) ∷ (1, 5) ∷ []

prepare_example :
    (topics : List TopicMetadata) × (◌≡◌ {A = Bool} true true)
    × (some metadata ≡ some topics)
    × HasNoError topic topics
    × (is_empty (partitions_of topic topics) ≡ false)
    × (map (λ p. p.0) prepared ≡ partitions_of topic topics)
    × NotesEnds ends prepared
unfolding prepare_control_plane_consumer collect_partitions fetch_offsets
prepare_example = prepare_control_plane_consumer_ready topic true (some metadata) ends prepared refl

abbrev rows : Views
rows = record {
  users = some (record { id = 21; status = text "ACTIVE" } ∷ []);
  organization_users = some (
      record { organization_id = 1; user_id = 21; role = text "member"; status = text "ACTIVE" }
      ∷ []);
  user_units = some (record { organization_id = 1; user_id = 21; unit_id = 11 } ∷ []);
  unit_devices = some (record { device_id = text "111"; unit_id = 11; organization_id = 1 } ∷ []);
  user_devices = some [];
}

abbrev loaded : State
loaded = unwrap_or (load_control_plane_snapshot rows) empty

abbrev inputs : List Input
inputs =
    received (record { partition = 0; offset = 4; payload = some (2 ∷ 7 ∷ 9 ∷ []) })
    ∷ receive_failed
    ∷ received (record { partition = 1; offset = 5; payload = none })
    ∷ []

running-Inv_example : Inv (run serde inputs (start loaded prepared)).cache
unfolding load_control_plane_snapshot for_each
running-Inv_example = running-Inv serde rows loaded prepared inputs refl

cache-run_example :
    (run serde inputs (start empty prepared)).cache
    ≡ apply_all serde (payloads inputs) (start empty prepared).cache
cache-run_example = cache-run serde inputs (start empty prepared)

next_offset : offset_after inputs 1 none ≡ some 6
next_offset = refl

apply_all-last_word_example :
    fact (member 7 9) (apply_all serde history empty)
    ≡ unwrap_or (last_word serde history (member 7 9)) (fact (member 7 9) empty)
apply_all-last_word_example = apply_all-last_word serde history (member 7 9) empty empty-Inv

-- The broker refuses the assignment.
run_control_plane_consumer-Assigns_example :
    Assigns
      (λ partition offset. done tt)
      (failed (text "assign"))
      ((1, 4) ∷ [])
      (run serde inputs (start empty ((1, 4) ∷ [])))
      (run_control_plane_consumer serde
        (λ partition offset. done tt)
        (failed (text "assign"))
        empty
        ((1, 4) ∷ [])
        inputs)
run_control_plane_consumer-Assigns_example =
    run_control_plane_consumer-Assigns serde (λ partition offset. done tt) (failed (text "assign"))
      empty ((1, 4) ∷ []) inputs
