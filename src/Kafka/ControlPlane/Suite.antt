-- ===== src/Kafka/ControlPlane/Suite.antt =====
-- The tests of src/kafka/control_plane.rs, as Booleans. The events of a test are numbered, and a
-- payload is the number of its event; what does not parse is any other payload.
use alert_distributor.Base.{
  ℕ, zero, suc, ◌≡◌, refl, Bool, true, false, ◌&&◌, Option, none, some, List, [], ◌∷◌, nat_eq,
  pair_eq, list_eq, ◌==◌, length, nat_beq, is_empty,
}
use alert_distributor.HashMap.{get, insert, remove, insert_at, remove_at, put_or_prune}
use alert_distributor.Sort.{sort, nat_ord, pair_ord}
use alert_distributor.Text.{Text, text}
use alert_distributor.Permissions.Cache.{State, empty, active_membership, unassign_device}
use alert_distributor.Permissions.Cache.Read.{users_for_unit, devices_for, counts}
use alert_distributor.Permissions.Cache.Write.{
  apply_user, upsert_membership, delete_membership, upsert_user_unit, delete_user_unit,
  upsert_unit_device, delete_unit_device, upsert_user_device, deactivate_device,
}
use alert_distributor.Kafka.ControlPlane.{
  EventType, upsert, delete, Envelope, Serde, Applied, malformed, unknown_entity, unknown_version,
  UserData, MembershipData, UserUnitData, UnitDeviceData, UserDeviceData, apply_user_event,
  apply_membership_event, apply_user_unit_event, apply_unit_device_event, apply_user_device_event,
  apply_entity, apply_event, to_device,
}
use alert_distributor.Kafka.ControlPlane.Says.{is_applied}
use alert_distributor.Kafka.ControlPlane.Replay.{apply_all}

-- The `data` of an event.
data Data : Type 0 where
  user : UserData → Data
  membership : MembershipData → Data
  user_unit : UserUnitData → Data
  unit_device : UnitDeviceData → Data
  user_device : UserDeviceData → Data
  nothing : Data

abbrev user_of : Data → Option UserData
user_of (user d) = some d
user_of _ = none

abbrev membership_of : Data → Option MembershipData
membership_of (membership d) = some d
membership_of _ = none

abbrev user_unit_of : Data → Option UserUnitData
user_unit_of (user_unit d) = some d
user_unit_of _ = none

abbrev unit_device_of : Data → Option UnitDeviceData
unit_device_of (unit_device d) = some d
unit_device_of _ = none

abbrev user_device_of : Data → Option UserDeviceData
user_device_of (user_device d) = some d
user_device_of _ = none

abbrev at : List (Envelope Data) → ℕ → Option (Envelope Data)
at [] n = none
at (e ∷ es) zero = some e
at (e ∷ es) (suc n) = at es n

abbrev numbered : List (Envelope Data) → List ℕ → Option (Envelope Data)
numbered events (n ∷ []) = at events n
numbered events _ = none

abbrev serde : List (Envelope Data) → Serde
serde events = record {
  Value = Data;
  envelope = numbered events;
  user_data = user_of;
  membership_data = membership_of;
  user_unit_data = user_unit_of;
  unit_device_data = unit_device_of;
  user_device_data = user_device_of;
}

abbrev evento : EventType → Text → Data → Envelope Data
evento event_type entity body = record {
  event_type = event_type;
  entity = entity;
  schema_version = some 1;
  body = body;
}

-- The events of the first test: the five of the loop, the pause and the deletion.
abbrev secuencia : ℕ → ℕ → ℕ → ℕ → List (Envelope Data)
secuencia org unit owner member =
    evento upsert (text "unit_device") (
      unit_device
        (record { device_id = text "111"; unit_id = some unit; organization_id = some org }))
    ∷ evento upsert (text "organization_user") (
        membership (record {
          organization_id = org;
          user_id = owner;
          role = some (text "owner");
          status = some (text "ACTIVE");
        }))
    ∷ evento upsert (text "user") (user (record { id = owner; status = some (text "ACTIVE") }))
    ∷ evento upsert (text "organization_user") (
        membership (record {
          organization_id = org;
          user_id = member;
          role = some (text "member");
          status = some (text "ACTIVE");
        }))
    ∷ evento upsert (text "user_unit")
        (user_unit (record { organization_id = some org; user_id = member; unit_id = unit }))
    ∷ evento upsert (text "organization_user") (
        membership (record {
          organization_id = org;
          user_id = member;
          role = some (text "member");
          status = some (text "INACTIVE");
        }))
    ∷ evento delete (text "unit_device")
        (unit_device (record { device_id = text "111"; unit_id = none; organization_id = none }))
    ∷ []

-- `assert!(matches!(…, Applied::Yes(_)))` for each event of a loop.
abbrev all_applied : Serde → List (List ℕ) → State → Bool
all_applied s [] cache = true
all_applied s (payload ∷ rest) cache =
    let (result, cache') = apply_event s payload cache in
    is_applied result && all_applied s rest cache'

abbrev numbers : List (List ℕ)
numbers = (0 ∷ []) ∷ (1 ∷ []) ∷ (2 ∷ []) ∷ (3 ∷ []) ∷ (4 ∷ []) ∷ []

abbrev la_secuencia_de_admin_api_produce_destinatarios : ℕ → ℕ → ℕ → ℕ → Bool
la_secuencia_de_admin_api_produce_destinatarios org unit owner member =
    let s = serde (secuencia org unit owner member) in
    let cache = apply_all s numbers empty in
    let paused = (apply_event s (5 ∷ []) cache).1 in
    let deleted = (apply_event s (6 ∷ []) paused).1 in
    all_applied s numbers empty
    && users_for_unit cache unit == sort ((org, owner) ∷ (org, member) ∷ [])
    && users_for_unit paused unit == (org, owner) ∷ []
    && is_empty (users_for_unit deleted unit)

abbrev datos : ℕ → ℕ → Bool → Envelope Data
datos id user_id activo = evento upsert (text "user_device") (
    user_device (record {
      id = id;
      user_id = some user_id;
      device_token = some (text "t");
      platform = some (text "ios");
      endpoint_arn = some (text "arn:aws:sns:us-east-1:1:endpoint/GCM/app/x");
      is_active = some activo;
    }))

abbrev el_dispositivo_desactivado_es_un_upsert_y_sale : ℕ → ℕ → Bool
el_dispositivo_desactivado_es_un_upsert_y_sale id user_id =
    let s = serde (datos id user_id true ∷ datos id user_id false ∷ []) in
    let on = (apply_event s (0 ∷ []) empty).1 in
    let off = (apply_event s (1 ∷ []) on).1 in
    nat_beq (length (devices_for on user_id)) 1 && is_empty (devices_for off user_id)

abbrev is_malformed : Applied → Bool
is_malformed malformed = true
is_malformed _ = false

abbrev is_unknown_entity : Applied → Bool
is_unknown_entity unknown_entity = true
is_unknown_entity _ = false

abbrev is_unknown_version : Applied → Bool
is_unknown_version unknown_version = true
is_unknown_version _ = false

abbrev lo_que_no_se_entiende_se_salta_sin_tocar_nada : ℕ → Bool
lo_que_no_se_entiende_se_salta_sin_tocar_nada id =
    let activo : Data = user (record { id = id; status = some (text "ACTIVE") }) in
    let s = serde (
      evento upsert (text "geofence") nothing
      ∷ record (evento upsert (text "user") activo) { schema_version = some 2 }
      ∷ []) in
    let (no_json, first) = apply_event s (text "no es json") empty in
    let (geofence, second) = apply_event s (0 ∷ []) first in
    let (v2, cache) = apply_event s (1 ∷ []) second in
    is_malformed no_json
    && is_unknown_entity geofence
    && is_unknown_version v2
    && nat_beq (counts cache).users 0

-- All pass.
pass :
    (la_secuencia_de_admin_api_produce_destinatarios 1 11 21 22 ≡ true)
    × (el_dispositivo_desactivado_es_un_upsert_y_sale 41 21 ≡ true)
    × (lo_que_no_se_entiende_se_salta_sin_tocar_nada 21 ≡ true)
unfolding users_for_unit devices_for counts get insert remove sort apply_user upsert_membership
    delete_membership upsert_user_unit delete_user_unit upsert_unit_device delete_unit_device
    upsert_user_device deactivate_device unassign_device insert_at remove_at put_or_prune
    active_membership apply_event apply_entity apply_user_event apply_membership_event
    apply_user_unit_event apply_unit_device_event apply_user_device_event to_device apply_all
pass = (refl, refl, refl)
