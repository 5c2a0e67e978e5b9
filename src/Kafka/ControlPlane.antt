-- ===== src/Kafka/ControlPlane.antt =====
-- src/kafka/control_plane.rs: the events of the control plane and how one of them is applied.
pub mod Says
pub mod Events
pub mod Replay
pub mod Start
pub mod Consumer
pub mod Startup
pub mod CatchUp
pub mod Revocation
mod Tests
mod Suite
use alert_distributor.Base.{
  ℕ, Bool, true, false, not, Option, none, some, List, [], ◌∷◌, nat_eq, list_eq, nat_beq, ◌==◌,
  if◌then◌else◌, unwrap_or,
}
use alert_distributor.Text.{Text, text}
use alert_distributor.Sns.Models.{UserDevice}
use alert_distributor.Permissions.Cache.{State}
use alert_distributor.Permissions.Cache.Write.{
  apply_user, upsert_membership, delete_membership, upsert_user_unit, delete_user_unit,
  upsert_unit_device, delete_unit_device, upsert_user_device, deactivate_device,
}

pub data EventType : Type 0 where
  upsert delete : EventType

pub record Envelope (Value : Type 0) : Type 0 where
  pub event_type : EventType
  pub entity : Text
  pub schema_version : Option ℕ
  pub body : Value

pub record UserData : Type 0 where
  pub id : ℕ
  pub status : Option Text

pub record MembershipData : Type 0 where
  pub organization_id : ℕ
  pub user_id : ℕ
  pub role : Option Text
  pub status : Option Text

pub record UserUnitData : Type 0 where
  pub organization_id : Option ℕ
  pub user_id : ℕ
  pub unit_id : ℕ

pub record UnitDeviceData : Type 0 where
  pub device_id : Text
  pub unit_id : Option ℕ
  pub organization_id : Option ℕ

pub record UserDeviceData : Type 0 where
  pub id : ℕ
  pub user_id : Option ℕ
  pub device_token : Option Text
  pub platform : Option Text
  pub endpoint_arn : Option Text
  pub is_active : Option Bool

-- serde_json and the derived `Deserialize` instances: JSON values and the conversions from them.
pub record Serde : Type 1 where
  pub Value : Type 0
  pub envelope : List ℕ → Option (Envelope Value)
  pub user_data : Value → Option UserData
  pub membership_data : Value → Option MembershipData
  pub user_unit_data : Value → Option UserUnitData
  pub unit_device_data : Value → Option UnitDeviceData
  pub user_device_data : Value → Option UserDeviceData

pub data Applied : Type 0 where
  applied : Text → Applied
  unknown_entity unknown_version malformed : Applied

unfoldable pub apply_user_event : EventType → Option UserData → State → Applied × State
apply_user_event t none s = (malformed, s)
apply_user_event upsert (some d) s =
    (applied (text "user"), apply_user d.id (unwrap_or d.status []) s)
apply_user_event delete (some d) s = (applied (text "user"), apply_user d.id [] s)

unfoldable pub apply_membership_event : EventType → Option MembershipData → State → Applied × State
apply_membership_event t none s = (malformed, s)
apply_membership_event upsert (some d) s = (
  applied (text "organization_user"),
  upsert_membership d.organization_id d.user_id (unwrap_or d.role []) (unwrap_or d.status []) s,
)
apply_membership_event delete (some d) s =
    (applied (text "organization_user"), delete_membership d.organization_id d.user_id s)

unfoldable pub apply_user_unit_event : EventType → Option UserUnitData → State → Applied × State
apply_user_unit_event t none s = (malformed, s)
apply_user_unit_event upsert (some d) s = elim d.organization_id [
  | some org ↦ (applied (text "user_unit"), upsert_user_unit org d.user_id d.unit_id s)
  | none ↦ (malformed, s)
]
apply_user_unit_event delete (some d) s =
    (applied (text "user_unit"), delete_user_unit d.user_id d.unit_id s)

-- `match (upsert, d.unit_id, d.organization_id)` for an upsert.
assign_event : Text → Option ℕ → Option ℕ → State → Applied × State
assign_event imei (some unit) (some org) s =
    (applied (text "unit_device"), upsert_unit_device imei unit org s)
assign_event imei _ _ s = (malformed, s)

unfoldable pub apply_unit_device_event : EventType → Option UnitDeviceData → State → Applied × State
unfolding assign_event
apply_unit_device_event t none s = (malformed, s)
apply_unit_device_event upsert (some d) s = assign_event d.device_id d.unit_id d.organization_id s
apply_unit_device_event delete (some d) s =
    (applied (text "unit_device"), delete_unit_device d.device_id s)

unfoldable pub to_device : UserDeviceData → ℕ → UserDevice
to_device d user = record {
  id = d.id;
  user_id = user;
  device_token = unwrap_or d.device_token [];
  platform = unwrap_or d.platform [];
  endpoint_arn = unwrap_or d.endpoint_arn [];
  is_active = unwrap_or d.is_active false;
}

unfoldable pub apply_user_device_event : EventType → Option UserDeviceData → State → Applied × State
unfolding to_device
apply_user_device_event t none s = (malformed, s)
apply_user_device_event delete (some d) s =
    (applied (text "user_device"), (deactivate_device d.id s).1)
apply_user_device_event upsert (some d) s = elim d.user_id [
  | none ↦ (malformed, s)
  | some user ↦ (applied (text "user_device"), upsert_user_device (to_device d user) s)
]

abbrev pub schema_version : ℕ
schema_version = 1

-- `envelope.schema_version.is_some_and(|v| v != SCHEMA_VERSION)`.
abbrev pub other_version : Option ℕ → Bool
other_version none = false
other_version (some v) = not (nat_beq v schema_version)

module _ (serde : Serde) where
  open serde use {
    Value, envelope, user_data, membership_data, user_unit_data, unit_device_data, user_device_data,
  }

  -- `match envelope.entity.as_str()`.
  unfoldable pub apply_entity : Envelope Value → State → Applied × State
  apply_entity e s =
      if e.entity == text "user"
      then apply_user_event e.event_type (user_data e.body) s
      else if e.entity == text "organization_user"
      then apply_membership_event e.event_type (membership_data e.body) s
      else if e.entity == text "user_unit"
      then apply_user_unit_event e.event_type (user_unit_data e.body) s
      else if e.entity == text "unit_device"
      then apply_unit_device_event e.event_type (unit_device_data e.body) s
      else if e.entity == text "user_device"
      then apply_user_device_event e.event_type (user_device_data e.body) s
      else (unknown_entity, s)

  unfoldable pub apply_envelope : Option (Envelope Value) → State → Applied × State
  apply_envelope none s = (malformed, s)
  apply_envelope (some e) s =
      if other_version e.schema_version then (unknown_version, s) else apply_entity e s

  unfoldable pub apply_event : List ℕ → State → Applied × State
  unfolding apply_envelope
  apply_event payload s = apply_envelope (envelope payload) s
