-- ===== src/Kafka/ControlPlane/Says.antt =====
-- What each event of the topic says of the facts, apart from the code.
use alert_distributor.Base.{
  ℕ, Bool, true, false, Option, none, some, List, nat_eq, list_eq, ◌==◌, if◌then◌else◌,
}
use alert_distributor.Text.{Text, text}
use alert_distributor.Permissions.Cache.Facts.Assertions.{
  Assertion, has_status, is_member, has_grant, is_assigned, registers, forgets,
}
use alert_distributor.Permissions.Cache.Write.{owner_role, active_status}
use alert_distributor.Kafka.ControlPlane.{
  EventType, upsert, delete, Envelope, Serde, Applied, applied, UserData, MembershipData,
  UserUnitData, UnitDeviceData, UserDeviceData, other_version, to_device,
}

-- A missing status is not the active one, and a missing role not that of an owner.
abbrev pub is_text : Text → Option Text → Bool
is_text wanted none = false
is_text wanted (some found) = found == wanted

abbrev pub user_says : EventType → UserData → Option Assertion
user_says upsert d = some (has_status d.id (is_text active_status d.status))
user_says delete d = some (has_status d.id false)

abbrev pub membership_says : EventType → MembershipData → Option Assertion
membership_says upsert d = some (
    is_member d.organization_id d.user_id (
      some (record { owner = is_text owner_role d.role; active = is_text active_status d.status })))
membership_says delete d = some (is_member d.organization_id d.user_id none)

-- A grant needs its organization, and an assignment its unit and organization.
abbrev pub user_unit_says : EventType → UserUnitData → Option Assertion
user_unit_says upsert d = elim d.organization_id [
  | none ↦ none
  | some org ↦ some (has_grant d.user_id d.unit_id (some org))
]
user_unit_says delete d = some (has_grant d.user_id d.unit_id none)

abbrev pub unit_device_says : EventType → UnitDeviceData → Option Assertion
unit_device_says upsert d = elim d.unit_id [
  | none ↦ none
  | some unit ↦ elim d.organization_id [
    | none ↦ none
    | some org ↦ some (is_assigned d.device_id (some (unit, org)))
  ]
]
unit_device_says delete d = some (is_assigned d.device_id none)

-- A registration needs its person.
abbrev pub user_device_says : EventType → UserDeviceData → Option Assertion
user_device_says upsert d = elim d.user_id [
  | none ↦ none
  | some user ↦ some (registers (to_device d user))
]
user_device_says delete d = some (forgets d.id)

abbrev pub of_data : {A : Type 0} → Option A → (A → Option Assertion) → Option Assertion
of_data none f = none
of_data (some d) f = f d

abbrev pub is_applied : Applied → Bool
is_applied (applied entity) = true
is_applied _ = false

module _ (serde : Serde) where
  abbrev pub entity_says : Envelope serde.Value → Option Assertion
  entity_says e =
      let t = e.event_type in
      if e.entity == text "user"
      then of_data (serde.user_data e.body) (user_says t)
      else if e.entity == text "organization_user"
      then of_data (serde.membership_data e.body) (membership_says t)
      else if e.entity == text "user_unit"
      then of_data (serde.user_unit_data e.body) (user_unit_says t)
      else if e.entity == text "unit_device"
      then of_data (serde.unit_device_data e.body) (unit_device_says t)
      else if e.entity == text "user_device"
      then of_data (serde.user_device_data e.body) (user_device_says t)
      else none

  abbrev pub envelope_says : Option (Envelope serde.Value) → Option Assertion
  envelope_says none = none
  envelope_says (some e) = if other_version e.schema_version then none else entity_says e

  -- What a payload says: nothing when it does not parse, has another schema version, names an
  -- unknown entity, or lacks what its event needs.
  unfoldable pub says : List ℕ → Option Assertion
  says payload = envelope_says (serde.envelope payload)
