-- ===== src/Permissions/Loader.antt =====
-- src/permissions/loader.rs: the snapshot at the start, from the rows of five views. A query that
-- fails ends the load.
pub mod Loads
pub mod Shows
use alert_distributor.Base.{ℕ, Bool, Option, none, some, List, [], ◌∷◌, unwrap_or, and_then}
use alert_distributor.Text.{Text}
use alert_distributor.Sns.Models.{UserDevice}
use alert_distributor.Permissions.Cache.{State, empty}
use alert_distributor.Permissions.Cache.Write.{
  apply_user, upsert_membership, upsert_user_unit, upsert_unit_device, upsert_user_device,
}

pub record UserRow : Type 0 where
  pub id : ℕ
  pub status : Text

pub record MembershipRow : Type 0 where
  pub organization_id : ℕ
  pub user_id : ℕ
  pub role : Text
  pub status : Text

pub record UserUnitRow : Type 0 where
  pub organization_id : ℕ
  pub user_id : ℕ
  pub unit_id : ℕ

pub record UnitDeviceRow : Type 0 where
  pub device_id : Text
  pub unit_id : ℕ
  pub organization_id : ℕ

pub record UserDeviceRow : Type 0 where
  pub id : ℕ
  pub user_id : ℕ
  pub device_token : Text
  pub platform : Text
  pub endpoint_arn : Option Text
  pub is_active : Bool

-- What the five queries return, `none` for an error.
pub record Views : Type 0 where
  pub users : Option (List UserRow)
  pub organization_users : Option (List MembershipRow)
  pub user_units : Option (List UserUnitRow)
  pub unit_devices : Option (List UnitDeviceRow)
  pub user_devices : Option (List UserDeviceRow)

-- `for row in rows { … }`.
unfoldable pub for_each : {Row : Type 0} → (Row → State → State) → List Row → State → State
for_each apply [] s = s
for_each apply (row ∷ rows) s = for_each apply rows (apply row s)

abbrev pub load_user : UserRow → State → State
load_user row = apply_user row.id row.status

abbrev pub load_membership : MembershipRow → State → State
load_membership row = upsert_membership row.organization_id row.user_id row.role row.status

abbrev pub load_user_unit : UserUnitRow → State → State
load_user_unit row = upsert_user_unit row.organization_id row.user_id row.unit_id

abbrev pub load_unit_device : UnitDeviceRow → State → State
load_unit_device row = upsert_unit_device row.device_id row.unit_id row.organization_id

abbrev pub load_user_device : UserDeviceRow → State → State
load_user_device row = upsert_user_device (record {
  id = row.id;
  user_id = row.user_id;
  device_token = row.device_token;
  platform = row.platform;
  endpoint_arn = unwrap_or row.endpoint_arn [];
  is_active = row.is_active;
})

infixl 5 ◌>>=◌
abbrev ◌>>=◌ {ℓ κ} : {A : Type ℓ} {B : Type κ} → Option A → (A → Option B) → Option B
m >>= f = and_then m f

unfoldable pub load_control_plane_snapshot : Views → Option State
load_control_plane_snapshot views = do
  users ← views.users
  memberships ← views.organization_users
  grants ← views.user_units
  assignments ← views.unit_devices
  mobiles ← views.user_devices
  some (
      for_each load_user_device mobiles (
        for_each load_unit_device assignments (
          for_each load_user_unit grants
            (for_each load_membership memberships (for_each load_user users empty)))))
