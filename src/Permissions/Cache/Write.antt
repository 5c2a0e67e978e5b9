-- ===== src/Permissions/Cache/Write.antt =====
-- The methods of `ControlPlaneCache` that write.
use alert_distributor.Base.{
  ℕ, ◌+◌, Bool, false, ◌&&◌, ◌||◌, not, List, [], ◌∷◌, ◌++◌, nat_eq, list_eq, nat_beq, ◌==◌, length,
  filter, is_empty, if◌then◌else◌, unwrap_or,
}
use alert_distributor.HashMap.{HashMap, get, get₂, insert, insert_at, remove_at}
use alert_distributor.Text.{Text, text}
use alert_distributor.Sns.Models.{UserDevice}
use alert_distributor.Permissions.Cache.{State, unassign_device}

abbrev pub owner_role : Text
owner_role = text "owner"

abbrev pub active_status : Text
active_status = text "ACTIVE"

unfoldable pub apply_user : ℕ → Text → State → State
apply_user user status s = record s {
  user_active = insert user (status == active_status) s.user_active;
}

unfoldable pub upsert_membership : ℕ → ℕ → Text → Text → State → State
upsert_membership org user role status s = record s {
  memberships =
      insert_at org user (record { owner = role == owner_role; active = status == active_status })
        s.memberships;
}

unfoldable pub delete_membership : ℕ → ℕ → State → State
delete_membership org user s = record s { memberships = remove_at org user s.memberships }

unfoldable pub upsert_user_unit : ℕ → ℕ → ℕ → State → State
upsert_user_unit org user unit s = record s {
  user_units = insert_at user unit org s.user_units;
  unit_users = insert_at unit user tt s.unit_users;
}

unfoldable pub delete_user_unit : ℕ → ℕ → State → State
delete_user_unit user unit s = record s {
  user_units = remove_at user unit s.user_units;
  unit_users = remove_at unit user s.unit_users;
}

-- The part of `upsert_unit_device` behind `unassign_device`.
unfoldable pub assign_device : Text → ℕ → ℕ → State → State
assign_device imei unit org s = record s {
  unit_devices = insert imei (unit, org) s.unit_devices;
  units_by_org = insert_at org unit (unwrap_or (get₂ org unit s.units_by_org) 0 + 1) s.units_by_org;
  unit_org = insert unit org s.unit_org;
}

unfoldable pub upsert_unit_device : Text → ℕ → ℕ → State → State
unfolding assign_device
upsert_unit_device imei unit org s = assign_device imei unit org (unassign_device s imei)

unfoldable pub delete_unit_device : Text → State → State
delete_unit_device imei s = unassign_device s imei

-- `retain(|d| d.id != id)` in every entry, and then `retain` of the entries that are not empty.
unfoldable pub drop_device : ℕ → HashMap ℕ (List UserDevice) → HashMap ℕ (List UserDevice)
drop_device id [] = []
drop_device id ((user, devices) ∷ m) =
    let kept = filter (λ d. not (nat_beq d.id id)) devices in
    let rest = drop_device id m in if is_empty kept then rest else (user, kept) ∷ rest

unfoldable pub push_device : UserDevice → HashMap ℕ (List UserDevice) → HashMap ℕ (List UserDevice)
push_device d m = insert d.user_id (unwrap_or (get d.user_id m) [] ++ d ∷ []) m

unfoldable pub upsert_user_device : UserDevice → State → State
unfolding drop_device push_device
upsert_user_device d s =
    let others = drop_device d.id s.user_devices in
    record s {
      user_devices =
          if d.is_active && not (is_empty d.endpoint_arn) then push_device d others else others;
    }

-- `removed |= devices.len() != before`, over all entries.
unfoldable pub any_removed : ℕ → HashMap ℕ (List UserDevice) → Bool
any_removed id [] = false
any_removed id ((user, devices) ∷ m) =
    not (nat_beq (length (filter (λ d. not (nat_beq d.id id)) devices)) (length devices))
    || any_removed id m

unfoldable pub deactivate_device : ℕ → State → Bool × State
unfolding drop_device any_removed
deactivate_device id s =
    (any_removed id s.user_devices, record s { user_devices = drop_device id s.user_devices })
