-- ===== src/Permissions/Cache/Divergence.antt =====
-- Where the push side and the WebSocket side part: a unit whose devices name two organizations, and
-- a grant that names another organization than its unit.
use alert_distributor.Base.{
  ℕ, ◌≡◌, ◌≢◌, ◌<◌, true, false, some, [], arith, nat_eq, list_eq, pair_eq, contains,
}
use alert_distributor.HashMap.{get, get₂}
use alert_distributor.Text.{Text}
use alert_distributor.Permissions.Cache.{State, Membership, active_membership, unassign_device}
use alert_distributor.Permissions.Cache.Release.{unassign_device-Unassigned}
use alert_distributor.Permissions.Cache.Read.{users_for_unit, units_for}
use alert_distributor.Permissions.Cache.Visibility.{contains-users_for_unit, contains-units_for}
use alert_distributor.Permissions.Cache.Invariant.{assigned, Inv}
use alert_distributor.Permissions.Cache.Invariant.Keeps.{delete_unit_device-Inv}
use alert_distributor.Permissions.Cache.Write.{delete_unit_device}

-- On a well-formed cache, when the last device of a unit under one organization is deleted while
-- the unit still has a device under another, nobody is sent the alerts of the unit, though an
-- active owner of the other organization still sees the unit.
pub delete_unit_device_orphans :
    (s : State) (imei : Text) (unit old new user : ℕ) (m : Membership)
    → Inv s
    → get imei s.unit_devices ≡ some (unit, old)
    → assigned unit old s.unit_devices ≡ 1
    → old ≢ new
    → 0 < assigned unit new s.unit_devices
    → active_membership s new user ≡ some m
    → m.owner ≡ true
    → (users_for_unit (delete_unit_device imei s) unit ≡ [])
      × (contains unit (units_for (delete_unit_device imei s) new user) ≡ true)
unfolding delete_unit_device users_for_unit active_membership
delete_unit_device_orphans s imei unit old new user m v at last differ other active owner =
    let u = unassign_device-Unassigned s imei in
    (
      ground (arith, u.org unit, v.tally old unit),
      ground (
        arith,
        contains-units_for (unassign_device s imei) new user unit
            (delete_unit_device-Inv v imei).maps,
        u.units new unit,
        v.tally new unit,
        u.same.memberships,
        u.same.user_active,
      ),
    )

-- On a well-formed cache, an active member, not an owner, whose grant names another organization
-- than the one the unit belongs to is sent the alerts of the unit and does not see it.
pub stale_grant_diverges :
    (s : State) (unit org granted_in user : ℕ) (m : Membership)
    → Inv s
    → get unit s.unit_org ≡ some org
    → active_membership s org user ≡ some m
    → m.owner ≡ false
    → get₂ user unit s.user_units ≡ some granted_in
    → granted_in ≢ org
    → (contains {A = ℕ × ℕ} (org, user) (users_for_unit s unit) ≡ true)
      × (contains unit (units_for s org user) ≡ false)
stale_grant_diverges s unit org granted_in user m v at active member grant differ = (
  ground (arith, contains-users_for_unit s unit org user v.maps, v.mirror user unit),
  ground (arith, contains-units_for s org user unit v.maps),
)
