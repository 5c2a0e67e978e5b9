-- ===== src/Permissions/Cache/Read.antt =====
-- The methods of `ControlPlaneCache` that read.
pub mod Recipients
use alert_distributor.Base.{
  ℕ, ◌+◌, Bool, ◌&&◌, not, none, some, List, [], ◌∷◌, map, nat_eq, pair_eq, nat_beq, length,
  if◌then◌else◌, unwrap_or,
}
use alert_distributor.HashMap.{
  HashMap, HashSet, get, insert, keys, keys_where, contains_key, holds_for,
}
use alert_distributor.Sort.{sort, nat_ord, pair_ord}
use alert_distributor.Sns.Models.{UserDevice}
use alert_distributor.Permissions.Cache.{State, Membership, user_is_active, active_membership}

-- `for (k, v) in map { if test { set.insert(k) } }`.
pub insert_where {κ} : {V : Type κ} → (ℕ → V → Bool) → HashMap ℕ V → HashSet ℕ → HashSet ℕ
insert_where p [] set = set
insert_where p ((k, v) ∷ m) set = insert_where p m (if p k v then insert k tt set else set)

-- The owners of an organization, and the users with a grant on the unit.
unfoldable pub recipients : State → ℕ → ℕ → HashSet ℕ
unfolding insert_where
recipients s org unit =
    insert_where (λ user _. holds_for (λ m. not m.owner) (active_membership s org user))
      (unwrap_or (get unit s.unit_users) [])
      (insert_where (λ user m. m.owner && m.active && user_is_active s user)
        (unwrap_or (get org s.memberships) []) [])

unfoldable pub users_for_unit : State → ℕ → List (ℕ × ℕ)
unfolding recipients
users_for_unit s unit = elim (get unit s.unit_org) [
  | none ↦ []
  | some org ↦ sort (map (λ user. (org, user)) (keys (recipients s org unit)))
]

-- Before the sort.
unfoldable pub visible_units : State → ℕ → ℕ → Membership → List ℕ
visible_units s org user m =
    if m.owner
    then keys (unwrap_or (get org s.units_by_org) [])
    else keys_where (λ unit granted_in. nat_beq granted_in org && contains_key unit s.unit_org)
        (unwrap_or (get user s.user_units) [])

unfoldable pub units_for : State → ℕ → ℕ → List ℕ
unfolding visible_units
units_for s org user = elim (active_membership s org user) [
  | none ↦ []
  | some m ↦ sort (visible_units s org user m)
]

unfoldable pub devices_for : State → ℕ → List UserDevice
devices_for s user = unwrap_or (get user s.user_devices) []

pub record ControlPlaneCounts : Type 0 where
  pub users : ℕ
  pub memberships : ℕ
  pub user_units : ℕ
  pub unit_devices : ℕ
  pub user_devices : ℕ

-- `values().map(len).sum()`.
abbrev pub sum_lengths {κ} : {V : Type κ} → HashMap ℕ (List V) → ℕ
sum_lengths [] = 0
sum_lengths ((k, v) ∷ m) = length v + sum_lengths m

unfoldable pub counts : State → ControlPlaneCounts
counts s = record {
  users = length s.user_active;
  memberships = sum_lengths s.memberships;
  user_units = sum_lengths s.user_units;
  unit_devices = length s.unit_devices;
  user_devices = sum_lengths s.user_devices;
}
