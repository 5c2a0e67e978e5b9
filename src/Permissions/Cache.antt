-- ===== src/Permissions/Cache.antt =====
-- src/permissions/cache.rs: the read model kept from the control-plane events. A method that takes
-- the lock for writing returns the new state; one that only reads returns its result.
pub mod Read
pub mod Visibility
pub mod Release
pub mod Invariant
pub mod Mobiles
pub mod Rule
pub mod Facts
pub mod Determined
pub mod Divergence
pub mod Write
mod Suite
use alert_distributor.Base.{
  ℕ, ◌-◌, Bool, true, ◌&&◌, Option, none, some, List, [], nat_eq, list_eq, nat_beq, if◌then◌else◌,
  unwrap_or, and_then,
}
use alert_distributor.HashMap.{HashMap, HashSet, get, get₂, remove, insert, put_or_prune}
use alert_distributor.Text.{Text}
use alert_distributor.Sns.Models.{UserDevice}

pub record Membership : Type 0 where
  pub owner : Bool
  pub active : Bool

-- Identifiers are 128-bit UUIDs, read as numbers; an IMEI is a text.
pub record State : Type 0 where
  pub user_active : HashMap ℕ Bool
  pub memberships : HashMap ℕ (HashMap ℕ Membership)
  pub user_units : HashMap ℕ (HashMap ℕ ℕ)
  pub unit_users : HashMap ℕ (HashSet ℕ)
  pub unit_devices : HashMap Text (ℕ × ℕ)
  pub units_by_org : HashMap ℕ (HashMap ℕ ℕ)
  pub unit_org : HashMap ℕ ℕ
  pub user_devices : HashMap ℕ (List UserDevice)

-- `ControlPlaneCache::default()`.
abbrev pub empty : State
empty = record {
  user_active = [];
  memberships = [];
  user_units = [];
  unit_users = [];
  unit_devices = [];
  units_by_org = [];
  unit_org = [];
  user_devices = [];
}

-- A user that does not appear counts as active.
unfoldable pub user_is_active : State → ℕ → Bool
user_is_active s user = unwrap_or (get user s.user_active) true

unfoldable pub active_membership : State → ℕ → ℕ → Option Membership
unfolding user_is_active
active_membership s org user =
    and_then (get₂ org user s.memberships)
      (λ m. if m.active && user_is_active s user then some m else none)

-- The inner part of `unassign_device`: `units` is the entry of the organization.
release_unit : State → ℕ → HashMap ℕ ℕ → State × HashMap ℕ ℕ
release_unit s unit units = elim (get unit units) [
  | none ↦ (s, units)
  | some count ↦
      if nat_beq (count - 1) 0
      then (record s { unit_org = remove unit s.unit_org }, remove unit units)
      else (s, insert unit (count - 1) units)
]

release_org : State → ℕ → ℕ → State
unfolding release_unit
release_org s unit org = elim (get org s.units_by_org) [
  | none ↦ s
  | some units ↦
      let (s', units') = release_unit s unit units in
      record s' { units_by_org = put_or_prune org units' s'.units_by_org }
]

unfoldable pub unassign_device : State → Text → State
unfolding release_org
unassign_device s imei = elim (get imei s.unit_devices) [
  | none ↦ s
  | some (unit, org) ↦ release_org (record s { unit_devices = remove imei s.unit_devices }) unit org
]
