-- ===== src/Permissions/Cache/Invariant.antt =====
-- The well-formedness of the cache: the two indexes of grants mirror one another, and the index of
-- units by organization counts the devices that are assigned.
pub mod Assigned
pub mod Keeps
use alert_distributor.Base.{
  ℕ, zero, suc, ◌+◌, ◌≡◌, refl, Bool, true, false, Option, none, some, [], ◌∷◌, nat_eq, list_eq,
  pair_eq, ◌==◌, if◌then◌else◌, is_some,
}
use alert_distributor.HashMap.{HashMap, get, get₂, IsMap}
use alert_distributor.Text.{Text}
use alert_distributor.Permissions.Cache.{State}
use alert_distributor.Permissions.Cache.Visibility.{HasMaps}

-- How many devices are assigned to a unit, as a unit of that organization.
unfoldable pub assigned : ℕ → ℕ → HashMap Text (ℕ × ℕ) → ℕ
assigned unit org [] = 0
assigned unit org ((imei, at) ∷ m) = (if at == (unit, org) then 1 else 0) + assigned unit org m

-- A count, where no entry stands for 0.
abbrev pub positive : ℕ → Option ℕ
positive zero = none
positive (suc n) = some (suc n)

pub record Inv (s : State) : Type 0 where
  pub maps : HasMaps s
  pub devices : IsMap s.unit_devices
  pub mobiles : IsMap s.user_devices
  pub mirror :
      (user unit : ℕ)
      → is_some (get₂ unit user s.unit_users) ≡ is_some (get₂ user unit s.user_units)
  pub tally :
      (org unit : ℕ) → get₂ org unit s.units_by_org ≡ positive (assigned unit org s.unit_devices)
  pub located :
      (unit org : ℕ)
      → get unit s.unit_org ≡ some org
      → is_some (get₂ org unit s.units_by_org) ≡ true
