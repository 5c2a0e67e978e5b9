-- ===== src/Permissions/Cache/Invariant/Assigned.antt =====
-- How the number of assigned devices changes with the table of devices.
use alert_distributor.Base.{
  ℕ, ◌+◌, ◌≡◌, none, [], ◌∷◌, arith, nat_eq, list_eq, pair_eq, ◌==◌, ==_iff, if◌then◌else◌,
}
use alert_distributor.HashMap.{HashMap, get, remove, insert, IsMap, holds_for, remove_absent}
use alert_distributor.Text.{Text}
use alert_distributor.Permissions.Cache.Invariant.{assigned}

module _ (unit org : ℕ) (imei : Text) where
  pub assigned-remove :
      (m : HashMap Text (ℕ × ℕ))
      → IsMap m
      → assigned unit org m
        ≡ (if holds_for (λ at. at == (unit, org)) (get imei m) then 1 else 0)
          + assigned unit org (remove imei m)
  unfolding assigned get remove
  assigned-remove [] h = ground arith
  assigned-remove ((j, at) ∷ m) h =
      ground (arith, assigned-remove m h.1, ==_iff j imei, remove_absent imei m)

  pub assigned-insert :
      (at : ℕ × ℕ) (m : HashMap Text (ℕ × ℕ))
      → get imei m ≡ none
      → assigned unit org (insert imei at m)
        ≡ (if at == (unit, org) then 1 else 0) + assigned unit org m
  unfolding assigned insert
  assigned-insert at m h = ground (arith, remove_absent imei m h)
