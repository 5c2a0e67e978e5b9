-- ===== src/Permissions/Cache/Rule.antt =====
-- The rule of recipients (docs/eventos-de-control.md, "La regla de destinatarios"), stated on what
-- the events assert: memberships, users, grants, and the assigned devices.
use alert_distributor.Base.{
  ℕ, ◌+◌, ◌≡◌, ◌≢◌, sym, ◌∙◌, Bool, true, ◌&&◌, ◌||◌, none, some, arith, nat_eq, list_eq, pair_eq,
  ==_iff, is_some, Option-cases, inl, inr, unwrap_or, contains, ltb,
}
use alert_distributor.HashMap.{get, get₂, holds_for, get-insert, get₂-insert_at}
use alert_distributor.Text.{Text}
use alert_distributor.Permissions.Cache.{State, active_membership, unassign_device}
use alert_distributor.Permissions.Cache.Release.{Unassigned, unassign_device-Unassigned}
use alert_distributor.Permissions.Cache.Read.{users_for_unit, units_for}
use alert_distributor.Permissions.Cache.Visibility.{
  receives, sees, contains-users_for_unit, contains-units_for,
}
use alert_distributor.Permissions.Cache.Invariant.{assigned, Inv}
use alert_distributor.Permissions.Cache.Write.{
  assign_device, upsert_unit_device, delete_unit_device,
}

-- The unit has a device and belongs to the organization; the membership and the user are active;
-- and the user is an owner or holds a grant on the unit.
abbrev pub entitled : State → ℕ → ℕ → ℕ → Bool
entitled s org user unit =
    ltb 0 (assigned unit org s.unit_devices)
    && holds_for (λ m. m.owner || is_some (get₂ user unit s.user_units))
        (active_membership s org user)

-- All devices of a unit name the same organization, which `unit_org` holds.
pub record IsLocated (s : State) : Type 0 where
  pub home :
      (unit org : ℕ)
      → is_some (get₂ org unit s.units_by_org) ≡ true
      → get unit s.unit_org ≡ some org

-- A grant names the organization that its unit belongs to.
pub record GrantsAgree (s : State) : Type 0 where
  pub agree :
      (user unit granted_in org : ℕ)
      → get₂ user unit s.user_units ≡ some granted_in
      → get unit s.unit_org ≡ some org
      → granted_in ≡ org

receives-entitled :
    (s : State) (org user unit : ℕ)
    → Inv s
    → IsLocated s
    → receives s org user unit ≡ entitled s org user unit
receives-entitled s org user unit v l =
    ground (arith, v.mirror user unit, v.tally org unit, v.located unit org, l.home unit org)

-- On a well-formed cache in which all devices of a unit name the organization that `unit_org`
-- holds, `users_for_unit` returns exactly the pairs (organization, user) that the documented rule
-- entitles: the unit has a device of that organization, the membership and the user are active, and
-- the user is an owner or holds a grant on the unit.
pub users_for_unit-entitled :
    (s : State) (unit org user : ℕ)
    → Inv s
    → IsLocated s
    → contains {A = ℕ × ℕ} (org, user) (users_for_unit s unit) ≡ entitled s org user unit
users_for_unit-entitled s unit org user v l =
    contains-users_for_unit s unit org user v.maps ∙ receives-entitled s org user unit v l

sees-receives :
    (s : State) (org user unit : ℕ)
    → Inv s
    → IsLocated s
    → GrantsAgree s
    → sees s org user unit ≡ receives s org user unit
sees-receives s org user unit v l g = grind (
  arith,
  v.mirror user unit,
  v.tally org unit,
  v.located unit org,
  l.home unit org,
  λ (granted_in at : ℕ). g.agree user unit granted_in at,
)

-- On a well-formed cache in which the devices of a unit name its organization and every grant names
-- the organization of its unit, the WebSocket side shows a unit to a user exactly when the push
-- side lists the user among the recipients of the unit.
pub units_for-users_for_unit :
    (s : State) (org user unit : ℕ)
    → Inv s
    → IsLocated s
    → GrantsAgree s
    → contains unit (units_for s org user)
      ≡ contains {A = ℕ × ℕ} (org, user) (users_for_unit s unit)
units_for-users_for_unit s org user unit v l g =
    contains-units_for s org user unit v.maps
    ∙ (sees-receives s org user unit v l g ∙ sym (contains-users_for_unit s unit org user v.maps))

Unassigned-IsLocated : {s t : State} {imei : Text} → Unassigned s imei t → IsLocated s → IsLocated t
Unassigned-IsLocated {s} {t} {imei} u l = record {
  home = λ n o h. elim (Option-cases (get imei s.unit_devices)) [
    | inl e ↦ ground (arith, u.units o n, u.org n, l.home n o)
    | inr (at, e) ↦
        ground (arith, u.units o n, u.org n, l.home n o, l.home n at.1, ==_iff at (n, o))
  ];
}

-- When the devices of each unit name the organization that `unit_org` holds, they still do after
-- `delete_unit_device`.
pub delete_unit_device-IsLocated :
    (s : State) (imei : Text) → IsLocated s → IsLocated (delete_unit_device imei s)
unfolding delete_unit_device
delete_unit_device-IsLocated s imei l = Unassigned-IsLocated (unassign_device-Unassigned s imei) l

-- On a well-formed cache in which the devices of each unit name its organization, assigning a
-- device keeps that so, provided that behind the release of the device no other organization has a
-- device of the unit.
pub upsert_unit_device-IsLocated :
    (s : State) (imei : Text) (unit org : ℕ)
    → Inv s
    → IsLocated s
    → ((o : ℕ) → o ≢ org → get₂ o unit (unassign_device s imei).units_by_org ≡ none)
    → IsLocated (upsert_unit_device imei unit org s)
unfolding upsert_unit_device assign_device
upsert_unit_device-IsLocated s imei unit org v l sole =
    let t : State = unassign_device s imei in
    let l' = Unassigned-IsLocated (unassign_device-Unassigned s imei) l in
    record {
      home = λ n o h. ground (
        arith,
        get₂-insert_at org o unit n (unwrap_or (get₂ org unit t.units_by_org) 0 + 1) t.units_by_org,
        get-insert unit n org t.unit_org,
        l'.home n o,
        sole o,
      );
    }
