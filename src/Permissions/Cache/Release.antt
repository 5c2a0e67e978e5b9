-- ===== src/Permissions/Cache/Release.antt =====
-- `unassign_device`: what it leaves under each key of each map.
use alert_distributor.Base.{
  ℕ, ◌-◌, ◌≡◌, refl, sym, Bool, false, ◌&&◌, Option, none, some, arith, nat_eq, list_eq, pair_eq,
  nat_beq, ◌==◌, ==_iff, if◌then◌else◌, Option-cases, inl, inr,
}
use alert_distributor.HashMap.{
  HashMap, get, get₂, remove, get-remove, get-insert, get₂-put_or_prune, IsMap, AreMaps, holds_for,
  remove_absent, put_or_prune-AreMaps, remove-IsMap, insert-IsMap,
}
use alert_distributor.Text.{Text}
use alert_distributor.Permissions.Cache.{State, release_unit, release_org, unassign_device}

-- One device fewer; the entry goes with the last one.
abbrev pub lower : Option ℕ → Option ℕ
lower none = none
lower (some count) = if nat_beq (count - 1) 0 then none else some (count - 1)

abbrev pub is_last : Option ℕ → Bool
is_last none = false
is_last (some count) = nat_beq (count - 1) 0

release_unit_lem :
    (s : State) (unit : ℕ) (units : HashMap ℕ ℕ)
    → ((n : ℕ)
        → get n (release_unit s unit units).1
          ≡ (if unit == n then lower (get unit units) else get n units))
      × ((n : ℕ)
          → get n (release_unit s unit units).0.unit_org
            ≡ (if unit == n && is_last (get unit units) then none else get n s.unit_org))
unfolding release_unit
release_unit_lem s unit units = (
  λ n. elim (Option-cases (get unit units)) [
    | inl e ↦ rw (e, release_unit) (ground (arith, e))
    | inr (c, e) ↦
        rw (e, release_unit)
          (ground (arith, get-remove unit n units, get-insert unit n (c - 1) units))
  ],
  λ n. ground (arith, get-remove unit n s.unit_org),
)

units_by_org-release_unit :
    (s : State) (unit : ℕ) (units : HashMap ℕ ℕ)
    → (release_unit s unit units).0.units_by_org ≡ s.units_by_org
unfolding release_unit
units_by_org-release_unit s unit units = ground arith

release_unit-IsMap :
    (s : State) (unit : ℕ) (units : HashMap ℕ ℕ) → IsMap units → IsMap (release_unit s unit units).1
unfolding release_unit
release_unit-IsMap s unit units h = elim (Option-cases (get unit units)) [
  | inl e ↦ rw (e, release_unit) h
  | inr (c, e) ↦
      rw (e, release_unit)
        (ground (arith, remove-IsMap unit units h, insert-IsMap unit (c - 1) units h))
]

module _ (s : State) (unit org : ℕ) where
  get₂-release_org :
      (a n : ℕ)
      → get₂ a n (release_org s unit org).units_by_org ≡ (
          if org == a && unit == n
          then lower (get₂ org unit s.units_by_org)
          else get₂ a n s.units_by_org)
  unfolding release_org
  get₂-release_org a n = elim (Option-cases (get org s.units_by_org)) [
    | inl e ↦ rw (e, release_org) (ground (arith, e, ==_iff org a))
    | inr (units, e) ↦
        rw (e, release_org)
          (ground (
            arith,
            e,
            get₂-put_or_prune org a n (release_unit s unit units).1
                (release_unit s unit units).0.units_by_org,
            units_by_org-release_unit s unit units,
            (release_unit_lem s unit units).0 n,
            ==_iff org a,
          ))
  ]

  unit_org-release_org :
      (n : ℕ)
      → get n (release_org s unit org).unit_org
        ≡ (if unit == n && is_last (get₂ org unit s.units_by_org) then none else get n s.unit_org)
  unfolding release_org
  unit_org-release_org n = elim (Option-cases (get org s.units_by_org)) [
    | inl e ↦ rw (e, release_org) (ground arith)
    | inr (units, e) ↦ rw (e, release_org) (ground (arith, e, (release_unit_lem s unit units).1 n))
  ]

  units-release_org : AreMaps s.units_by_org → AreMaps (release_org s unit org).units_by_org
  unfolding release_org
  units-release_org h = elim (Option-cases (get org s.units_by_org)) [
    | inl e ↦ rw (e, release_org) h
    | inr (units, e) ↦
        rw (e, release_org)
          (rw (units_by_org-release_unit s unit units) (
            put_or_prune-AreMaps org (release_unit s unit units).1 s.units_by_org
              (release_unit-IsMap s unit units (ground (arith, e, h org))) h))
  ]

-- The fields that the release of a unit leaves alone.
pub record SameElsewhere (s t : State) : Type 0 where
  pub user_active : t.user_active ≡ s.user_active
  pub memberships : t.memberships ≡ s.memberships
  pub user_units : t.user_units ≡ s.user_units
  pub unit_users : t.unit_users ≡ s.unit_users
  pub user_devices : t.user_devices ≡ s.user_devices

release_org-SameElsewhere : (s : State) (unit org : ℕ) → SameElsewhere s (release_org s unit org)
unfolding release_org release_unit
release_org-SameElsewhere s unit org = ground arith

unit_devices-release_org :
    (s : State) (unit org : ℕ) → (release_org s unit org).unit_devices ≡ s.unit_devices
unfolding release_org release_unit
unit_devices-release_org s unit org = ground arith

-- All that `unassign_device` does, in terms of what the device was assigned to.
pub record Unassigned (s : State) (imei : Text) (t : State) : Type 0 where
  pub same : SameElsewhere s t
  pub unit_devices : t.unit_devices ≡ remove imei s.unit_devices
  pub units :
      (a n : ℕ)
      → get₂ a n t.units_by_org ≡ (
          if holds_for (λ at. at == (n, a)) (get imei s.unit_devices)
          then lower (get₂ a n s.units_by_org)
          else get₂ a n s.units_by_org)
  pub org :
      (n : ℕ)
      → get n t.unit_org ≡ (
          if holds_for
            (λ at. nat_beq at.0 n && is_last (get₂ at.1 at.0 s.units_by_org))
            (get imei s.unit_devices)
          then none
          else get n s.unit_org)
  pub are_maps : AreMaps s.units_by_org → AreMaps t.units_by_org

pub unassign_device-Unassigned :
    (s : State) (imei : Text) → Unassigned s imei (unassign_device s imei)
unfolding unassign_device
unassign_device-Unassigned s imei = elim (Option-cases (get imei s.unit_devices)) [
  | inl e ↦
      rw (e, unassign_device)
        (record {
          same = ground arith;
          unit_devices = sym (remove_absent imei s.unit_devices e);
          units = λ a n. rw e refl;
          org = λ n. rw e refl;
          are_maps = λ h. h;
        })
  | inr (at, e) ↦
      let s' : State = record s { unit_devices = remove imei s.unit_devices } in
      rw (e, unassign_device)
        (record {
          same = ground (arith, release_org-SameElsewhere s' at.0 at.1);
          unit_devices = unit_devices-release_org s' at.0 at.1;
          units = λ a n.
              ground (arith, e, get₂-release_org s' at.0 at.1 a n, ==_iff at.1 a, ==_iff at.0 n);
          org = λ n. ground (arith, e, unit_org-release_org s' at.0 at.1 n);
          are_maps = units-release_org s' at.0 at.1;
        })
]
