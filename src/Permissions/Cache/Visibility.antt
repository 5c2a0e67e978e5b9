-- ===== src/Permissions/Cache/Visibility.antt =====
-- What `users_for_unit` and `units_for` return, element by element.
use alert_distributor.Base.{
  ℕ, ◌≡◌, ◌∙◌, Bool, ◌&&◌, ◌||◌, not, [], map, arith, nat_eq, pair_eq, nat_beq, if◌then◌else◌,
  unwrap_or, is_some, contains, contains-nil, Option-cases, inl, inr,
}
use alert_distributor.HashMap.{
  HashMap, get, get₂, keys, contains_key, holds_for, IsMap, contains-keys, contains-keys_where,
  get-nil,
}
use alert_distributor.Sort.{
  contains-sort, sort-IsAscending, IsAscending, IsDistinct, nat_ord, pair_ord,
}
use alert_distributor.Permissions.Cache.{State, Membership, user_is_active, active_membership}
use alert_distributor.Permissions.Cache.Read.{
  insert_where, recipients, users_for_unit, visible_units, units_for,
}
use alert_distributor.Permissions.Cache.Read.Recipients.{
  contains_key-insert_where, insert_where-IsMap, contains-keys_where_key, contains-pairs,
  pairs-IsDistinct, keys-IsDistinct, keys_where-IsDistinct,
}

-- Each inner map that is iterated over holds a key once.
pub record HasMaps (s : State) : Type 0 where
  pub members : (org : ℕ) → IsMap (unwrap_or (get org s.memberships) [])
  pub granted : (user : ℕ) → IsMap (unwrap_or (get user s.user_units) [])
  pub users : (unit : ℕ) → IsMap (unwrap_or (get unit s.unit_users) [])
  pub units : (org : ℕ) → IsMap (unwrap_or (get org s.units_by_org) [])

-- The rule behind `users_for_unit`.
abbrev pub receives : State → ℕ → ℕ → ℕ → Bool
receives s org user unit =
    holds_for (λ o. nat_beq o org) (get unit s.unit_org)
    && holds_for (λ m. m.owner || is_some (get₂ unit user s.unit_users))
        (active_membership s org user)

-- The rule behind `units_for`.
abbrev pub sees : State → ℕ → ℕ → ℕ → Bool
sees s org user unit =
    holds_for
      (λ m.
        if m.owner
        then is_some (get₂ org unit s.units_by_org)
        else holds_for (λ o. nat_beq o org) (get₂ user unit s.user_units)
          && is_some (get unit s.unit_org))
      (active_membership s org user)

get-unwrap_or {κ} :
    {V : Type κ} (k j : ℕ) (m : HashMap ℕ (HashMap ℕ V))
    → get j (unwrap_or (get k m) []) ≡ get₂ k j m
unfolding get
get-unwrap_or k j m = elim (Option-cases (get k m)) [ inl e ↦ rw e | inr (inner, e) ↦ rw e ]

contains_key-recipients :
    (s : State) (org unit user : ℕ)
    → HasMaps s
    → contains_key user (recipients s org unit)
      ≡ holds_for
          (λ m. m.owner || is_some (get₂ unit user s.unit_users))
          (active_membership s org user)
unfolding recipients active_membership
contains_key-recipients s org unit user h = ground (
  arith,
  contains_key-insert_where (λ user _. holds_for (λ m. not m.owner) (active_membership s org user))
      (unwrap_or (get unit s.unit_users) [])
      (insert_where (λ user m. m.owner && m.active && user_is_active s user)
        (unwrap_or (get org s.memberships) []) [])
      user,
  contains_key-insert_where (λ user m. m.owner && m.active && user_is_active s user)
      (unwrap_or (get org s.memberships) []) [] user,
  contains-keys_where_key (λ user. holds_for (λ m. not m.owner) (active_membership s org user))
      (unwrap_or (get unit s.unit_users) []) user,
  contains-keys_where user (λ user m. m.owner && m.active && user_is_active s user)
      (unwrap_or (get org s.memberships) []) (h.members org),
  get-unwrap_or org user s.memberships,
  get-unwrap_or unit user s.unit_users,
  get-nil {V = Unit {0}} user,
)

-- When the maps of the cache have distinct keys, a pair is among the recipients of a unit exactly
-- when `unit_org` gives the unit that organization, the membership and the user are active, and the
-- user is an owner or is listed in `unit_users`.
pub contains-users_for_unit :
    (s : State) (unit org user : ℕ)
    → HasMaps s
    → contains {A = ℕ × ℕ} (org, user) (users_for_unit s unit) ≡ receives s org user unit
unfolding users_for_unit
contains-users_for_unit s unit org user h = elim (Option-cases (get unit s.unit_org)) [
  | inl e ↦ rw (e, users_for_unit) (contains-nil {A = ℕ × ℕ} (org, user))
  | inr (o, e) ↦
      rw (e, users_for_unit)
        (ground (
          arith,
          contains-sort {A = ℕ × ℕ} (org, user)
              (map (λ user. (o, user)) (keys (recipients s o unit))),
          contains-pairs o org user (keys (recipients s o unit)),
          contains-keys user (recipients s o unit),
          contains_key-recipients s org unit user h,
        ))
]

contains-visible_units :
    (s : State) (org user unit : ℕ) (m : Membership)
    → HasMaps s
    → contains unit (visible_units s org user m) ≡ (
        if m.owner
        then is_some (get₂ org unit s.units_by_org)
        else holds_for (λ o. nat_beq o org) (get₂ user unit s.user_units)
          && is_some (get unit s.unit_org))
unfolding visible_units
contains-visible_units s org user unit m h = ground (
  arith,
  contains-keys unit (unwrap_or (get org s.units_by_org) []),
  contains-keys_where unit
      (λ unit granted_in. nat_beq granted_in org && contains_key unit s.unit_org)
      (unwrap_or (get user s.user_units) []) (h.granted user),
  get-unwrap_or org unit s.units_by_org,
  get-unwrap_or user unit s.user_units,
)

-- When the maps of the cache have distinct keys, a unit is among those of a member exactly when the
-- membership and the user are active and either the member is an owner and the organization has a
-- device of the unit, or the grant on the unit names the organization and the unit has one.
pub contains-units_for :
    (s : State) (org user unit : ℕ)
    → HasMaps s
    → contains unit (units_for s org user) ≡ sees s org user unit
unfolding units_for
contains-units_for s org user unit h = elim (Option-cases (active_membership s org user)) [
  | inl e ↦ rw (e, units_for) (contains-nil unit)
  | inr (m, e) ↦
      rw (e, units_for)
        (contains-sort unit (visible_units s org user m)
          ∙ contains-visible_units s org user unit m h)
]

recipients-IsMap : (s : State) (org unit : ℕ) → IsMap (recipients s org unit)
unfolding recipients
recipients-IsMap s org unit =
    insert_where-IsMap (λ user _. holds_for (λ m. not m.owner) (active_membership s org user))
      (unwrap_or (get unit s.unit_users) [])
      (insert_where (λ user m. m.owner && m.active && user_is_active s user)
        (unwrap_or (get org s.memberships) []) [])
      (insert_where-IsMap (λ user m. m.owner && m.active && user_is_active s user)
        (unwrap_or (get org s.memberships) []) [] tt)

module _ (s : State) (h : HasMaps s) where
  -- When the maps of the cache have distinct keys, the recipients of a unit come in strictly
  -- ascending order, so none of them twice.
  pub users_for_unit-IsAscending : (unit : ℕ) → IsAscending {A = ℕ × ℕ} (users_for_unit s unit)
  unfolding users_for_unit
  users_for_unit-IsAscending unit = elim (Option-cases (get unit s.unit_org)) [
    | inl e ↦ rw (e, users_for_unit) tt
    | inr (o, e) ↦
        rw (e, users_for_unit)
          (sort-IsAscending {A = ℕ × ℕ} _ (
            pairs-IsDistinct o _
              (keys-IsDistinct (recipients s o unit) (recipients-IsMap s o unit))))
  ]

  visible_units-IsDistinct :
      (org user : ℕ) (m : Membership) → IsDistinct (visible_units s org user m)
  unfolding visible_units
  visible_units-IsDistinct org user m = ground (
    arith,
    keys-IsDistinct (unwrap_or (get org s.units_by_org) []) (h.units org),
    keys_where-IsDistinct
        (λ unit granted_in. nat_beq granted_in org && contains_key unit s.unit_org)
        (unwrap_or (get user s.user_units) []) (h.granted user),
  )

  -- When the maps of the cache have distinct keys, the units of a member come in strictly ascending
  -- order, so none of them twice.
  pub units_for-IsAscending : (org user : ℕ) → IsAscending (units_for s org user)
  unfolding units_for
  units_for-IsAscending org user = elim (Option-cases (active_membership s org user)) [
    | inl e ↦ rw (e, units_for) tt
    | inr (m, e) ↦ rw (e, units_for) (sort-IsAscending _ (visible_units-IsDistinct org user m))
  ]
