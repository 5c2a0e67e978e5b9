-- ===== src/Permissions/Loader/Loads.antt =====
-- The snapshot is loaded whole or not at all, and it is well formed.
use alert_distributor.Base.{
  ◌≡◌, refl, subst, Bool, ◌&&◌, Option, none, some, List, [], ◌∷◌, arith, is_some, and_then,
}
use alert_distributor.Permissions.Cache.{State, empty}
use alert_distributor.Permissions.Cache.Invariant.{Inv}
use alert_distributor.Permissions.Cache.Invariant.Keeps.{empty-Inv}
use alert_distributor.Permissions.Cache.Facts.{Overwrites, Overwrites-id, Overwrites-compose}
use alert_distributor.Permissions.Cache.Facts.Assertions.{Asserts-Overwrites}
use alert_distributor.Permissions.Cache.Facts.Writes.{
  apply_user-Asserts, upsert_membership-Asserts, upsert_user_unit-Asserts,
  upsert_unit_device-Asserts, upsert_user_device-Asserts,
}
use alert_distributor.Permissions.Loader.{
  Views, UserRow, MembershipRow, UserUnitRow, UnitDeviceRow, UserDeviceRow, for_each, load_user,
  load_membership, load_user_unit, load_unit_device, load_user_device, load_control_plane_snapshot,
}

for_each-Overwrites :
    {Row : Type 0} (apply : Row → State → State)
    → ((row : Row) → Overwrites (apply row))
    → (rows : List Row) → Overwrites (for_each apply rows)
unfolding for_each
for_each-Overwrites apply h [] = Overwrites-id
for_each-Overwrites apply h (row ∷ rows) =
    Overwrites-compose (apply row) (for_each apply rows) (h row) (for_each-Overwrites apply h rows)

-- The five loops, from any state.
unfoldable pub load_rows :
    List UserRow
    → List MembershipRow
    → List UserUnitRow
    → List UnitDeviceRow
    → List UserDeviceRow
    → State
    → State
load_rows users memberships grants assignments mobiles s = for_each load_user_device mobiles (
    for_each load_unit_device assignments (
      for_each load_user_unit grants
        (for_each load_membership memberships (for_each load_user users s))))

pub load_user-Overwrites : (us : List UserRow) → Overwrites (for_each load_user us)
load_user-Overwrites us =
    for_each-Overwrites load_user
      (λ r. Asserts-Overwrites (load_user r) (apply_user-Asserts r.id r.status)) us

pub load_membership-Overwrites :
    (ms : List MembershipRow) → Overwrites (for_each load_membership ms)
load_membership-Overwrites ms =
    for_each-Overwrites load_membership
      (λ r.
        Asserts-Overwrites (load_membership r)
          (upsert_membership-Asserts r.organization_id r.user_id r.role r.status))
      ms

pub load_user_unit-Overwrites : (gs : List UserUnitRow) → Overwrites (for_each load_user_unit gs)
load_user_unit-Overwrites gs =
    for_each-Overwrites load_user_unit
      (λ r.
        Asserts-Overwrites (load_user_unit r)
          (upsert_user_unit-Asserts r.organization_id r.user_id r.unit_id))
      gs

pub load_unit_device-Overwrites :
    (as' : List UnitDeviceRow) → Overwrites (for_each load_unit_device as')
load_unit_device-Overwrites as' =
    for_each-Overwrites load_unit_device
      (λ r.
        Asserts-Overwrites (load_unit_device r)
          (upsert_unit_device-Asserts r.device_id r.unit_id r.organization_id))
      as'

pub load_user_device-Overwrites :
    (ds : List UserDeviceRow) → Overwrites (for_each load_user_device ds)
load_user_device-Overwrites ds =
    for_each-Overwrites load_user_device
      (λ r. Asserts-Overwrites (load_user_device r) (upsert_user_device-Asserts _)) ds

load_rows-Inv :
    (us : List UserRow) (ms : List MembershipRow) (gs : List UserUnitRow) (as' : List UnitDeviceRow)
    (ds : List UserDeviceRow) (s : State)
    → Inv s
    → Inv (load_rows us ms gs as' ds s)
unfolding load_rows
load_rows-Inv us ms gs as' ds s v = (load_user_device-Overwrites ds).keeps _ (
    (load_unit_device-Overwrites as').keeps _ (
      (load_user_unit-Overwrites gs).keeps _
        ((load_membership-Overwrites ms).keeps _ ((load_user-Overwrites us).keeps s v))))

abbrev pub all_loaded : Views → Bool
all_loaded v =
    is_some v.users
    && is_some v.organization_users
    && is_some v.user_units
    && is_some v.unit_devices
    && is_some v.user_devices

-- The snapshot loads exactly when all five queries succeed.
pub load_control_plane_snapshot-IsSome :
    (v : Views) → is_some (load_control_plane_snapshot v) ≡ all_loaded v
unfolding load_control_plane_snapshot
load_control_plane_snapshot-IsSome v = ground arith

bind_some :
    {A B : Type 0} (m : Option A) (f : A → Option B) {b : B}
    → and_then m f ≡ some b
    → (a : A) × (m ≡ some a) × (f a ≡ some b)
bind_some none f h = cc
bind_some (some a) f h = (a, refl, h)

-- What a snapshot is made of.
pub loaded_rows :
    (v : Views) {s : State}
    → load_control_plane_snapshot v ≡ some s
    → (us : List UserRow) × (ms : List MembershipRow) × (gs : List UserUnitRow) × (as' : List
        UnitDeviceRow)
      × (ds : List UserDeviceRow) × (load_rows us ms gs as' ds empty ≡ s)
      × (v.users ≡ some us)
      × (v.organization_users ≡ some ms)
      × (v.user_units ≡ some gs)
      × (v.unit_devices ≡ some as')
unfolding load_control_plane_snapshot load_rows
loaded_rows v e =
    let (us, p, e₁) = bind_some v.users _ e in
    let (ms, q, e₂) = bind_some v.organization_users _ e₁ in
    let (gs, r, e₃) = bind_some v.user_units _ e₂ in
    let (as', t, e₄) = bind_some v.unit_devices _ e₃ in
    let (ds, u, e₅) = bind_some v.user_devices _ e₄ in (us, ms, gs, as', ds, cc, p, q, r, t)

-- Every snapshot that loads is well formed, whatever rows the views return.
pub load_control_plane_snapshot-Inv :
    (v : Views) {s : State} → load_control_plane_snapshot v ≡ some s → Inv s
load_control_plane_snapshot-Inv v e =
    let (us, ms, gs, as', ds, same, _, _, _, _) = loaded_rows v e in
    subst Inv same (load_rows-Inv us ms gs as' ds empty empty-Inv)
