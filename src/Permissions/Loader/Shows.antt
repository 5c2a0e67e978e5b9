-- ===== src/Permissions/Loader/Shows.antt =====
-- What each view of the snapshot says of the facts, apart from the other views.
use alert_distributor.Base.{
  ℕ, ◌≡◌, refl, sym, ◌∙◌, ap, Option, none, some, List, [], ◌∷◌, nat_eq, list_eq,
}
use alert_distributor.Permissions.Cache.{State, empty}
use alert_distributor.Permissions.Cache.Invariant.{Inv}
use alert_distributor.Permissions.Cache.Invariant.Keeps.{empty-Inv}
use alert_distributor.Permissions.Cache.Facts.{
  Key, user, member, granted, device, mobile, Fact, fact,
}
use alert_distributor.Permissions.Cache.Facts.Assertions.{
  Assertion, Asserts, asserted, has_status, is_member, has_grant, is_assigned, registers,
}
use alert_distributor.Permissions.Cache.Write.{active_status}
use alert_distributor.Permissions.Cache.{Membership}
use alert_distributor.Sns.Models.{UserDevice}
use alert_distributor.Text.{Text}
use alert_distributor.Base.{Bool, unwrap_or, ◌==◌}
use alert_distributor.Permissions.Cache.Facts.Writes.{
  apply_user-Asserts, upsert_membership-Asserts, upsert_user_unit-Asserts,
  upsert_unit_device-Asserts, upsert_user_device-Asserts,
}
use alert_distributor.Kafka.ControlPlane.CatchUp.{same_at}
use alert_distributor.Permissions.Loader.{
  Views, UserRow, MembershipRow, UserUnitRow, UnitDeviceRow, UserDeviceRow, for_each, load_user,
  load_membership, load_user_unit, load_unit_device, load_user_device, load_control_plane_snapshot,
}
use alert_distributor.Permissions.Loader.Loads.{
  load_rows, loaded_rows, load_user-Overwrites, load_membership-Overwrites,
  load_user_unit-Overwrites, load_unit_device-Overwrites,
}

-- The facts that events alone decide. A mobile device is also written by the worker, in the cache
-- and in the database, without an event.
abbrev pub IsControl : Key → Type 0
IsControl (mobile u id) = ⊥
IsControl (user u) = Unit
IsControl (member o u) = Unit
IsControl (granted u unit) = Unit
IsControl (device imei) = Unit

abbrev pub SameControl : State → State → Type 0
SameControl s t = (k : Key) → IsControl k → fact k s ≡ fact k t

abbrev given : {A : Type 0} → Option A → (A → Fact) → Option Fact
given none f = none
given (some a) f = some (f a)

-- The fact that the rows of its view give a key, if the query succeeds.
unfoldable pub shown : Views → Key → Option Fact
shown v (user u) = given v.users λ rows. fact (user u) (for_each load_user rows empty)
shown v (member o u) =
    given v.organization_users λ rows. fact (member o u) (for_each load_membership rows empty)
shown v (granted u n) =
    given v.user_units λ rows. fact (granted u n) (for_each load_user_unit rows empty)
shown v (device imei) =
    given v.unit_devices λ rows. fact (device imei) (for_each load_unit_device rows empty)
shown v (mobile u id) = none

-- Rows that assert nothing of a key leave its fact.
leaves :
    {Row : Type 0} (apply : Row → State → State) (says : Row → Assertion)
    → ((row : Row) → Asserts (says row) (apply row))
    → (k : Key) → ((row : Row) → asserted (says row) k ≡ none)
    → (rows : List Row) (s : State) → Inv s
    → fact k (for_each apply rows s) ≡ fact k s
unfolding for_each
leaves apply says h k n [] s v = refl
leaves apply says h k n (row ∷ rows) s v =
    leaves apply says h k n rows (apply row s) ((h row).keeps s v)
    ∙ ((h row).at k s v ∙ ap (λ o. unwrap_or o (fact k s)) (n row))

users_leave :
    (k : Key)
    → ((u : ℕ) (b : Bool) → asserted (has_status u b) k ≡ none)
    → (rows : List UserRow) (s : State) → Inv s
    → fact k (for_each load_user rows s) ≡ fact k s
users_leave k n =
    leaves load_user (λ r. has_status r.id (r.status == active_status))
      (λ r. apply_user-Asserts r.id r.status) k (λ r. n r.id (r.status == active_status))

members_leave :
    (k : Key)
    → ((o u : ℕ) (m : Option Membership) → asserted (is_member o u m) k ≡ none)
    → (rows : List MembershipRow) (s : State) → Inv s
    → fact k (for_each load_membership rows s) ≡ fact k s
members_leave k n =
    leaves load_membership _
      (λ r. upsert_membership-Asserts r.organization_id r.user_id r.role r.status) k
      (λ r. n r.organization_id r.user_id _)

grants_leave :
    (k : Key)
    → ((u unit : ℕ) (o : Option ℕ) → asserted (has_grant u unit o) k ≡ none)
    → (rows : List UserUnitRow) (s : State) → Inv s
    → fact k (for_each load_user_unit rows s) ≡ fact k s
grants_leave k n =
    leaves load_user_unit _ (λ r. upsert_user_unit-Asserts r.organization_id r.user_id r.unit_id) k
      (λ r. n r.user_id r.unit_id (some r.organization_id))

devices_leave :
    (k : Key)
    → ((imei : Text) (to : Option (ℕ × ℕ)) → asserted (is_assigned imei to) k ≡ none)
    → (rows : List UnitDeviceRow) (s : State) → Inv s
    → fact k (for_each load_unit_device rows s) ≡ fact k s
devices_leave k n =
    leaves load_unit_device _
      (λ r. upsert_unit_device-Asserts r.device_id r.unit_id r.organization_id) k
      (λ r. n r.device_id (some (r.unit_id, r.organization_id)))

mobiles_leave :
    (k : Key)
    → ((d : UserDevice) → asserted (registers d) k ≡ none)
    → (rows : List UserDeviceRow) (s : State) → Inv s
    → fact k (for_each load_user_device rows s) ≡ fact k s
mobiles_leave k n = leaves load_user_device _ (λ r. upsert_user_device-Asserts _) k (λ r. n _)

module _ (us : List UserRow) (ms : List MembershipRow) (gs : List UserUnitRow)
    (as' : List UnitDeviceRow) (ds : List UserDeviceRow) where
  u : State
  u = for_each load_user us empty

  m : State
  m = for_each load_membership ms u

  g : State
  g = for_each load_user_unit gs m

  a : State
  a = for_each load_unit_device as' g

  u-Inv : Inv u
  unfolding u
  u-Inv = (load_user-Overwrites us).keeps empty empty-Inv

  m-Inv : Inv m
  unfolding m
  m-Inv = (load_membership-Overwrites ms).keeps u u-Inv

  g-Inv : Inv g
  unfolding g
  g-Inv = (load_user_unit-Overwrites gs).keeps m m-Inv

  a-Inv : Inv a
  unfolding a
  a-Inv = (load_unit_device-Overwrites as').keeps g g-Inv

  user_shown : (x : ℕ) → fact (user x) (load_rows us ms gs as' ds empty) ≡ fact (user x) u
  unfolding load_rows u m g a asserted
  user_shown x =
      mobiles_leave (user x) (λ d. refl) ds a a-Inv
      ∙ (devices_leave (user x) (λ i t. refl) as' g g-Inv
          ∙ (grants_leave (user x) (λ p n o. refl) gs m m-Inv
              ∙ members_leave (user x) (λ o p q. refl) ms u u-Inv))

  member_shown :
      (o x : ℕ)
      → fact (member o x) (load_rows us ms gs as' ds empty)
        ≡ fact (member o x) (for_each load_membership ms empty)
  unfolding load_rows u m g a asserted
  member_shown o x =
      mobiles_leave (member o x) (λ d. refl) ds a a-Inv
      ∙ (devices_leave (member o x) (λ i t. refl) as' g g-Inv
          ∙ (grants_leave (member o x) (λ p n q. refl) gs m m-Inv
              ∙ same_at (member o x) (for_each load_membership ms) u empty
                  ((load_membership-Overwrites ms).at (member o x)) u-Inv empty-Inv
                  (users_leave (member o x) (λ p b. refl) us empty empty-Inv)))

  grant_shown :
      (x n : ℕ)
      → fact (granted x n) (load_rows us ms gs as' ds empty)
        ≡ fact (granted x n) (for_each load_user_unit gs empty)
  unfolding load_rows u m g a asserted
  grant_shown x n =
      mobiles_leave (granted x n) (λ d. refl) ds a a-Inv
      ∙ (devices_leave (granted x n) (λ i t. refl) as' g g-Inv
          ∙ same_at (granted x n) (for_each load_user_unit gs) m empty
              ((load_user_unit-Overwrites gs).at (granted x n)) m-Inv empty-Inv
              (members_leave (granted x n) (λ o p q. refl) ms u u-Inv
                ∙ users_leave (granted x n) (λ p b. refl) us empty empty-Inv))

  device_shown :
      (imei : Text)
      → fact (device imei) (load_rows us ms gs as' ds empty)
        ≡ fact (device imei) (for_each load_unit_device as' empty)
  unfolding load_rows u m g a asserted
  device_shown imei =
      mobiles_leave (device imei) (λ d. refl) ds a a-Inv
      ∙ same_at (device imei) (for_each load_unit_device as') g empty
          ((load_unit_device-Overwrites as').at (device imei)) g-Inv empty-Inv
          (grants_leave (device imei) (λ p n q. refl) gs m m-Inv
            ∙ (members_leave (device imei) (λ o p q. refl) ms u u-Inv
                ∙ users_leave (device imei) (λ p b. refl) us empty empty-Inv))

-- A snapshot holds, of each key, what the view of the key showed when it was queried.
pub load_control_plane_snapshot-shown :
    (v : Views) (s : State)
    → load_control_plane_snapshot v ≡ some s
    → (k : Key) → IsControl k
    → shown v k ≡ some (fact k s)
unfolding shown u
load_control_plane_snapshot-shown v s e k c =
    let (us, ms, gs, as', ds, same, p, q, r, t) = loaded_rows v e in
    at us ms gs as' ds same p q r t k c
  where
    at :
        (us : List UserRow) (ms : List MembershipRow) (gs : List UserUnitRow)
        (as' : List UnitDeviceRow) (ds : List UserDeviceRow)
        → load_rows us ms gs as' ds empty ≡ s
        → v.users ≡ some us
        → v.organization_users ≡ some ms
        → v.user_units ≡ some gs
        → v.unit_devices ≡ some as'
        → (k : Key) → IsControl k
        → shown v k ≡ some (fact k s)
    at us ms gs as' ds same p q r t (user x) c =
        rw p (ap some (sym (user_shown us ms gs as' ds x) ∙ ap (fact (user x)) same))
    at us ms gs as' ds same p q r t (member o x) c =
        rw q (ap some (sym (member_shown us ms gs as' ds o x) ∙ ap (fact (member o x)) same))
    at us ms gs as' ds same p q r t (granted x n) c =
        rw r (ap some (sym (grant_shown us ms gs as' ds x n) ∙ ap (fact (granted x n)) same))
    at us ms gs as' ds same p q r t (device imei) c =
        rw t (ap some (sym (device_shown us ms gs as' ds imei) ∙ ap (fact (device imei)) same))
    at us ms gs as' ds same p q r t (mobile x id) c = absurd c
