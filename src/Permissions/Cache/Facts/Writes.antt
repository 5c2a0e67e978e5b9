-- ===== src/Permissions/Cache/Facts/Writes.antt =====
-- Each method that writes sets facts in that way.
use alert_distributor.Base.{
  ℕ, ◌≡◌, refl, false, none, some, List, [], ◌∷◌, ◌++◌, arith, nat_eq, list_eq, nat_beq, ◌==◌,
  if◌then◌else◌, filter, unwrap_or,
}
use alert_distributor.HashMap.{remove, get-insert, get-remove, get₂-insert_at, get₂-remove_at}
use alert_distributor.Text.{Text}
use alert_distributor.Sns.Models.{UserDevice}
use alert_distributor.Permissions.Cache.{State, Membership, unassign_device}
use alert_distributor.Permissions.Cache.Release.{unassign_device-Unassigned}
use alert_distributor.Permissions.Cache.Facts.{
  find_device, Key, user, member, granted, device, mobile, fact,
}
use alert_distributor.Permissions.Cache.Facts.Assertions.{
  Assertion, has_status, is_member, has_grant, is_assigned, registers, forgets, asserted, Asserts,
}
use alert_distributor.Permissions.Cache.Write.{
  apply_user, upsert_membership, delete_membership, upsert_user_unit, delete_user_unit,
  upsert_unit_device, delete_unit_device, upsert_user_device, deactivate_device, drop_device,
  assign_device, owner_role, active_status,
}
use alert_distributor.Permissions.Cache.Mobiles.{
  is_other, devices_of, devices_of-drop_device, devices_of-push_device,
}
use alert_distributor.Permissions.Cache.Invariant.{Inv}
use alert_distributor.Permissions.Cache.Invariant.Keeps.{
  apply_user-Inv, upsert_membership-Inv, delete_membership-Inv, upsert_user_unit-Inv,
  delete_user_unit-Inv, upsert_unit_device-Inv, delete_unit_device-Inv, upsert_user_device-Inv,
  deactivate_device-Inv,
}

-- The law of one key.
abbrev SetsAt : Key → Assertion → (State → State) → Type 0
SetsAt k a f = (s : State) → Inv s → fact k (f s) ≡ unwrap_or (asserted a k) (fact k s)

at_apply_user :
    (u : ℕ) (st : Text) (k : Key) → SetsAt k (has_status u (st == active_status)) (apply_user u st)
unfolding apply_user fact asserted
at_apply_user u st (user a) =
    (λ s w. ground (arith, get-insert u a (st == active_status) s.user_active))
at_apply_user u st (member org a) = (λ s w. refl)
at_apply_user u st (granted a unit) = (λ s w. refl)
at_apply_user u st (device imei) = (λ s w. refl)
at_apply_user u st (mobile a id) = (λ s w. refl)

at_upsert_membership :
    (org u : ℕ) (role st : Text) (k : Key)
    → SetsAt k
        (is_member org u
          (some (record { owner = role == owner_role; active = st == active_status })))
        (upsert_membership org u role st)
unfolding upsert_membership fact asserted
at_upsert_membership org u role st (member o a) =
    let m : Membership = record { owner = role == owner_role; active = st == active_status } in
    (λ s w. ground (arith, get₂-insert_at org o u a m s.memberships))
at_upsert_membership org u role st (user a) = (λ s w. refl)
at_upsert_membership org u role st (granted a unit) = (λ s w. refl)
at_upsert_membership org u role st (device imei) = (λ s w. refl)
at_upsert_membership org u role st (mobile a id) = (λ s w. refl)

at_delete_membership :
    (org u : ℕ) (k : Key) → SetsAt k (is_member org u none) (delete_membership org u)
unfolding delete_membership fact asserted
at_delete_membership org u (member o a) =
    (λ s w. ground (arith, get₂-remove_at org o u a s.memberships))
at_delete_membership org u (user a) = (λ s w. refl)
at_delete_membership org u (granted a unit) = (λ s w. refl)
at_delete_membership org u (device imei) = (λ s w. refl)
at_delete_membership org u (mobile a id) = (λ s w. refl)

at_upsert_user_unit :
    (org u n : ℕ) (k : Key) → SetsAt k (has_grant u n (some org)) (upsert_user_unit org u n)
unfolding upsert_user_unit fact asserted
at_upsert_user_unit org u n (granted a unit) =
    (λ s w. ground (arith, get₂-insert_at u a n unit org s.user_units))
at_upsert_user_unit org u n (user a) = (λ s w. refl)
at_upsert_user_unit org u n (member o a) = (λ s w. refl)
at_upsert_user_unit org u n (device imei) = (λ s w. refl)
at_upsert_user_unit org u n (mobile a id) = (λ s w. refl)

at_delete_user_unit : (u n : ℕ) (k : Key) → SetsAt k (has_grant u n none) (delete_user_unit u n)
unfolding delete_user_unit fact asserted
at_delete_user_unit u n (granted a unit) =
    (λ s w. ground (arith, get₂-remove_at u a n unit s.user_units))
at_delete_user_unit u n (user a) = (λ s w. refl)
at_delete_user_unit u n (member o a) = (λ s w. refl)
at_delete_user_unit u n (device imei) = (λ s w. refl)
at_delete_user_unit u n (mobile a id) = (λ s w. refl)

-- Only the table of devices is a fact; its indexes follow from it.
fact-unassign_device :
    (imei : Text) (k : Key) (s : State)
    → fact k (unassign_device s imei)
      ≡ fact k (record s { unit_devices = remove imei s.unit_devices })
unfolding fact
fact-unassign_device imei (user a) s =
    ground (arith, (unassign_device-Unassigned s imei).same.user_active)
fact-unassign_device imei (member o a) s =
    ground (arith, (unassign_device-Unassigned s imei).same.memberships)
fact-unassign_device imei (granted a n) s =
    ground (arith, (unassign_device-Unassigned s imei).same.user_units)
fact-unassign_device imei (device j) s =
    ground (arith, (unassign_device-Unassigned s imei).unit_devices)
fact-unassign_device imei (mobile a id) s =
    ground (arith, (unassign_device-Unassigned s imei).same.user_devices)

at_delete_unit_device :
    (imei : Text) (k : Key) → SetsAt k (is_assigned imei none) (delete_unit_device imei)
unfolding delete_unit_device fact asserted
at_delete_unit_device imei (device j) = (λ s w.
    ground (arith, fact-unassign_device imei (device j) s, get-remove imei j s.unit_devices))
at_delete_unit_device imei (user a) = (λ s w. fact-unassign_device imei (user a) s)
at_delete_unit_device imei (member o a) = (λ s w. fact-unassign_device imei (member o a) s)
at_delete_unit_device imei (granted a n) = (λ s w. fact-unassign_device imei (granted a n) s)
at_delete_unit_device imei (mobile a id) = (λ s w. fact-unassign_device imei (mobile a id) s)

at_upsert_unit_device :
    (imei : Text) (unit org : ℕ) (k : Key)
    → SetsAt k (is_assigned imei (some (unit, org))) (upsert_unit_device imei unit org)
unfolding upsert_unit_device assign_device fact asserted
at_upsert_unit_device imei unit org (device j) = (λ s w. ground (
  arith,
  (unassign_device-Unassigned s imei).unit_devices,
  get-insert imei j (unit, org) (remove imei s.unit_devices),
  get-remove imei j s.unit_devices,
))
at_upsert_unit_device imei unit org (user a) = (λ s w. fact-unassign_device imei (user a) s)
at_upsert_unit_device imei unit org (member o a) = (λ s w. fact-unassign_device imei (member o a) s)
at_upsert_unit_device imei unit org (granted a n) =
    (λ s w. fact-unassign_device imei (granted a n) s)
at_upsert_unit_device imei unit org (mobile a id) =
    (λ s w. fact-unassign_device imei (mobile a id) s)

module _ (id : ℕ) where
  find_device-filter :
      (j : ℕ) (ds : List UserDevice)
      → find_device j (filter (is_other id) ds) ≡ (if nat_beq id j then none else find_device j ds)
  unfolding find_device
  find_device-filter j [] = ground arith
  find_device-filter j (d ∷ ds) = ground (arith, find_device-filter j ds)

find_device-push :
    (j : ℕ) (ds : List UserDevice) (d : UserDevice)
    → (nat_beq d.id j ≡ false → find_device j (ds ++ d ∷ []) ≡ find_device j ds)
      × (find_device d.id ds ≡ none → find_device d.id (ds ++ d ∷ []) ≡ some d)
unfolding find_device
find_device-push j [] d = ground arith
find_device-push j (x ∷ ds) d = ground (arith, find_device-push j ds d)

at_deactivate_device : (id : ℕ) (k : Key) → SetsAt k (forgets id) (λ s. (deactivate_device id s).1)
unfolding deactivate_device fact asserted
at_deactivate_device id (mobile u j) = (λ s w. ground (
  arith,
  devices_of-drop_device id u s.user_devices w.mobiles,
  find_device-filter id j (devices_of u s.user_devices),
))
at_deactivate_device id (user a) = (λ s w. refl)
at_deactivate_device id (member o a) = (λ s w. refl)
at_deactivate_device id (granted a n) = (λ s w. refl)
at_deactivate_device id (device imei) = (λ s w. refl)

at_upsert_user_device : (d : UserDevice) (k : Key) → SetsAt k (registers d) (upsert_user_device d)
unfolding upsert_user_device fact asserted
at_upsert_user_device d (mobile u j) = (λ s w. ground (
  arith,
  devices_of-drop_device d.id u s.user_devices w.mobiles,
  find_device-filter d.id j (devices_of u s.user_devices),
  devices_of-push_device d u (drop_device d.id s.user_devices),
  find_device-push j (filter (is_other d.id) (devices_of u s.user_devices)) d,
))
at_upsert_user_device d (user a) = (λ s w. refl)
at_upsert_user_device d (member o a) = (λ s w. refl)
at_upsert_user_device d (granted a n) = (λ s w. refl)
at_upsert_user_device d (device imei) = (λ s w. refl)

pub apply_user-Asserts :
    (u : ℕ) (st : Text) → Asserts (has_status u (st == active_status)) (apply_user u st)
apply_user-Asserts u st = record { keeps = λ s w. apply_user-Inv w u st; at = at_apply_user u st }

pub upsert_membership-Asserts :
    (org u : ℕ) (role st : Text)
    → Asserts
        (is_member org u
          (some (record { owner = role == owner_role; active = st == active_status })))
        (upsert_membership org u role st)
upsert_membership-Asserts org u role st = record {
  keeps = λ s w. upsert_membership-Inv w org u role st;
  at = at_upsert_membership org u role st;
}

pub delete_membership-Asserts :
    (org u : ℕ) → Asserts (is_member org u none) (delete_membership org u)
delete_membership-Asserts org u = record {
  keeps = λ s w. delete_membership-Inv w org u;
  at = at_delete_membership org u;
}

pub upsert_user_unit-Asserts :
    (org u n : ℕ) → Asserts (has_grant u n (some org)) (upsert_user_unit org u n)
upsert_user_unit-Asserts org u n = record {
  keeps = λ s w. upsert_user_unit-Inv w org u n;
  at = at_upsert_user_unit org u n;
}

pub delete_user_unit-Asserts : (u n : ℕ) → Asserts (has_grant u n none) (delete_user_unit u n)
delete_user_unit-Asserts u n = record {
  keeps = λ s w. delete_user_unit-Inv w u n;
  at = at_delete_user_unit u n;
}

pub upsert_unit_device-Asserts :
    (imei : Text) (unit org : ℕ)
    → Asserts (is_assigned imei (some (unit, org))) (upsert_unit_device imei unit org)
upsert_unit_device-Asserts imei unit org = record {
  keeps = λ s w. upsert_unit_device-Inv w imei unit org;
  at = at_upsert_unit_device imei unit org;
}

pub delete_unit_device-Asserts :
    (imei : Text) → Asserts (is_assigned imei none) (delete_unit_device imei)
delete_unit_device-Asserts imei = record {
  keeps = λ s w. delete_unit_device-Inv w imei;
  at = at_delete_unit_device imei;
}

pub upsert_user_device-Asserts : (d : UserDevice) → Asserts (registers d) (upsert_user_device d)
upsert_user_device-Asserts d = record {
  keeps = λ s w. upsert_user_device-Inv w d;
  at = at_upsert_user_device d;
}

pub deactivate_device-Asserts : (id : ℕ) → Asserts (forgets id) (λ s. (deactivate_device id s).1)
deactivate_device-Asserts id = record {
  keeps = λ s w. deactivate_device-Inv w id;
  at = at_deactivate_device id;
}
