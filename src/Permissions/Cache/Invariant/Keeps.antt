-- ===== src/Permissions/Cache/Invariant/Keeps.antt =====
-- Every method that writes keeps the invariant.
use alert_distributor.Base.{
  ℕ, ◌+◌, ◌≡◌, refl, none, arith, nat_eq, list_eq, pair_eq, ==_refl, unwrap_or,
}
use alert_distributor.HashMap.{
  get, get₂, get-remove, get-insert, get₂-insert_at, get₂-remove_at, insert_at-AreMaps,
  remove_at-AreMaps, remove-IsMap, insert-IsMap,
}
use alert_distributor.Text.{Text}
use alert_distributor.Sns.Models.{UserDevice}
use alert_distributor.Permissions.Cache.{State, empty}
use alert_distributor.Permissions.Cache.Release.{Unassigned, unassign_device-Unassigned}
use alert_distributor.Permissions.Cache.Invariant.{assigned, Inv}
use alert_distributor.Permissions.Cache.Invariant.Assigned.{assigned-remove, assigned-insert}
use alert_distributor.Permissions.Cache.Mobiles.{drop_device-IsMap, push_device-IsMap}
use alert_distributor.Permissions.Cache.Write.{
  drop_device, apply_user, upsert_membership, delete_membership, upsert_user_unit, delete_user_unit,
  assign_device, upsert_unit_device, delete_unit_device, upsert_user_device, deactivate_device,
}

pub empty-Inv : Inv empty
unfolding assigned get
empty-Inv = record {
  maps = record { members = λ o. tt; granted = λ u. tt; users = λ n. tt; units = λ o. tt };
  devices = tt;
  mobiles = tt;
  mirror = λ u n. refl;
  tally = λ o n. refl;
  located = λ n o e. cc;
}

module _ {s : State} (v : Inv s) where
  pub apply_user-Inv : (user : ℕ) (status : Text) → Inv (apply_user user status s)
  unfolding apply_user
  apply_user-Inv user status = record {
    maps = record {
      members = v.maps.members;
      granted = v.maps.granted;
      users = v.maps.users;
      units = v.maps.units;
    };
    devices = v.devices;
    mobiles = v.mobiles;
    mirror = v.mirror;
    tally = v.tally;
    located = v.located;
  }

  pub upsert_membership-Inv :
      (org user : ℕ) (role status : Text) → Inv (upsert_membership org user role status s)
  unfolding upsert_membership
  upsert_membership-Inv org user role status = record {
    maps = record {
      members = insert_at-AreMaps org user _ s.memberships v.maps.members;
      granted = v.maps.granted;
      users = v.maps.users;
      units = v.maps.units;
    };
    devices = v.devices;
    mobiles = v.mobiles;
    mirror = v.mirror;
    tally = v.tally;
    located = v.located;
  }

  pub delete_membership-Inv : (org user : ℕ) → Inv (delete_membership org user s)
  unfolding delete_membership
  delete_membership-Inv org user = record {
    maps = record {
      members = remove_at-AreMaps org user s.memberships v.maps.members;
      granted = v.maps.granted;
      users = v.maps.users;
      units = v.maps.units;
    };
    devices = v.devices;
    mobiles = v.mobiles;
    mirror = v.mirror;
    tally = v.tally;
    located = v.located;
  }

  pub upsert_user_unit-Inv : (org user unit : ℕ) → Inv (upsert_user_unit org user unit s)
  unfolding upsert_user_unit
  upsert_user_unit-Inv org user unit = record {
    maps = record {
      members = v.maps.members;
      granted = insert_at-AreMaps user unit org s.user_units v.maps.granted;
      users = insert_at-AreMaps unit user tt s.unit_users v.maps.users;
      units = v.maps.units;
    };
    devices = v.devices;
    mobiles = v.mobiles;
    mirror = λ u n. ground (
      arith,
      v.mirror u n,
      get₂-insert_at user u unit n org s.user_units,
      get₂-insert_at unit n user u tt s.unit_users,
    );
    tally = v.tally;
    located = v.located;
  }

  pub delete_user_unit-Inv : (user unit : ℕ) → Inv (delete_user_unit user unit s)
  unfolding delete_user_unit
  delete_user_unit-Inv user unit = record {
    maps = record {
      members = v.maps.members;
      granted = remove_at-AreMaps user unit s.user_units v.maps.granted;
      users = remove_at-AreMaps unit user s.unit_users v.maps.users;
      units = v.maps.units;
    };
    devices = v.devices;
    mobiles = v.mobiles;
    mirror = λ u n. ground (
      arith,
      v.mirror u n,
      get₂-remove_at user u unit n s.user_units,
      get₂-remove_at unit n user u s.unit_users,
    );
    tally = v.tally;
    located = v.located;
  }

  pub upsert_user_device-Inv : (d : UserDevice) → Inv (upsert_user_device d s)
  unfolding upsert_user_device
  upsert_user_device-Inv d = record {
    maps = record {
      members = v.maps.members;
      granted = v.maps.granted;
      users = v.maps.users;
      units = v.maps.units;
    };
    devices = v.devices;
    mobiles = ground (
      arith,
      drop_device-IsMap d.id s.user_devices v.mobiles,
      push_device-IsMap d (drop_device d.id s.user_devices),
    );
    mirror = v.mirror;
    tally = v.tally;
    located = v.located;
  }

  pub deactivate_device-Inv : (id : ℕ) → Inv (deactivate_device id s).1
  unfolding deactivate_device
  deactivate_device-Inv id = record {
    maps = record {
      members = v.maps.members;
      granted = v.maps.granted;
      users = v.maps.users;
      units = v.maps.units;
    };
    devices = v.devices;
    mobiles = drop_device-IsMap id s.user_devices v.mobiles;
    mirror = v.mirror;
    tally = v.tally;
    located = v.located;
  }

  module _ (imei : Text) {t : State} (u : Unassigned s imei t) where
    Unassigned-Inv : Inv t
    Unassigned-Inv = record {
      maps = record {
        members = rw u.same.memberships v.maps.members;
        granted = rw u.same.user_units v.maps.granted;
        users = rw u.same.unit_users v.maps.users;
        units = u.are_maps v.maps.units;
      };
      mobiles = rw u.same.user_devices v.mobiles;
      devices = rw u.unit_devices (remove-IsMap imei s.unit_devices v.devices);
      mirror = λ a n. rw (u.same.unit_users, u.same.user_units) (v.mirror a n);
      tally = λ org unit. ground (
        arith,
        u.unit_devices,
        u.units org unit,
        v.tally org unit,
        assigned-remove unit org imei s.unit_devices v.devices,
      );
      located = λ unit org e. ground (arith, u.units org unit, u.org unit, v.located unit org);
    }

  pub delete_unit_device-Inv : (imei : Text) → Inv (delete_unit_device imei s)
  unfolding delete_unit_device
  delete_unit_device-Inv imei = Unassigned-Inv imei (unassign_device-Unassigned s imei)

  pub assign_device-Inv :
      (imei : Text) (unit org : ℕ)
      → get imei s.unit_devices ≡ none
      → Inv (assign_device imei unit org s)
  unfolding assign_device
  assign_device-Inv imei unit org fresh = record {
    maps = record {
      members = v.maps.members;
      granted = v.maps.granted;
      users = v.maps.users;
      units = insert_at-AreMaps org unit _ s.units_by_org v.maps.units;
    };
    mobiles = v.mobiles;
    devices = insert-IsMap imei (unit, org) s.unit_devices v.devices;
    mirror = v.mirror;
    tally = λ o n. ground (
      arith,
      get₂-insert_at org o unit n (unwrap_or (get₂ org unit s.units_by_org) 0 + 1) s.units_by_org,
      assigned-insert n o imei (unit, org) s.unit_devices fresh,
      v.tally o n,
    );
    located = λ n o e. ground (
      arith,
      get₂-insert_at org o unit n (unwrap_or (get₂ org unit s.units_by_org) 0 + 1) s.units_by_org,
      get-insert unit n org s.unit_org,
      v.located n o,
    );
  }

pub upsert_unit_device-Inv :
    {s : State} → Inv s → (imei : Text) (unit org : ℕ) → Inv (upsert_unit_device imei unit org s)
unfolding upsert_unit_device
upsert_unit_device-Inv {s} v imei unit org =
    let u = unassign_device-Unassigned s imei in
    assign_device-Inv (Unassigned-Inv v imei u) imei unit org
      (ground (arith, u.unit_devices, get-remove imei imei s.unit_devices, ==_refl imei))
