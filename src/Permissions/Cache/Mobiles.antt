-- ===== src/Permissions/Cache/Mobiles.antt =====
-- The mobile devices of each person, under `drop_device` and `push_device`.
use alert_distributor.Base.{
  ℕ, ◌≡◌, refl, Bool, true, not, none, List, [], ◌∷◌, ◌++◌, arith, nat_eq, nat_beq, ==_iff,
  if◌then◌else◌, unwrap_or, filter, is_empty,
}
use alert_distributor.HashMap.{HashMap, get, get-insert, IsMap, insert-IsMap}
use alert_distributor.Sns.Models.{UserDevice}
use alert_distributor.Permissions.Cache.Write.{drop_device, push_device}

-- `|d| d.id != id`
abbrev pub is_other : ℕ → UserDevice → Bool
is_other id d = not (nat_beq d.id id)

abbrev pub devices_of : ℕ → HashMap ℕ (List UserDevice) → List UserDevice
devices_of user m = unwrap_or (get user m) []

get-drop_device_absent :
    (user id : ℕ) (m : HashMap ℕ (List UserDevice))
    → get user m ≡ none
    → get user (drop_device id m) ≡ none
unfolding drop_device get
get-drop_device_absent user id [] h = refl
get-drop_device_absent user id ((u, ds) ∷ m) h = ground (arith, get-drop_device_absent user id m)

module _ (id : ℕ) where
  pub drop_device-IsMap : (m : HashMap ℕ (List UserDevice)) → IsMap m → IsMap (drop_device id m)
  unfolding drop_device
  drop_device-IsMap [] h = tt
  drop_device-IsMap ((u, ds) ∷ m) h =
      ground (arith, drop_device-IsMap m h.1, get-drop_device_absent u id m h.0)

  -- Everybody keeps the devices of other ids.
  pub devices_of-drop_device :
      (user : ℕ) (m : HashMap ℕ (List UserDevice))
      → IsMap m
      → devices_of user (drop_device id m) ≡ filter (is_other id) (devices_of user m)
  unfolding drop_device get
  devices_of-drop_device user [] h = refl
  devices_of-drop_device user ((u, ds) ∷ m) h = ground (
    arith,
    devices_of-drop_device user m h.1,
    get-drop_device_absent u id m h.0,
    is_empty_lem (filter (is_other id) ds),
    ==_iff u user,
  )
    where
      is_empty_lem : (l : List UserDevice) → is_empty l ≡ true → l ≡ []
      is_empty_lem [] e = refl
      is_empty_lem (x ∷ l) e = cc

pub push_device-IsMap :
    (d : UserDevice) (m : HashMap ℕ (List UserDevice)) → IsMap m → IsMap (push_device d m)
unfolding push_device
push_device-IsMap d m h = insert-IsMap d.user_id _ m h

pub devices_of-push_device :
    (d : UserDevice) (user : ℕ) (m : HashMap ℕ (List UserDevice))
    → devices_of user (push_device d m)
      ≡ (if nat_beq d.user_id user then devices_of user m ++ d ∷ [] else devices_of user m)
unfolding push_device
devices_of-push_device d user m =
    ground
      (arith, get-insert d.user_id user (devices_of d.user_id m ++ d ∷ []) m, ==_iff d.user_id user)
