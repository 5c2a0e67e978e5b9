-- ===== src/Permissions/Tests.antt =====
-- The tests of src/permissions/cache.rs on its scene, and each theorem at an input.
use alert_distributor.Base.{
  ℕ, ◌≡◌, ◌≢◌, refl, true, false, none, [], ◌∷◌, arith, nat_eq, list_eq, pair_eq, contains,
}
use alert_distributor.Base.{some}
use alert_distributor.Text.{strip_prefix}
use alert_distributor.Websocket.Auth.{validate_bearer}
use alert_distributor.Websocket.Handler.{ws_handler}
use alert_distributor.Websocket.Handler.Access.{Grants, ws_handler-entitled}
use alert_distributor.HashMap.{get, get₂, remove, insert, insert_at, put_or_prune}
use alert_distributor.Sort.{nat_ord, pair_ord, sort}
use alert_distributor.Text.{text}
use alert_distributor.Permissions.Cache.{State, active_membership, unassign_device}
use alert_distributor.Permissions.Cache.Read.{users_for_unit, units_for}
use alert_distributor.Permissions.Cache.Write.{
  upsert_membership, upsert_user_unit, upsert_unit_device, delete_unit_device,
}
use alert_distributor.Permissions.Cache.Invariant.{Inv, assigned}
use alert_distributor.Permissions.Cache.Invariant.Keeps.{
  upsert_membership-Inv, upsert_unit_device-Inv,
}
use alert_distributor.Permissions.Cache.Rule.{
  IsLocated, GrantsAgree, entitled, users_for_unit-entitled, units_for-users_for_unit,
  upsert_unit_device-IsLocated,
}
use alert_distributor.Permissions.Cache.Facts.{user, member, granted, device, mobile, fact}
use alert_distributor.Permissions.Cache.Determined.{SameFacts, users_for_unit-same}
use alert_distributor.Permissions.Cache.Divergence.{
  delete_unit_device_orphans, stale_grant_diverges,
}
use alert_distributor.Permissions.Fixtures.{
  owner, role_member, active, scene, scene-Inv, scene-IsLocated, parse_uuid, decode, header, person,
}

owner_sees_all : users_for_unit scene 11 ≡ (1, 21) ∷ (1, 22) ∷ []
unfolding users_for_unit get insert remove sort upsert_user_unit upsert_membership
    upsert_unit_device unassign_device insert_at active_membership
owner_sees_all = refl

member_sees_grants : (units_for scene 1 21 ≡ 11 ∷ 12 ∷ []) × (units_for scene 1 22 ≡ 11 ∷ [])
unfolding units_for get insert remove sort upsert_user_unit upsert_membership upsert_unit_device
    unassign_device insert_at active_membership
member_sees_grants = (refl, refl)

paused_member_sees_nothing :
    units_for (upsert_membership 1 22 role_member (text "INACTIVE") scene) 1 22 ≡ []
unfolding units_for get insert remove sort upsert_user_unit upsert_membership upsert_unit_device
    unassign_device insert_at active_membership
paused_member_sees_nothing = refl

moved_device :
    (users_for_unit (upsert_unit_device (text "222") 13 2 scene) 12 ≡ [])
    × (units_for (upsert_unit_device (text "222") 13 2 scene) 1 21 ≡ 11 ∷ [])
unfolding users_for_unit units_for get insert remove sort upsert_user_unit upsert_membership
    upsert_unit_device unassign_device insert_at active_membership put_or_prune
moved_device = (refl, refl)

scene-GrantsAgree : GrantsAgree scene
unfolding get insert remove upsert_user_unit upsert_membership upsert_unit_device unassign_device
    insert_at
scene-GrantsAgree = record { agree = λ user unit granted_in org e h. ground arith }

users_for_unit-entitled_example :
    contains {A = ℕ × ℕ} (1, 22) (users_for_unit scene 11) ≡ entitled scene 1 22 11
users_for_unit-entitled_example = users_for_unit-entitled scene 11 1 22 scene-Inv scene-IsLocated

units_for-users_for_unit_example :
    contains 11 (units_for scene 1 22) ≡ contains {A = ℕ × ℕ} (1, 22) (users_for_unit scene 11)
units_for-users_for_unit_example =
    units_for-users_for_unit scene 1 22 11 scene-Inv scene-IsLocated scene-GrantsAgree

-- The event of the owner comes again, and the maps are in another order.
abbrev again : State
again = upsert_membership 1 21 owner active scene

again-SameFacts : SameFacts again scene
unfolding fact get insert remove upsert_user_unit upsert_membership upsert_unit_device
    unassign_device insert_at
again-SameFacts (user u) = refl
again-SameFacts (member org u) = ground arith
again-SameFacts (granted u unit) = refl
again-SameFacts (device imei) = refl
again-SameFacts (mobile u id) = refl

again-IsLocated : IsLocated again
unfolding upsert_membership
again-IsLocated = record { home = scene-IsLocated.home }

users_for_unit-same_example : users_for_unit again 11 ≡ users_for_unit scene 11
users_for_unit-same_example =
    users_for_unit-same again scene again-SameFacts 11
      (upsert_membership-Inv scene-Inv 1 21 owner active) scene-Inv again-IsLocated scene-IsLocated

sole_org : (o : ℕ) → o ≢ 1 → get₂ o 12 (unassign_device scene (text "333")).units_by_org ≡ none
unfolding get insert remove upsert_user_unit upsert_membership upsert_unit_device unassign_device
    insert_at
sole_org o h = ground arith

upsert_unit_device-IsLocated_example : IsLocated (upsert_unit_device (text "333") 12 1 scene)
upsert_unit_device-IsLocated_example =
    upsert_unit_device-IsLocated scene (text "333") 12 1 scene-Inv scene-IsLocated sole_org

-- Unit 11 keeps a device of organization 1 while another names organization 2, of owner 31.
abbrev split_unit : State
split_unit = upsert_membership 2 31 owner active (upsert_unit_device (text "444") 11 2 scene)

split_unit-Inv : Inv split_unit
split_unit-Inv =
    upsert_membership-Inv (upsert_unit_device-Inv scene-Inv (text "444") 11 2) 2 31 owner active

delete_unit_device_orphans_example :
    (users_for_unit (delete_unit_device (text "111") split_unit) 11 ≡ [])
    × (contains 11 (units_for (delete_unit_device (text "111") split_unit) 2 31) ≡ true)
unfolding get insert remove upsert_user_unit upsert_membership upsert_unit_device unassign_device
    insert_at assigned active_membership
delete_unit_device_orphans_example =
    delete_unit_device_orphans split_unit (text "111") 11 1 2 31
      (record { owner = true; active = true }) split_unit-Inv refl refl (omega arith) (omega arith)
      refl refl

-- The grant of member 22 still names organization 1, and unit 11 has moved to organization 2.
abbrev stale : State
stale = upsert_membership 2 22 role_member active (upsert_unit_device (text "111") 11 2 scene)

stale-Inv : Inv stale
stale-Inv =
    upsert_membership-Inv (upsert_unit_device-Inv scene-Inv (text "111") 11 2) 2 22 role_member
      active

stale_grant_diverges_example :
    (contains {A = ℕ × ℕ} (2, 22) (users_for_unit stale 11) ≡ true)
    × (contains 11 (units_for stale 2 22) ≡ false)
unfolding get insert remove upsert_user_unit upsert_membership upsert_unit_device unassign_device
    insert_at active_membership put_or_prune
stale_grant_diverges_example =
    stale_grant_diverges stale 11 2 1 22 (record { owner = false; active = true }) stale-Inv refl
      refl refl refl (omega arith)

ws_handler-entitled_example :
    Grants decode parse_uuid (some header) scene person (11 ∷ [])
    × (contains {A = ℕ} 11 (11 ∷ []) ≡ entitled scene 1 22 11)
unfolding ws_handler validate_bearer strip_prefix units_for get insert remove sort upsert_user_unit
    upsert_membership upsert_unit_device unassign_device insert_at active_membership
ws_handler-entitled_example =
    ws_handler-entitled decode parse_uuid (some header) scene person (11 ∷ []) 11 scene-Inv
      scene-IsLocated scene-GrantsAgree refl
