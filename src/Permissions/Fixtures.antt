-- ===== src/Permissions/Fixtures.antt =====
-- The cache of the source's own tests, and a person who asks for a connection.
use alert_distributor.Base.{ℕ, none, nat_eq, list_eq, pair_eq}
use alert_distributor.Base.{Option, some, ◌==◌, if◌then◌else◌}
use alert_distributor.Errors.{AppResult, ok}
use alert_distributor.Websocket.Auth.{AuthContext, JwtClaims}
use alert_distributor.Sort.{nat_ord, pair_ord}
use alert_distributor.Text.{Text, text}
use alert_distributor.Permissions.Cache.{State, empty}
use alert_distributor.Permissions.Cache.Write.{
  upsert_membership, upsert_user_unit, upsert_unit_device,
}
use alert_distributor.Permissions.Cache.Invariant.{Inv}
use alert_distributor.Permissions.Cache.Rule.{IsLocated}
use alert_distributor.HashMap.{get, insert, remove, insert_at}
use alert_distributor.Permissions.Cache.{unassign_device}
use alert_distributor.Base.{arith}
use alert_distributor.Permissions.Cache.Invariant.Keeps.{
  empty-Inv, upsert_membership-Inv, upsert_user_unit-Inv, upsert_unit_device-Inv,
}

abbrev pub owner : Text
owner = text "owner"

abbrev pub role_member : Text
role_member = text "member"

abbrev pub active : Text
active = text "ACTIVE"

-- `escena()`: organization 1 has units 11 and 12, the owner 21, and the member 22 with a grant on 11.
abbrev pub scene : State
scene = upsert_user_unit 1 22 11 (
    upsert_membership 1 22 role_member active (
      upsert_membership 1 21 owner active
        (upsert_unit_device (text "222") 12 1 (upsert_unit_device (text "111") 11 1 empty))))

pub scene-Inv : Inv scene
scene-Inv =
    upsert_user_unit-Inv
      (upsert_membership-Inv
        (upsert_membership-Inv
          (upsert_unit_device-Inv (upsert_unit_device-Inv empty-Inv (text "111") 11 1) (text "222")
            12 1)
          1 21 owner active)
        1 22 role_member active)
      1 22 11

pub scene-IsLocated : IsLocated scene
unfolding get insert remove upsert_user_unit upsert_membership upsert_unit_device unassign_device
    insert_at
scene-IsLocated = record { home = λ unit org h. ground arith }

abbrev pub parse_uuid : Text → Option ℕ
parse_uuid s =
    if s == text "member"
    then some 22
    else if s == text "organization"
    then some 1
    else if s == text "unit-11"
    then some 11
    else none

abbrev pub decode : Text → AppResult JwtClaims
decode token = ok (record {
  sub = none;
  user_id = some token;
  organization_id = some (text "organization");
  exp = 5;
})

abbrev pub header : Text
header = text "Bearer member"

abbrev pub person : AuthContext
person = record { user_id = 22; organization_id = 1 }
