-- ===== src/Sns/Dispatcher/Tests.antt =====
-- Whom an alert is pushed to, on the scene of the source's tests with a device of its owner.
use alert_distributor.Base.{◌≡◌, refl, true, [], ◌∷◌, nat_eq, list_eq}
use alert_distributor.Sns.Metrics.{zeroed}
use alert_distributor.Permissions.Cache.Write.{upsert_user_device}
use alert_distributor.Permissions.Fixtures.{scene, parse_uuid}
use alert_distributor.Websocket.Fixtures.{alert}
use alert_distributor.Sns.Dispatcher.Fixtures.{phone, with_phone, send}
use alert_distributor.Sns.Dispatcher.{
  dispatch_event, enqueue_targets, evaluate_users, evaluate_devices, evaluate_device, broadcast,
}
use alert_distributor.Sns.Publisher.{send_alert}
use alert_distributor.Permissions.Cache.{active_membership, unassign_device}
use alert_distributor.Permissions.Cache.Read.{users_for_unit, devices_for}
use alert_distributor.Permissions.Cache.Write.{
  upsert_membership, upsert_user_unit, upsert_unit_device,
}
use alert_distributor.HashMap.{get, insert, remove, insert_at}
use alert_distributor.Sort.{sort}
use alert_distributor.Text.{to_ascii_lowercase}
use alert_distributor.Text.Split.{split, next_back}
use alert_distributor.Sns.Models.{endpoint_channel, channel_of, endpoint_is_supported_for_platform}

pushed_to_the_owner :
    (dispatch_event send parse_uuid scene with_phone alert [] zeroed).0
    ≡ broadcast true ((phone, alert) ∷ [])
unfolding dispatch_event enqueue_targets evaluate_users evaluate_devices evaluate_device send_alert
    users_for_unit devices_for get insert remove sort upsert_user_unit upsert_membership
    upsert_unit_device upsert_user_device unassign_device insert_at active_membership
    endpoint_channel split next_back channel_of endpoint_is_supported_for_platform
    to_ascii_lowercase
pushed_to_the_owner = refl
