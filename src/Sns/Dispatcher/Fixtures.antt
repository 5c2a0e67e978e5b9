-- ===== src/Sns/Dispatcher/Fixtures.antt =====
-- A phone of the owner in the scene of the source's tests, and a queue that is the list of what was sent.
use alert_distributor.Base.{ℕ, true, Option, some, List, [], ◌∷◌, ◌++◌}
use alert_distributor.Text.{text}
use alert_distributor.Models.AlertEvent.{AlertEvent}
use alert_distributor.Sns.Models.{UserDevice}
use alert_distributor.Permissions.Cache.{State}
use alert_distributor.Permissions.Cache.Write.{upsert_user_device}
use alert_distributor.Permissions.Fixtures.{scene}

abbrev pub phone : UserDevice
phone = record {
  id = 41;
  user_id = 21;
  device_token = text "token";
  platform = text "ios";
  endpoint_arn = text "arn:aws:sns:us-east-1:1:endpoint/GCM/app/id";
  is_active = true;
}

-- The owner has registered a phone between the reading of the recipients and of their devices.
abbrev pub with_phone : ℕ → State
with_phone user = upsert_user_device phone scene

-- The channel is the list of what was sent.
abbrev pub send :
    UserDevice × AlertEvent ℕ ℕ
    → List (UserDevice × AlertEvent ℕ ℕ)
    → Option (List (UserDevice × AlertEvent ℕ ℕ))
send item sent = some (sent ++ item ∷ [])
