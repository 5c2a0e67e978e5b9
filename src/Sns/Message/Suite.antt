-- ===== src/Sns/Message/Suite.antt =====
-- The tests of src/sns/models.rs, as Booleans, over any `to_string` and `from_str` of serde_json of
-- which the second reads what the first writes.
use alert_distributor.Base.{
  ℕ, ◌≡◌, refl, Bool, true, false, not, ◌&&◌, Option, none, some, List, [], ◌∷◌, nat_eq, list_eq,
  ◌==◌, nat_beq, is_some, and_then,
}
use alert_distributor.Text.{Text, text, to_ascii_lowercase}
use alert_distributor.Text.Split.{split, next_back}
use alert_distributor.Sns.Models.{
  UserDevice, EndpointChannel, gcm, apns, endpoint_channel, channel_of,
  endpoint_is_supported_for_platform,
}
use alert_distributor.Sns.Message.{
  Json, string, number, new_message, apns_payload, gcm_payload, sns_payload, to_json_payload,
}
use alert_distributor.Sns.Message.Payload.{at}

abbrev says : Option Json → Text → Bool
says (some (string s)) wanted = s == wanted
says _ wanted = false

abbrev counts : Option Json → ℕ → Bool
counts (some (number n)) wanted = nat_beq n wanted
counts _ wanted = false

abbrev as_str : Option Json → Option Text
as_str (some (string s)) = some s
as_str _ = none

-- The values under `aps`, in both formats for APNs.
abbrev alert_path : List Text → List Text
alert_path rest =
    text "fcmV1Message" ∷ text "message" ∷ text "apns" ∷ text "payload" ∷ text "aps" ∷ rest

module _ (to_string : Json → Text) (from_str : Text → Option Json) where
  abbrev inner : Text → Option Json → Option Json
  inner key parsed = and_then (as_str (at (key ∷ []) parsed)) from_str

  abbrev sns_payload_format_is_correct : Bool
  sns_payload_format_is_correct =
      let payload =
        to_json_payload to_string
          (new_message (text "Ingreso a geocerca") (text "Camioneta Juan")) in
      let parsed = from_str payload in
      let message_obj = inner (text "GCM") parsed in
      let direct = inner (text "APNS") parsed in
      says (at (text "default" ∷ []) parsed) (text "alert")
      && is_some (at (text "APNS" ∷ []) parsed)
      && is_some (at (text "APNS_SANDBOX" ∷ []) parsed)
      && is_some (at (text "GCM" ∷ []) parsed)
      && says
          (at (text "fcmV1Message" ∷ text "message" ∷ text "notification" ∷ text "title" ∷ [])
            message_obj)
          (text "Ingreso a geocerca")
      && says
          (at (text "fcmV1Message" ∷ text "message" ∷ text "notification" ∷ text "body" ∷ [])
            message_obj)
          (text "Camioneta Juan")
      && says
          (at (text "fcmV1Message" ∷ text "message" ∷ text "android" ∷ text "priority" ∷ [])
            message_obj)
          (text "HIGH")
      && says
          (at
            (text "fcmV1Message"
              ∷ text "message"
              ∷ text "android"
              ∷ text "notification"
              ∷ text "sound"
              ∷ [])
            message_obj)
          (text "alert_default.caf")
      && says
          (at
            (text "fcmV1Message"
              ∷ text "message"
              ∷ text "apns"
              ∷ text "headers"
              ∷ text "apns-priority"
              ∷ [])
            message_obj)
          (text "10")
      && says (at (alert_path (text "alert" ∷ text "title" ∷ [])) message_obj)
          (text "Ingreso a geocerca")
      && says (at (alert_path (text "alert" ∷ text "body" ∷ [])) message_obj)
          (text "Camioneta Juan")
      && counts (at (alert_path (text "content-available" ∷ [])) message_obj) 1
      && says (at (alert_path (text "sound" ∷ [])) message_obj) (text "alert_default.caf")
      && says (at (text "aps" ∷ text "alert" ∷ text "title" ∷ []) direct)
          (text "Ingreso a geocerca")
      && says (at (text "aps" ∷ text "sound" ∷ []) direct) (text "alert_default.caf")
      && counts (at (text "aps" ∷ text "content-available" ∷ []) direct) 1

  abbrev sns_payload_handles_special_characters : Bool
  sns_payload_handles_special_characters =
      let payload =
        to_json_payload to_string
          (new_message (text "Alerta \"Crítica\"") (text "Línea 1\nLínea 2")) in
      let message_obj = inner (text "GCM") (from_str payload) in
      says
        (at (text "fcmV1Message" ∷ text "message" ∷ text "notification" ∷ text "title" ∷ [])
          message_obj)
        (text "Alerta \"Crítica\"")
      && says
          (at (text "fcmV1Message" ∷ text "message" ∷ text "notification" ∷ text "body" ∷ [])
            message_obj)
          (text "Línea 1\nLínea 2")
      && says (at (alert_path (text "alert" ∷ text "title" ∷ [])) message_obj)
          (text "Alerta \"Crítica\"")
      && says (at (alert_path (text "alert" ∷ text "body" ∷ [])) message_obj)
          (text "Línea 1\nLínea 2")

  payload_tests_pass :
      ((j : Json) → from_str (to_string j) ≡ some j)
      → (sns_payload_format_is_correct ≡ true) × (sns_payload_handles_special_characters ≡ true)
  unfolding to_json_payload sns_payload apns_payload gcm_payload
  payload_tests_pass law =
      let m = new_message (text "Ingreso a geocerca") (text "Camioneta Juan") in
      let n = new_message (text "Alerta \"Crítica\"") (text "Línea 1\nLínea 2") in
      (
        rw (law (sns_payload to_string m), law (gcm_payload m), law (apns_payload m)) refl,
        rw (law (sns_payload to_string n), law (gcm_payload n)) refl,
      )

abbrev device : Text → Text → UserDevice
device platform endpoint_arn = record {
  id = 1;
  user_id = 2;
  device_token = text "token";
  platform = platform;
  endpoint_arn = endpoint_arn;
  is_active = true;
}

abbrev is_gcm : EndpointChannel → Bool
is_gcm gcm = true
is_gcm _ = false

abbrev is_apns : EndpointChannel → Bool
is_apns apns = true
is_apns _ = false

abbrev endpoint_channel_is_detected_from_arn : Bool
endpoint_channel_is_detected_from_arn =
    let d =
      device (text "ios")
        (text "arn:aws:sns:us-east-1:123456789012:endpoint/GCM/app/endpoint-id") in
    is_gcm (endpoint_channel d) && endpoint_is_supported_for_platform d

abbrev android_device_rejects_apns_endpoint : Bool
android_device_rejects_apns_endpoint =
    let d =
      device (text "android")
        (text "arn:aws:sns:us-east-1:123456789012:endpoint/APNS/app/endpoint-id") in
    is_apns (endpoint_channel d) && not (endpoint_is_supported_for_platform d)

channel_tests_pass :
    (endpoint_channel_is_detected_from_arn ≡ true) × (android_device_rejects_apns_endpoint ≡ true)
unfolding endpoint_channel endpoint_is_supported_for_platform channel_of split to_ascii_lowercase
    next_back
channel_tests_pass = (refl, refl)
