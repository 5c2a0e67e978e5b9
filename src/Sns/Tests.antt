-- ===== src/Sns/Tests.antt =====
-- The tests of src/sns, and each theorem about it at an input.
use alert_distributor.Base.{
  ℕ, ◌≡◌, ◌≤◌, refl, true, false, none, some, List, [], ◌∷◌, nat_eq, list_eq, contains, length,
  nat_beq, if◌then◌else◌,
}
use alert_distributor.Sns.Message.{
  Json, object, field, SnsMessage, new_message, apns_payload, gcm_payload, sns_payload,
  to_json_payload,
}
use alert_distributor.Base.{Option, ◌==◌}
use alert_distributor.Sns.Message.Payload.{shown_on, alert_of, sns_payload_carries}
use alert_distributor.Text.{Text, text, to_ascii_lowercase, contains_text}
use alert_distributor.Text.Split.{split, next_back}
use alert_distributor.Sns.Models.{
  UserDevice, gcm, apns, endpoint_channel, channel_of, endpoint_is_supported_for_platform,
  invalid_endpoint, unknown_error, is_retryable,
}
use alert_distributor.Sns.Models.Channel.{endpoint_channel-arn}
use alert_distributor.Sns.Client.{
  PublishError, invalid_parameter, other, classify_publish_error, classify_sdk_error, Answer, sent,
  refused, transport_error, publish_loop, publish_to_endpoint, Result,
}
use alert_distributor.Sns.Client.Attempts.{Outcome, Doubles, publish_to_endpoint_returns}
use alert_distributor.Sns.Metrics.{zeroed}
use alert_distributor.Sns.Metrics.Windows.{
  publish, fail, report, lag, Totals, run_ops, AddsUp, run_ops-AddsUp,
}
use alert_distributor.Sns.Dispatcher.{evaluate_users, start_evaluation}
use alert_distributor.Sns.Dispatcher.Targets.{Evaluates, candidates, evaluate_users-Evaluates}
use alert_distributor.Permissions.Cache.{empty}
use alert_distributor.Permissions.Cache.Write.{upsert_user_device}

abbrev phone : UserDevice
phone = record {
  id = 41;
  user_id = 21;
  device_token = text "token";
  platform = text "iOS";
  endpoint_arn = text "arn:aws:sns:us-east-1:123456789012:endpoint/GCM/app/endpoint-id";
  is_active = true;
}

abbrev android : UserDevice
android = record phone {
  platform = text "android";
  endpoint_arn = text "arn:aws:sns:us-east-1:123456789012:endpoint/APNS/app/endpoint-id";
}

channel_from_arn : endpoint_channel phone ≡ gcm
unfolding endpoint_channel split next_back channel_of
channel_from_arn = refl

android_rejects_apns :
    (endpoint_channel android ≡ apns) × (endpoint_is_supported_for_platform android ≡ false)
unfolding endpoint_channel split next_back channel_of endpoint_is_supported_for_platform
    to_ascii_lowercase
android_rejects_apns = (refl, refl)

endpoint_channel-arn_example : endpoint_channel phone ≡ channel_of (text "GCM")
unfolding contains
endpoint_channel-arn_example =
    endpoint_channel-arn phone (text "arn:aws:sns:us-east-1:123456789012") (text "endpoint")
      (text "GCM") (text "app/endpoint-id") refl refl refl refl

abbrev no_endpoint : PublishError
no_endpoint = record {
  exception =
      invalid_parameter (some (text "Invalid parameter: TargetArn Reason: No endpoint found"));
  code = none;
  message = none;
}

missing_endpoint_is_invalid : classify_publish_error no_endpoint ≡ invalid_endpoint (text "?: ")
unfolding classify_publish_error contains_text to_ascii_lowercase
missing_endpoint_is_invalid = refl

unknown_keeps_code :
    classify_publish_error
      (record { exception = other; code = some (text "SomethingNew"); message = some (text "x") })
    ≡ unknown_error (text "SomethingNew: x")
unfolding classify_publish_error contains_text to_ascii_lowercase
unknown_keeps_code = refl

-- Two failures on the way, and then an answer.
abbrev third_time : ℕ → Answer ℕ
third_time retries =
    if nat_beq retries 2 then sent 7 else refused (transport_error (text "timeout"))

publish_to_endpoint_returns_example :
    (r : Result ℕ) × (delays : List ℕ) × (publish_to_endpoint third_time 3 ≡ some (r, delays))
    × Outcome third_time 3 0 r delays
    × Doubles third_time 3 100 delays
    × (length delays ≤ 3)
publish_to_endpoint_returns_example = publish_to_endpoint_returns third_time 3

waits : publish_to_endpoint third_time 3 ≡ some (Result.ok 7, 100 ∷ 200 ∷ [])
unfolding publish_to_endpoint publish_loop classify_sdk_error is_retryable
waits = refl

abbrev fresh_totals : Totals
fresh_totals = record {
  held = zeroed;
  logged_published = 0;
  logged_failed = 0;
  logged_lagged = 0;
  logged_resolved = 0;
  logged_enqueued = 0;
}

run_ops-AddsUp_example :
    AddsUp fresh_totals
      (run_ops (publish ∷ report ∷ lag 3 ∷ fail ∷ []) fresh_totals)
      (publish ∷ report ∷ lag 3 ∷ fail ∷ [])
run_ops-AddsUp_example = run_ops-AddsUp (publish ∷ report ∷ lag 3 ∷ fail ∷ []) fresh_totals

evaluate_users-Evaluates_example :
    Evaluates
      (start_evaluation zeroed)
      (candidates (λ user. upsert_user_device phone empty) ((1, 21) ∷ []))
      1
      (evaluate_users
        (λ user. upsert_user_device phone empty)
        ((1, 21) ∷ [])
        (start_evaluation zeroed))
evaluate_users-Evaluates_example =
    evaluate_users-Evaluates (λ user. upsert_user_device phone empty) ((1, 21) ∷ [])
      (start_evaluation zeroed)

abbrev shown_message : SnsMessage
shown_message = new_message (text "Ingreso") (text "Unidad 1")

-- A writer that keeps the first key, which tells the payloads of the message apart.
abbrev first_key : Json → Text
first_key (object (field key value rest)) = key
first_key _ = []

abbrev read_back : Text → Option Json
read_back s =
    if s == text "default"
    then some (sns_payload first_key shown_message)
    else if s == text "aps"
    then some (apns_payload shown_message)
    else if s == text "fcmV1Message"
    then some (gcm_payload shown_message)
    else none

sns_payload_carries_example :
    shown_on read_back gcm (to_json_payload first_key shown_message) ≡ some (alert_of shown_message)
unfolding sns_payload apns_payload gcm_payload
sns_payload_carries_example =
    sns_payload_carries first_key read_back shown_message gcm refl refl refl refl
