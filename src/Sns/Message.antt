-- ===== src/Sns/Message.antt =====
-- src/sns/models.rs, `SnsMessage`: the JSON that SNS is given. Writing a value out is serde_json's
-- `to_string`, an argument.
pub mod Payload
mod Suite
use alert_distributor.Base.{
  ℕ, Bool, Option, none, some, List, [], ◌∷◌, ◌==◌, nat_eq, list_eq, if◌then◌else◌, and_then,
}
use alert_distributor.Text.{Text, text}

-- The values of serde_json that the source builds.
mutual
  pub data Json : Type 0 where
    string : Text → Json
    number : ℕ → Json
    object : Fields → Json

  pub data Fields : Type 0 where
    finish : Fields
    field : Text → Json → Fields → Fields

pub record SnsMessage : Type 0 where
  pub body : Text
  pub title : Text

-- `SnsMessage::new(title, body)`.
abbrev pub new_message : Text → Text → SnsMessage
new_message title body = record { body = body; title = title }

alert_fields : SnsMessage → Json
alert_fields m =
    object (field (text "title") (string m.title) (field (text "body") (string m.body) finish))

unfoldable pub apns_payload : SnsMessage → Json
unfolding alert_fields
apns_payload m = object (
    field (text "aps")
      (object (
        field (text "alert") (alert_fields m) (
          field (text "sound") (string (text "alert_default.caf"))
            (field (text "content-available") (number 1) finish))))
      finish)

android_fields : Json
android_fields = object (
    field (text "priority") (string (text "HIGH")) (
      field (text "notification")
        (object (
          field (text "sound") (string (text "alert_default.caf"))
            (field (text "click_action") (string (text "TOP_STORY_NOTIFICATION")) finish)))
        finish))

apns_fields : SnsMessage → Json
unfolding alert_fields
apns_fields m = object (
    field (text "headers") (object (field (text "apns-priority") (string (text "10")) finish)) (
      field (text "payload")
        (object (
          field (text "aps")
            (object (
              field (text "alert") (alert_fields m) (
                field (text "content-available") (number 1)
                  (field (text "sound") (string (text "alert_default.caf")) finish))))
            finish))
        finish))

unfoldable pub gcm_payload : SnsMessage → Json
unfolding alert_fields android_fields apns_fields
gcm_payload m = object (
    field (text "fcmV1Message")
      (object (
        field (text "message")
          (object (
            field (text "notification") (alert_fields m) (
              field (text "data")
                (object (
                  field (text "message") (string m.body)
                    (field (text "title") (string m.title) finish)))
                (field (text "android") android_fields
                  (field (text "apns") (apns_fields m) finish)))))
          finish))
      finish)

module _ (to_string : Json → Text) where
  unfoldable pub sns_payload : SnsMessage → Json
  sns_payload m = object (
      field (text "default") (string (text "alert")) (
        field (text "APNS") (string (to_string (apns_payload m))) (
          field (text "APNS_SANDBOX") (string (to_string (apns_payload m)))
            (field (text "GCM") (string (to_string (gcm_payload m))) finish))))

  unfoldable pub to_json_payload : SnsMessage → Text
  unfolding sns_payload
  to_json_payload m = to_string (sns_payload m)
