-- ===== src/Models/AlertEvent.antt =====
-- src/models/alert_event.rs: an alert and the texts of its notifications.
pub mod Titles
use alert_distributor.Base.{
  ℕ, Bool, true, false, ◌||◌, Option, none, some, List, [], ◌∷◌, ◌++◌, if◌then◌else◌, is_empty,
  unwrap_or,
}
use alert_distributor.Text.{Text, text, trim, contains_text}

-- `payload` is a value of serde_json and `occurred_at` a time of chrono: only handed on.
pub record AlertEvent (Value Time : Type 0) : Type 0 where
  pub id : ℕ
  pub organization_id : ℕ
  pub unit_id : Text
  pub unit_name : Option Text
  pub rule_id : ℕ
  pub source_type : Text
  pub source_id : ℕ
  pub alert_type : Text
  pub alert_name : Option Text
  pub payload : Value
  pub occurred_at : Time

-- `.map(str::trim).filter(|value| !value.is_empty())`.
abbrev pub trimmed : Option Text → Option Text
trimmed none = none
trimmed (some s) = if is_empty (trim s) then none else some (trim s)

-- `keywords.iter().any(…)`.
abbrev pub any_contained : List Text → Text → Text → Bool
any_contained [] alert_type alert_name = false
any_contained (keyword ∷ keywords) alert_type alert_name =
    (contains_text keyword alert_type || contains_text keyword alert_name)
    || any_contained keywords alert_type alert_name

abbrev pub geofence_keywords : List Text
geofence_keywords = text "geocerca" ∷ text "geofence" ∷ []

abbrev pub ignition_keywords : List Text
ignition_keywords =
    text "ignicion" ∷ text "ignición" ∷ text "ignition" ∷ text "engine" ∷ text "motor" ∷ []

module _ {Value Time : Type 0} (event : AlertEvent Value Time) where
  unfoldable pub notification_title : Text
  notification_title = unwrap_or (trimmed event.alert_name) event.alert_type

  unfoldable pub notification_body : Text
  notification_body = unwrap_or (trimmed event.unit_name) []

-- `lower` is `str::to_lowercase`, which follows the tables of Unicode.
module _ {Value Time : Type 0} (lower : Text → Text) (event : AlertEvent Value Time) where
  unfoldable pub matches_alert_keyword : List Text → Bool
  matches_alert_keyword keywords =
      any_contained keywords (lower event.alert_type) (lower (unwrap_or event.alert_name []))

  unfoldable pub is_geofence_alert : Bool
  unfolding matches_alert_keyword
  is_geofence_alert = matches_alert_keyword geofence_keywords

  unfoldable pub is_ignition_alert : Bool
  unfolding matches_alert_keyword
  is_ignition_alert = matches_alert_keyword ignition_keywords

  unfoldable pub sns_notification_title : Text
  sns_notification_title =
      if is_geofence_alert
      then text "📍 " ++ notification_title event
      else if is_ignition_alert
      then text "⏻ " ++ notification_title event
      else notification_title event
