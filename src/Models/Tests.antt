-- ===== src/Models/Tests.antt =====
-- The tests of src/models/alert_event.rs.
use alert_distributor.Base.{ℕ, ◌≡◌, refl, some, [], map}
use alert_distributor.Text.{text, trim, contains_text, ascii_lower}
use alert_distributor.Models.AlertEvent.{
  AlertEvent, notification_title, notification_body, sns_notification_title, is_geofence_alert,
}
use alert_distributor.Models.AlertEvent.Titles.{shown, notification_texts}

abbrev sample : AlertEvent ℕ ℕ
sample = record {
  id = 1;
  organization_id = 2;
  unit_id = text "33333333-3333-3333-3333-333333333333";
  unit_name = some (text " Unidad 1 ");
  rule_id = 4;
  source_type = text "event";
  source_id = 5;
  alert_type = text "Ingreso a geocerca";
  alert_name = some (text "   ");
  payload = 0;
  occurred_at = 0;
}

blank_name :
    (notification_title sample ≡ text "Ingreso a geocerca")
    × (notification_body sample ≡ text "Unidad 1")
unfolding notification_title notification_body trim
blank_name = (refl, refl)

geofence_icon : sns_notification_title (map ascii_lower) sample ≡ text "📍 Ingreso a geocerca"
unfolding sns_notification_title is_geofence_alert notification_title trim contains_text
geofence_icon = refl

notification_texts_example :
    (notification_title sample ≡ shown sample.alert_name sample.alert_type)
    × (notification_body sample ≡ shown sample.unit_name [])
notification_texts_example = notification_texts sample
