-- ===== src/Models/Suite.antt =====
-- The tests of src/models/alert_event.rs on the texts, as Booleans. An event stands as it is parsed;
-- `str::to_lowercase` is that of ASCII.
use alert_distributor.Base.{
  ℕ, ◌≡◌, refl, Bool, true, ◌&&◌, none, some, [], map, nat_eq, list_eq, ◌==◌,
}
use alert_distributor.Text.{text, trim, contains_text, ascii_lower}
use alert_distributor.Models.AlertEvent.{
  AlertEvent, notification_title, notification_body, sns_notification_title, is_geofence_alert,
  is_ignition_alert, matches_alert_keyword,
}

-- `SAMPLE_EVENT`.
abbrev sample_event : AlertEvent (Unit {0}) ℕ
sample_event = record {
  id = 11;
  organization_id = 22;
  unit_id = text "33333333-3333-3333-3333-333333333333";
  unit_name = some (text "Unit Name");
  rule_id = 44;
  source_type = text "event";
  source_id = 55;
  alert_type = text "Engine OFF";
  alert_name = some (text "Engine is OFF");
  payload = tt;
  occurred_at = 1774817794;
}

abbrev notification_fields_use_preferred_values : Bool
notification_fields_use_preferred_values =
    notification_title sample_event == text "Engine is OFF"
    && notification_body sample_event == text "Unit Name"

abbrev fallback_event : AlertEvent (Unit {0}) ℕ
fallback_event = record sample_event { unit_name = none; alert_name = some (text "   ") }

abbrev notification_fields_use_fallbacks_when_empty_or_null : Bool
notification_fields_use_fallbacks_when_empty_or_null =
    notification_title fallback_event == text "Engine OFF" && notification_body fallback_event == []

abbrev geofence_event : AlertEvent (Unit {0}) ℕ
geofence_event = record sample_event {
  unit_name = some (text "Unidad 1");
  alert_type = text "Ingreso a geocerca";
  alert_name = some (text "Entrada geocerca");
}

abbrev sns_title_includes_geofence_emoji_for_geofence_alerts : Bool
sns_title_includes_geofence_emoji_for_geofence_alerts =
    sns_notification_title (map ascii_lower) geofence_event == text "📍 Entrada geocerca"

abbrev sns_title_includes_ignition_emoji_for_ignition_alerts : Bool
sns_title_includes_ignition_emoji_for_ignition_alerts =
    sns_notification_title (map ascii_lower) sample_event == text "⏻ Engine is OFF"

-- All pass.
pass :
    (notification_fields_use_preferred_values ≡ true)
    × (notification_fields_use_fallbacks_when_empty_or_null ≡ true)
    × (sns_title_includes_geofence_emoji_for_geofence_alerts ≡ true)
    × (sns_title_includes_ignition_emoji_for_ignition_alerts ≡ true)
unfolding notification_title notification_body sns_notification_title is_geofence_alert
    is_ignition_alert matches_alert_keyword trim contains_text
pass = (refl, refl, refl, refl)
