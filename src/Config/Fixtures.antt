-- ===== src/Config/Fixtures.antt =====
-- A whole environment and its configuration.
use alert_distributor.Base.{◌≡◌, refl, Option, [], ◌∷◌, nat_eq, list_eq, true}
use alert_distributor.HashMap.{HashMap, get}
use alert_distributor.Errors.{ok}
use alert_distributor.Text.{Text, text}
use alert_distributor.Config.Number.{parse_unsigned, parse_digits, parse_bool}
use alert_distributor.Config.{
  AppConfig, unescape, get_required_var, required_number, optional_number, check_heartbeat,
  from_env, required_texts,
}

abbrev pub variables : HashMap Text Text
variables =
    (text "DB_PORT", text "5432")
    ∷ (text "WS_CHANNEL_CAPACITY", text "64")
    ∷ (text "WS_HEARTBEAT_INTERVAL_SECS", text "+15")
    ∷ (text "JWT_PUBLIC_KEY_PEM", text "KEY\\nEND")
    ∷ (text "SNS_ENABLED", text "true")
    ∷ (text "DB_HOST", text "db")
    ∷ (text "DB_USER", text "reader")
    ∷ (text "DB_PASSWORD", text "secret")
    ∷ (text "DB_NAME", text "control")
    ∷ (text "KAFKA_BROKERS", text "kafka:9092")
    ∷ (text "KAFKA_TOPIC", text "alerts")
    ∷ (text "KAFKA_GROUP_ID", text "distributor")
    ∷ (text "RUST_LOG", text "info")
    ∷ (text "KAFKA_SASL_MECHANISM", text "PLAIN")
    ∷ (text "KAFKA_USERNAME", text "reader")
    ∷ (text "KAFKA_PASSWORD", text "secret")
    ∷ (text "KAFKA_SECURITY_PROTOCOL", text "SASL_SSL")
    ∷ (text "WS_BIND_ADDR", text "0.0.0.0:8080")
    ∷ []

abbrev pub env : Text → Option Text
env name = get name variables

abbrev pub config : AppConfig
config = record {
  db_host = text "db";
  db_user = text "reader";
  db_password = text "secret";
  db_port = 5432;
  db_name = text "control";
  kafka_brokers = text "kafka:9092";
  kafka_topic = text "alerts";
  kafka_group_id = text "distributor";
  kafka_control_plane_topic = text "control-plane-events";
  rust_log = text "info";
  kafka_sasl_mechanism = text "PLAIN";
  kafka_username = text "reader";
  kafka_password = text "secret";
  kafka_security_protocol = text "SASL_SSL";
  ws_bind_addr = text "0.0.0.0:8080";
  ws_channel_capacity = 64;
  ws_heartbeat_interval_secs = 15;
  ws_heartbeat_timeout_secs = 60;
  jwt_public_key_pem = text "KEY\nEND";
  aws_region = text "us-east-1";
  sns_enabled = true;
  sns_retry_count = 3;
  sns_batch_timeout_ms = 100;
}

pub accepted : from_env env ≡ ok config
unfolding from_env required_texts required_number optional_number check_heartbeat get_required_var
    unescape get parse_unsigned parse_digits parse_bool
accepted = refl
