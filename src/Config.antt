-- ===== src/Config.antt =====
-- src/config/mod.rs: the configuration, from the variables of the environment.
pub mod Number
pub mod Checks
pub mod Blames
pub mod Decimal
pub mod Fixtures
mod Tests
use alert_distributor.Base.{
  ℕ, Bool, true, false, Option, none, some, List, [], ◌∷◌, nat_eq, list_eq, ◌==◌, leb,
  if◌then◌else◌, unwrap_or,
}
use alert_distributor.Errors.{AppResult, ok, err, ◌>>=◌, ok_or, missing_env_var, invalid_env_var}
use alert_distributor.Text.{Text, text}
use alert_distributor.Config.Number.{parse_unsigned, parse_bool}

pub record AppConfig : Type 0 where
  pub db_host : Text
  pub db_user : Text
  pub db_password : Text
  pub db_port : ℕ
  pub db_name : Text
  pub kafka_brokers : Text
  pub kafka_topic : Text
  pub kafka_group_id : Text
  pub kafka_control_plane_topic : Text
  pub rust_log : Text
  pub kafka_sasl_mechanism : Text
  pub kafka_username : Text
  pub kafka_password : Text
  pub kafka_security_protocol : Text
  pub ws_bind_addr : Text
  pub ws_channel_capacity : ℕ
  pub ws_heartbeat_interval_secs : ℕ
  pub ws_heartbeat_timeout_secs : ℕ
  pub jwt_public_key_pem : Text
  pub aws_region : Text
  pub sns_enabled : Bool
  pub sns_retry_count : ℕ
  pub sns_batch_timeout_ms : ℕ

pub record RequiredTexts : Type 0 where
  pub db_host : Text
  pub db_user : Text
  pub db_password : Text
  pub db_name : Text
  pub kafka_brokers : Text
  pub kafka_topic : Text
  pub kafka_group_id : Text
  pub rust_log : Text
  pub kafka_sasl_mechanism : Text
  pub kafka_username : Text
  pub kafka_password : Text
  pub kafka_security_protocol : Text
  pub ws_bind_addr : Text

-- `.replace("\\n", "\n")`: a backslash and an `n` make the end of a line.
unfoldable pub unescape : Text → Text
unescape [] = []
unescape (c ∷ []) = c ∷ []
unescape (c ∷ d ∷ s) =
    let rest = unescape s in
    let shifted = unescape (d ∷ s) in
    if c == 92 then if d == b'n' then 10 ∷ rest else c ∷ shifted else c ∷ shifted

-- `env::var`, with what is not Unicode left out.
module _ (env : Text → Option Text) where
  unfoldable pub get_required_var : Text → AppResult Text
  get_required_var name = ok_or (env name) (missing_env_var name)

  abbrev pub get_optional_var : Text → Option Text
  get_optional_var name = env name

  -- `get_optional_var(name).unwrap_or_else(|| default)`.
  abbrev pub optional_or : Text → Text → Text
  optional_or name default = unwrap_or (get_optional_var name) default

  unfoldable pub required_number : Text → ℕ → AppResult ℕ
  unfolding get_required_var
  required_number name bits = do
    value ← get_required_var name
    ok_or (parse_unsigned bits value) (invalid_env_var name)

  unfoldable pub optional_number : Text → Text → ℕ → AppResult ℕ
  optional_number name default bits =
      ok_or (parse_unsigned bits (optional_or name default)) (invalid_env_var name)

  unfoldable pub check_heartbeat : ℕ → ℕ → AppResult (Unit {0})
  check_heartbeat interval timeout =
      if leb timeout interval
      then err (invalid_env_var (text "WS_HEARTBEAT_TIMEOUT_SECS"))
      else ok tt

  -- The variables that the struct literal at the end asks for, in its order.
  unfoldable pub required_texts : AppResult RequiredTexts
  unfolding get_required_var
  required_texts = do
    db_host ← get_required_var (text "DB_HOST")
    db_user ← get_required_var (text "DB_USER")
    db_password ← get_required_var (text "DB_PASSWORD")
    db_name ← get_required_var (text "DB_NAME")
    kafka_brokers ← get_required_var (text "KAFKA_BROKERS")
    kafka_topic ← get_required_var (text "KAFKA_TOPIC")
    kafka_group_id ← get_required_var (text "KAFKA_GROUP_ID")
    rust_log ← get_required_var (text "RUST_LOG")
    kafka_sasl_mechanism ← get_required_var (text "KAFKA_SASL_MECHANISM")
    kafka_username ← get_required_var (text "KAFKA_USERNAME")
    kafka_password ← get_required_var (text "KAFKA_PASSWORD")
    kafka_security_protocol ← get_required_var (text "KAFKA_SECURITY_PROTOCOL")
    ws_bind_addr ← get_required_var (text "WS_BIND_ADDR")
    ok (record {
      db_host = db_host;
      db_user = db_user;
      db_password = db_password;
      db_name = db_name;
      kafka_brokers = kafka_brokers;
      kafka_topic = kafka_topic;
      kafka_group_id = kafka_group_id;
      rust_log = rust_log;
      kafka_sasl_mechanism = kafka_sasl_mechanism;
      kafka_username = kafka_username;
      kafka_password = kafka_password;
      kafka_security_protocol = kafka_security_protocol;
      ws_bind_addr = ws_bind_addr;
    })

  unfoldable pub from_env : AppResult AppConfig
  from_env = do
    db_port ← required_number (text "DB_PORT") 16
    ws_channel_capacity ← required_number (text "WS_CHANNEL_CAPACITY") 64
    interval ← optional_number (text "WS_HEARTBEAT_INTERVAL_SECS") (text "30") 64
    timeout ← optional_number (text "WS_HEARTBEAT_TIMEOUT_SECS") (text "60") 64
    checked ← check_heartbeat interval timeout
    jwt_public_key_pem ← get_required_var (text "JWT_PUBLIC_KEY_PEM")
    sns_enabled ←
        ok_or (parse_bool (optional_or (text "SNS_ENABLED") (text "false")))
          (invalid_env_var (text "SNS_ENABLED"))
    sns_retry_count ← optional_number (text "SNS_RETRY_COUNT") (text "3") 32
    sns_batch_timeout_ms ← optional_number (text "SNS_BATCH_TIMEOUT_MS") (text "100") 64
    texts ← required_texts
    ok (record {
      db_host = texts.db_host;
      db_user = texts.db_user;
      db_password = texts.db_password;
      db_port = db_port;
      db_name = texts.db_name;
      kafka_brokers = texts.kafka_brokers;
      kafka_topic = texts.kafka_topic;
      kafka_group_id = texts.kafka_group_id;
      kafka_control_plane_topic =
          optional_or (text "KAFKA_CONTROL_PLANE_TOPIC") (text "control-plane-events");
      rust_log = texts.rust_log;
      kafka_sasl_mechanism = texts.kafka_sasl_mechanism;
      kafka_username = texts.kafka_username;
      kafka_password = texts.kafka_password;
      kafka_security_protocol = texts.kafka_security_protocol;
      ws_bind_addr = texts.ws_bind_addr;
      ws_channel_capacity = ws_channel_capacity;
      ws_heartbeat_interval_secs = interval;
      ws_heartbeat_timeout_secs = timeout;
      jwt_public_key_pem = unescape jwt_public_key_pem;
      aws_region = optional_or (text "AWS_REGION") (text "us-east-1");
      sns_enabled = sns_enabled;
      sns_retry_count = sns_retry_count;
      sns_batch_timeout_ms = sns_batch_timeout_ms;
    })
