-- ===== src/Kafka/Settings.antt =====
-- The settings of the two consumers: `AlertsConsumer::new` in src/kafka/consumer.rs and
-- `prepare_control_plane_consumer` in src/kafka/control_plane.rs.
use alert_distributor.Base.{List, [], ◌∷◌, ◌++◌}
use alert_distributor.Text.{Text, text}
use alert_distributor.Config.{AppConfig}

abbrev pub Settings : Type 0
Settings = List (Text × Text)

unfoldable pub alerts_settings : AppConfig → Settings
alerts_settings config =
    (text "bootstrap.servers", config.kafka_brokers)
    ∷ (text "group.id", config.kafka_group_id)
    ∷ (text "enable.auto.commit", text "false")
    ∷ (text "auto.offset.reset", text "earliest")
    ∷ (text "security.protocol", config.kafka_security_protocol)
    ∷ (text "sasl.mechanism", config.kafka_sasl_mechanism)
    ∷ (text "sasl.username", config.kafka_username)
    ∷ (text "sasl.password", config.kafka_password)
    ∷ []

unfoldable pub control_plane_settings : AppConfig → Settings
control_plane_settings config =
    (text "bootstrap.servers", config.kafka_brokers)
    ∷ (text "group.id", config.kafka_group_id ++ text "-control-plane")
    ∷ (text "client.id", text "alert-distributor-control-plane")
    ∷ (text "enable.auto.commit", text "false")
    ∷ (text "security.protocol", config.kafka_security_protocol)
    ∷ (text "sasl.mechanism", config.kafka_sasl_mechanism)
    ∷ (text "sasl.username", config.kafka_username)
    ∷ (text "sasl.password", config.kafka_password)
    ∷ []
