-- ===== src/Main.antt =====
-- src/main.rs, `main`: the start of the process, call by call, and how it ends. What the libraries
-- give is an argument; where the answer depends on the time, the time is that of the call.
pub mod Boots
pub mod Shared
pub mod CatchUp
pub mod Current
mod Tests
use alert_distributor.Base.{
  ℕ, ◌+◌, Bool, true, false, Option, none, some, List, [], ◌∷◌, if◌then◌else◌,
}
use alert_distributor.Text.{Text, text}
use alert_distributor.Errors.{
  AppError, AppResult, ok, err, ok_or, Attempt, done, failed, map_err, kafka, database,
  control_plane_unavailable,
}
use alert_distributor.Config.{AppConfig, from_env}
use alert_distributor.Logging.{Subscriber, init}
use alert_distributor.Db.{PgConnectOptions, connect_pool}
use alert_distributor.Permissions.Cache.{State}
use alert_distributor.Permissions.Loader.{Views, load_control_plane_snapshot}
use alert_distributor.Kafka.Settings.{Settings, alerts_settings, control_plane_settings}
use alert_distributor.Kafka.ControlPlane.Start.{
  TopicMetadata, Start, StartError, ready, kafka_error, prepare_control_plane_consumer,
}
use alert_distributor.Websocket.Auth.{JwtValidator, new_validator}
use alert_distributor.Sns.Client.{SnsClient, new_client}

-- What the libraries give. `metadata`, `high` and `views` are what the broker and the database
-- answer at a time.
pub record Outside : Type 1 where
  pub Filter : Type 0
  pub Pool : Type 0
  pub Client : Type 0
  pub DecodingKey : Type 0
  pub try_from_default_env : Attempt Filter
  pub try_init : Subscriber Filter → Attempt (Unit {0})
  pub env : Text → Option Text
  pub connect_with : ℕ → PgConnectOptions → Attempt Pool
  pub create : Settings → Attempt Client
  pub metadata : ℕ → Option (List TopicMetadata)
  pub high : ℕ → ℕ → Option ℕ
  pub start_detail : StartError → Text
  pub views : ℕ → Views
  pub query_detail : Text
  pub from_rsa_pem : Text → Attempt DecodingKey

-- A step of the start takes the time, and returns its result with the time behind it. An error ends
-- the start.
abbrev pub Boot : Type 0 → Type 0
Boot A = ℕ → AppResult A × ℕ

unfoldable pub then_boot : {A B : Type 0} → AppResult A × ℕ → (A → Boot B) → AppResult B × ℕ
then_boot (ok a, later) f = f a later
then_boot (err e, later) f = (err e, later)

infixl 5 ◌>>=◌
abbrev pub ◌>>=◌ : {A B : Type 0} → Boot A → (A → Boot B) → Boot B
(m >>= f) now = then_boot (m now) f

-- So many calls, the first at the present time. The time behind a failure is not looked at.
abbrev pub calls : {A : Type 0} → ℕ → (ℕ → AppResult A) → Boot A
calls n f now = (f now, now + n)

abbrev pub call : {A : Type 0} → (ℕ → AppResult A) → Boot A
call f = calls 1 f

abbrev pub succeeded : {A : Type 0} → Attempt A → Bool
succeeded (done a) = true
succeeded (failed detail) = false

-- The tasks and the state that they share at the start: the cache, where its reader starts, the
-- server's settings, and the worker when SNS is enabled, with its client and batch timeout.
pub record WsServerState (Key : Type 0) : Type 0 where
  pub jwt_validator : JwtValidator Key
  pub channel_capacity : ℕ
  pub heartbeat_interval : ℕ
  pub heartbeat_timeout : ℕ

module _ (outside : Outside) where
  open outside use {
    Filter, Pool, Client, DecodingKey, try_from_default_env, try_init, env, connect_with, create,
    metadata, high, start_detail, views, query_detail, from_rsa_pem,
  }

  pub record Started : Type 0 where
    pub config : AppConfig
    pub pool : Pool
    pub offsets : List (ℕ × ℕ)
    pub cache : State
    pub worker : Option (SnsClient × ℕ)
    pub ws_state : WsServerState DecodingKey
    pub consumer : Client

  start_result : {A : Type 0} → Start A → AppResult A
  start_result (ready a) = ok a
  start_result (Start.failed kafka_error) = err (kafka (start_detail kafka_error))
  start_result (Start.failed e) = err (control_plane_unavailable (start_detail e))

  unfoldable pub prepare : AppConfig → ℕ → AppResult (List (ℕ × ℕ))
  unfolding start_result
  prepare config now = start_result (
      prepare_control_plane_consumer config.kafka_control_plane_topic
        (succeeded (create (control_plane_settings config))) (metadata now) (high now))

  -- The loader's queries are no transaction: each sees its view at the time of its own call.
  abbrev pub queried : ℕ → Views
  queried now = record {
    users = (views now).users;
    organization_users = (views (now + 1)).organization_users;
    user_units = (views (now + 2)).user_units;
    unit_devices = (views (now + 3)).unit_devices;
    user_devices = (views (now + 4)).user_devices;
  }

  unfoldable pub snapshot : ℕ → AppResult State
  snapshot now = ok_or (load_control_plane_snapshot (queried now)) (database query_detail)

  unfoldable pub sns_client : AppConfig → AppResult (Option SnsClient)
  sns_client config = elim config.sns_enabled [
    | false ↦ ok none
    | true ↦ elim (new_client config) [ ok client ↦ ok (some client) | err e ↦ err e ]
  ]

  -- The worker is spawned when SNS is enabled and there is a client.
  unfoldable pub spawn_worker : AppConfig → Option SnsClient → Option (SnsClient × ℕ)
  spawn_worker config none = none
  spawn_worker config (some client) =
      if config.sns_enabled then some (client, config.sns_batch_timeout_ms) else none

  unfoldable pub boot : Boot Started
  boot = do
    log ← call (λ now. init try_from_default_env try_init)
    config ← call (λ now. from_env env)
    pool ← call (λ now. connect_pool connect_with config)
    offsets ← call (prepare config)
    cache ← calls 5 snapshot
    client ← calls (if config.sns_enabled then 1 else 0) (λ now. sns_client config)
    validator ← call (λ now. new_validator from_rsa_pem config)
    consumer ← call (λ now. map_err kafka (create (alerts_settings config)))
    λ now. (
      ok (record {
        config = config;
        pool = pool;
        offsets = offsets;
        cache = cache;
        worker = spawn_worker config client;
        ws_state = record {
          jwt_validator = validator;
          channel_capacity = config.ws_channel_capacity;
          heartbeat_interval = config.ws_heartbeat_interval_secs;
          heartbeat_timeout = config.ws_heartbeat_timeout_secs;
        };
        consumer = consumer;
      }),
      now,
    )

-- The branch of `select!` that ends the process: a task with its result, or the signal (`false`
-- when listening for it failed).
pub data Ended : Type 0 where
  control_plane_task consumer_run run_server : AppResult (Unit {0}) → Ended
  ctrl_c : Bool → Ended

unfoldable pub exit : Ended → AppResult (Unit {0})
exit (control_plane_task result) = result
exit (consumer_run (err e)) = err e
exit (consumer_run (ok result)) = ok tt
exit (run_server (err e)) = err e
exit (run_server (ok result)) = ok tt
exit (ctrl_c heard) = ok tt

unfoldable pub main : Outside → Ended → AppResult (Unit {0})
main outside ended = elim ((boot outside 0).0) [ err e ↦ err e | ok started ↦ exit ended ]
