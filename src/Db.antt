-- ===== src/Db.antt =====
-- src/db/postgres.rs and src/sns/db_update.rs: the pool of connections, and the one update that the
-- program makes. sqlx is an argument.
use alert_distributor.Base.{ℕ}
use alert_distributor.Text.{Text, text}
use alert_distributor.Errors.{AppResult, Attempt, map_err, database}
use alert_distributor.Config.{AppConfig}

pub record PgConnectOptions : Type 0 where
  pub host : Text
  pub port : ℕ
  pub username : Text
  pub password : Text
  pub database_name : Text

unfoldable pub connect_options : AppConfig → PgConnectOptions
connect_options config = record {
  host = config.db_host;
  port = config.db_port;
  username = config.db_user;
  password = config.db_password;
  database_name = config.db_name;
}

-- The most connections, and how to connect.
unfoldable pub connect_pool :
    {Pool : Type 0} → (ℕ → PgConnectOptions → Attempt Pool) → AppConfig → AppResult Pool
unfolding connect_options
connect_pool connect_with config = map_err database (connect_with 5 (connect_options config))

-- `execute` runs a query with one argument bound.
unfoldable pub mark_device_inactive :
    {Pool : Type 0} → (Text → ℕ → Pool → Attempt Pool) → Pool → ℕ → AppResult Pool
mark_device_inactive execute pool device_id =
    map_err database
      (execute (text "UPDATE user_devices SET is_active = false WHERE id = $1") device_id pool)
