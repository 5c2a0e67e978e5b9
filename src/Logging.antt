-- ===== src/Logging.antt =====
-- src/logging/mod.rs: the log. The filter of RUST_LOG and the subscriber are those of
-- tracing_subscriber.
use alert_distributor.Base.{Bool, true, false}
use alert_distributor.Errors.{AppResult, ◌>>=◌, Attempt, map_err, invalid_log_filter, logging_init}

pub record Subscriber (Filter : Type 0) : Type 0 where
  pub json : Bool
  pub env_filter : Filter
  pub current_span : Bool
  pub span_list : Bool

unfoldable pub init :
    {Filter : Type 0}
    → Attempt Filter
    → (Subscriber Filter → Attempt (Unit {0}))
    → AppResult (Unit {0})
init try_from_default_env try_init = do
  env_filter ← map_err invalid_log_filter try_from_default_env
  map_err logging_init (
      try_init
        (record { json = true; env_filter = env_filter; current_span = false; span_list = false }))
