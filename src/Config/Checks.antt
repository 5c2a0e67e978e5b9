-- ===== src/Config/Checks.antt =====
-- What a configuration that is accepted satisfies.
use alert_distributor.Base.{ℕ, ◌^◌, ◌<◌, ◌≡◌, subst, Option, some, arith, leb, Bool-cases, inl, inr}
use alert_distributor.Errors.{
  ok, ok_or, missing_env_var, invalid_env_var, bind_ok, bind_gives, ok_or-ok, ok_injective,
}
use alert_distributor.Text.{Text, text}
use alert_distributor.Config.Number.{parse_unsigned, parse_bool, parse_unsigned-bound}
use alert_distributor.Config.{
  AppConfig, get_required_var, required_texts, optional_or, required_number, optional_number,
  check_heartbeat, from_env,
}

module _ (env : Text → Option Text) where
  -- The number is what the variable says, or the default, and fits.
  pub record Reads (value : Text) (bits n : ℕ) : Type 0 where
    pub parsed : parse_unsigned bits value ≡ some n
    pub fits : n < 2 ^ bits

  optional_number-Reads :
      (name default : Text) (bits : ℕ) {n : ℕ}
      → 0 < 2 ^ bits
      → optional_number env name default bits ≡ ok n
      → Reads (optional_or env name default) bits n
  unfolding optional_number
  optional_number-Reads name default bits h e =
      let p = ok_or-ok (parse_unsigned bits (optional_or env name default)) _ e in
      record { parsed = p; fits = parse_unsigned-bound bits _ h p }

  required_number-Reads :
      (name : Text) (bits : ℕ) {n : ℕ}
      → 0 < 2 ^ bits
      → required_number env name bits ≡ ok n
      → (value : Text) × (env name ≡ some value) × Reads value bits n
  unfolding required_number get_required_var
  required_number-Reads name bits h e =
      let (value, v, e') = bind_ok (ok_or (env name) (missing_env_var name)) _ e in
      let p = ok_or-ok (parse_unsigned bits value) _ e' in
      (
        value,
        ok_or-ok (env name) _ v,
        record { parsed = p; fits = parse_unsigned-bound bits value h p },
      )

  check_heartbeat-less :
      (interval timeout : ℕ) {u : Unit {0}}
      → check_heartbeat env interval timeout ≡ ok u
      → interval < timeout
  unfolding check_heartbeat
  check_heartbeat-less interval timeout h = elim (Bool-cases (leb timeout interval)) [
    | inl e ↦ ground (arith, e)
    | inr e ↦ ground (arith, e)
  ]

  pub record IsChecked (c : AppConfig) : Type 0 where
    pub heartbeat : c.ws_heartbeat_interval_secs < c.ws_heartbeat_timeout_secs
    pub interval :
        Reads
          (optional_or env (text "WS_HEARTBEAT_INTERVAL_SECS") (text "30"))
          64
          c.ws_heartbeat_interval_secs
    pub timeout :
        Reads
          (optional_or env (text "WS_HEARTBEAT_TIMEOUT_SECS") (text "60"))
          64
          c.ws_heartbeat_timeout_secs
    pub retries : Reads (optional_or env (text "SNS_RETRY_COUNT") (text "3")) 32 c.sns_retry_count
    pub batch_timeout :
        Reads (optional_or env (text "SNS_BATCH_TIMEOUT_MS") (text "100")) 64 c.sns_batch_timeout_ms
    pub port : (value : Text) × (env (text "DB_PORT") ≡ some value) × Reads value 16 c.db_port
    pub capacity :
        (value : Text) × (env (text "WS_CHANNEL_CAPACITY") ≡ some value)
        × Reads value 64 c.ws_channel_capacity

  -- A configuration that `from_env` accepts has a heartbeat timeout longer than the heartbeat
  -- interval; its port, channel capacity, heartbeats, retry count and batch timeout are what their
  -- variables say (or the defaults 30, 60, 3 and 100, where a variable is optional and missing) and
  -- fit in 16, 64, 64, 32 and 64 bits.
  pub from_env-IsChecked : (c : AppConfig) → from_env env ≡ ok c → IsChecked c
  unfolding from_env
  from_env-IsChecked = bind_gives (required_number env (text "DB_PORT") 16) _ λ port p.
      bind_gives (required_number env (text "WS_CHANNEL_CAPACITY") 64) _ λ capacity q.
        bind_gives (optional_number env (text "WS_HEARTBEAT_INTERVAL_SECS") (text "30") 64) _
          λ interval i.
            bind_gives (optional_number env (text "WS_HEARTBEAT_TIMEOUT_SECS") (text "60") 64) _
              λ timeout t. bind_gives (check_heartbeat env interval timeout) _ λ checked less.
                bind_gives (get_required_var env (text "JWT_PUBLIC_KEY_PEM")) _ λ pem _.
                  bind_gives
                    (ok_or (parse_bool (optional_or env (text "SNS_ENABLED") (text "false")))
                      (invalid_env_var (text "SNS_ENABLED")))
                    _
                    λ enabled _.
                      bind_gives (optional_number env (text "SNS_RETRY_COUNT") (text "3") 32) _
                        λ retries r.
                          bind_gives
                            (optional_number env (text "SNS_BATCH_TIMEOUT_MS") (text "100") 64) _
                            λ batch b. bind_gives (required_texts env) _ λ texts _ c e.
                              subst IsChecked (ok_injective e) (record {
                                heartbeat = check_heartbeat-less interval timeout less;
                                interval = optional_number-Reads _ _ 64 (omega arith) i;
                                timeout = optional_number-Reads _ _ 64 (omega arith) t;
                                retries = optional_number-Reads _ _ 32 (omega arith) r;
                                batch_timeout = optional_number-Reads _ _ 64 (omega arith) b;
                                port = required_number-Reads _ 16 (omega arith) p;
                                capacity = required_number-Reads _ 64 (omega arith) q;
                              })
