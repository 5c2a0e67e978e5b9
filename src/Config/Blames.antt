-- ===== src/Config/Blames.antt =====
-- What an error of the configuration says of the environment.
use alert_distributor.Base.{
  ℕ, ◌≤◌, ◌≡◌, refl, subst, Bool, true, false, List, [], ◌∷◌, contains, nat_eq, list_eq, ◌==◌,
  if◌then◌else◌, unwrap_or, Option, none, some, arith, leb, Option-cases, Bool-cases, inl, inr,
}
use alert_distributor.Errors.{
  AppError, AppResult, err, ok_or, missing_env_var, invalid_env_var, ok, bind_errs, bind_errs_ok,
  ok-err, ok_or-ok, ◌>>=◌,
}
use alert_distributor.Text.{Text, text}
use alert_distributor.Config.Number.{parse_unsigned, parse_digits, parse_bool}
use alert_distributor.Config.{
  get_required_var, required_texts, optional_or, required_number, optional_number, check_heartbeat,
  from_env,
}

-- The variables that have no default.
abbrev pub required_names : List Text
required_names =
    text "DB_PORT"
    ∷ text "WS_CHANNEL_CAPACITY"
    ∷ text "JWT_PUBLIC_KEY_PEM"
    ∷ text "DB_HOST"
    ∷ text "DB_USER"
    ∷ text "DB_PASSWORD"
    ∷ text "DB_NAME"
    ∷ text "KAFKA_BROKERS"
    ∷ text "KAFKA_TOPIC"
    ∷ text "KAFKA_GROUP_ID"
    ∷ text "RUST_LOG"
    ∷ text "KAFKA_SASL_MECHANISM"
    ∷ text "KAFKA_USERNAME"
    ∷ text "KAFKA_PASSWORD"
    ∷ text "KAFKA_SECURITY_PROTOCOL"
    ∷ text "WS_BIND_ADDR"
    ∷ []

-- The variables that are numbers, by their width in bits.
abbrev pub names_of_width : ℕ → List Text
names_of_width bits =
    if bits == 16
    then text "DB_PORT" ∷ []
    else if bits == 32
    then text "SNS_RETRY_COUNT" ∷ []
    else if bits == 64
    then text "WS_CHANNEL_CAPACITY"
      ∷ text "WS_HEARTBEAT_INTERVAL_SECS"
      ∷ text "WS_HEARTBEAT_TIMEOUT_SECS"
      ∷ text "SNS_BATCH_TIMEOUT_MS"
      ∷ []
    else []

module _ (env : Text → Option Text) where
  -- The variable has no default and is missing, or its value is no number of its width or no
  -- Boolean, or the heartbeats as the environment has them are the wrong way round.
  pub data Blames : AppError → Type 0 where
    is_missing :
        (name : Text)
        → contains name required_names ≡ true
        → env name ≡ none
        → Blames (missing_env_var name)
    no_number :
        (name value : Text) (bits : ℕ)
        → contains name (names_of_width bits) ≡ true
        → env name ≡ some value
        → parse_unsigned bits value ≡ none
        → Blames (invalid_env_var name)
    no_bool :
        (value : Text)
        → env (text "SNS_ENABLED") ≡ some value
        → parse_bool value ≡ none
        → Blames (invalid_env_var (text "SNS_ENABLED"))
    too_short :
        (interval timeout : ℕ)
        → parse_unsigned 64 (unwrap_or (env (text "WS_HEARTBEAT_INTERVAL_SECS")) (text "30"))
          ≡ some interval
        → parse_unsigned 64 (unwrap_or (env (text "WS_HEARTBEAT_TIMEOUT_SECS")) (text "60"))
          ≡ some timeout
        → timeout ≤ interval
        → Blames (invalid_env_var (text "WS_HEARTBEAT_TIMEOUT_SECS"))

  required_var-Blames :
      (name : Text) (x : AppError)
      → contains name required_names ≡ true
      → get_required_var env name ≡ err x
      → Blames x
  unfolding get_required_var
  required_var-Blames name x r h = elim (Option-cases (env name)) [
    | inl e ↦ subst Blames (ground (arith, e)) (is_missing name r e)
    | inr (value, e) ↦ absurd (ground (arith, e))
  ]

  required_number-Blames :
      (name : Text) (bits : ℕ) (x : AppError)
      → contains name required_names ≡ true
      → contains name (names_of_width bits) ≡ true
      → required_number env name bits ≡ err x
      → Blames x
  unfolding required_number get_required_var
  required_number-Blames name bits x r w h = elim (Option-cases (env name)) [
    | inl e ↦ subst Blames (ground (arith, e)) (is_missing name r e)
    | inr (value, e) ↦ elim (Option-cases (parse_unsigned bits value)) [
      | inl p ↦ subst Blames (ground (arith, e, p)) (no_number name value bits w e p)
      | inr (n, p) ↦ absurd (ground (arith, e, p))
    ]
  ]

  -- The default is a number.
  optional_number-Blames :
      (name default : Text) (bits : ℕ) {n : ℕ} (x : AppError)
      → contains name (names_of_width bits) ≡ true
      → parse_unsigned bits default ≡ some n
      → optional_number env name default bits ≡ err x
      → Blames x
  unfolding optional_number
  optional_number-Blames name default bits x w good h = elim (Option-cases (env name)) [
    | inl e ↦ absurd (ground (arith, e, good))
    | inr (value, e) ↦ elim (Option-cases (parse_unsigned bits value)) [
      | inl p ↦ subst Blames (ground (arith, e, p)) (no_number name value bits w e p)
      | inr (n, p) ↦ absurd (ground (arith, e, p))
    ]
  ]

  enabled-Blames :
      (default : Text) {b : Bool} (x : AppError)
      → parse_bool default ≡ some b
      → ok_or
          (parse_bool (optional_or env (text "SNS_ENABLED") default))
          (invalid_env_var (text "SNS_ENABLED"))
        ≡ err x
      → Blames x
  enabled-Blames default x good h = elim (Option-cases (env (text "SNS_ENABLED"))) [
    | inl e ↦ absurd (ground (arith, e, good))
    | inr (value, e) ↦ elim (Option-cases (parse_bool value)) [
      | inl p ↦ subst Blames (ground (arith, e, p)) (no_bool value e p)
      | inr (b, p) ↦ absurd (ground (arith, e, p))
    ]
  ]

  -- An optional number that is read is that of its variable or its default.
  optional_number-ok :
      (name default : Text) (bits : ℕ) {n : ℕ}
      → optional_number env name default bits ≡ ok n
      → parse_unsigned bits (unwrap_or (env name) default) ≡ some n
  unfolding optional_number
  optional_number-ok name default bits h =
      ok_or-ok (parse_unsigned bits (optional_or env name default)) (invalid_env_var name) h

  heartbeat-Blames :
      (interval timeout : ℕ) (x : AppError)
      → optional_number env (text "WS_HEARTBEAT_INTERVAL_SECS") (text "30") 64 ≡ ok interval
      → optional_number env (text "WS_HEARTBEAT_TIMEOUT_SECS") (text "60") 64 ≡ ok timeout
      → check_heartbeat env interval timeout ≡ err x
      → Blames x
  unfolding check_heartbeat
  heartbeat-Blames interval timeout x i t h = elim (Bool-cases (leb timeout interval)) [
    | inl e ↦ subst Blames (ground (arith, e)) (
        too_short interval timeout (optional_number-ok _ (text "30") 64 i)
          (optional_number-ok _ (text "60") 64 t) (ground (arith, e)))
    | inr e ↦ absurd (ground (arith, e))
  ]

  -- Asking for a variable, and then for the rest.
  needed :
      {B : Type 0} (name : Text) (f : Text → AppResult B)
      → contains name required_names ≡ true
      → ((value : Text) (x : AppError) → f value ≡ err x → Blames x)
      → (x : AppError) → (get_required_var env name >>= f) ≡ err x
      → Blames x
  needed name f r = bind_errs (get_required_var env name) f (λ x. required_var-Blames name x r)

  required_texts-Blames : (x : AppError) → required_texts env ≡ err x → Blames x
  unfolding required_texts contains
  required_texts-Blames = needed (text "DB_HOST") _ refl λ _. needed (text "DB_USER") _ refl λ _.
      needed (text "DB_PASSWORD") _ refl λ _. needed (text "DB_NAME") _ refl λ _.
        needed (text "KAFKA_BROKERS") _ refl λ _. needed (text "KAFKA_TOPIC") _ refl λ _.
          needed (text "KAFKA_GROUP_ID") _ refl λ _. needed (text "RUST_LOG") _ refl λ _.
            needed (text "KAFKA_SASL_MECHANISM") _ refl λ _.
              needed (text "KAFKA_USERNAME") _ refl λ _. needed (text "KAFKA_PASSWORD") _ refl λ _.
                needed (text "KAFKA_SECURITY_PROTOCOL") _ refl
                  λ _. needed (text "WS_BIND_ADDR") _ refl λ _. λ x e. ok-err e

  -- An error of `from_env` names a variable without default that is missing from the environment,
  -- or a number whose value is no unsigned integer of its own width, or SNS_ENABLED whose value is
  -- no Boolean, or WS_HEARTBEAT_TIMEOUT_SECS where the timeout in the environment (60 when missing)
  -- is not longer than the interval in it (30 when missing); the defaults never cause one.
  pub from_env-Blames : (x : AppError) → from_env env ≡ err x → Blames x
  unfolding from_env parse_unsigned parse_digits parse_bool contains
  from_env-Blames =
      bind_errs (required_number env (text "DB_PORT") 16) _
        (λ x. required_number-Blames _ 16 x refl refl)
        λ _.
          bind_errs (required_number env (text "WS_CHANNEL_CAPACITY") 64) _
            (λ x. required_number-Blames _ 64 x refl refl)
            λ _.
              bind_errs_ok (optional_number env (text "WS_HEARTBEAT_INTERVAL_SECS") (text "30") 64)
                _ (λ x. optional_number-Blames _ (text "30") 64 {n = 30} x refl refl)
                λ interval i.
                  bind_errs_ok
                    (optional_number env (text "WS_HEARTBEAT_TIMEOUT_SECS") (text "60") 64) _
                    (λ x. optional_number-Blames _ (text "60") 64 {n = 60} x refl refl)
                    λ timeout t.
                      bind_errs (check_heartbeat env interval timeout) _
                        (λ x. heartbeat-Blames interval timeout x i t)
                        λ _. needed (text "JWT_PUBLIC_KEY_PEM") _ refl λ _.
                          bind_errs
                            (ok_or
                              (parse_bool (optional_or env (text "SNS_ENABLED") (text "false")))
                              (invalid_env_var (text "SNS_ENABLED")))
                            _ (λ x. enabled-Blames (text "false") {b = false} x refl)
                            λ _.
                              bind_errs (optional_number env (text "SNS_RETRY_COUNT") (text "3") 32)
                                _ (λ x. optional_number-Blames _ (text "3") 32 {n = 3} x refl refl)
                                λ _.
                                  bind_errs
                                    (optional_number env (text "SNS_BATCH_TIMEOUT_MS") (text "100")
                                      64)
                                    _
                                    (λ x.
                                      optional_number-Blames _ (text "100") 64 {n = 100} x refl
                                        refl)
                                    λ _.
                                      bind_errs (required_texts env) _ required_texts-Blames
                                        λ _ x e. ok-err e
