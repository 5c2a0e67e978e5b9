-- ===== src/Main/Boots.antt =====
-- What holds when the process has started, and which call an error at the start comes from.
use alert_distributor.Base.{
  ℕ, ◌+◌, ◌<◌, ◌≡◌, refl, ap, ◌∙◌, ◌⊎◌, inl, inr, Option, none, some, arith, Bool-cases,
  if◌then◌else◌, subst, subst₂, Option-cases,
}
use alert_distributor.Text.{Text}
use alert_distributor.Errors.{
  AppError, AppResult, ok, err, kafka, database, Attempt, done, failed, map_err, ok_or-ok,
  ok_injective,
}
use alert_distributor.Config.{AppConfig, from_env}
use alert_distributor.Config.Checks.{from_env-IsChecked}
use alert_distributor.Config.Blames.{Blames, from_env-Blames}
use alert_distributor.Logging.{init}
use alert_distributor.Db.{connect_pool}
use alert_distributor.Permissions.Loader.{load_control_plane_snapshot}
use alert_distributor.Kafka.Settings.{alerts_settings}
use alert_distributor.Websocket.Auth.{JwtValidator, new_validator}
use alert_distributor.Permissions.Cache.{State}
use alert_distributor.Base.{List}
use alert_distributor.Sns.Client.{SnsClient, new_client}
use alert_distributor.Main.{
  Outside, Boot, then_boot, ◌>>=◌, calls, queried, Started, prepare, snapshot, sns_client,
  spawn_worker, boot, Ended, control_plane_task, consumer_run, run_server, ctrl_c, exit, main,
}

AppResult-cases :
    {A : Type 0} (r : AppResult A) → ((a : A) × (r ≡ ok a)) ⊎ ((e : AppError) × (r ≡ err e))
AppResult-cases (ok a) = inl (a, refl)
AppResult-cases (err e) = inr (e, refl)

-- A start that succeeds does so with its first call, and then with the rest.
call_ok :
    {A B : Type 0} (n : ℕ) (f : ℕ → AppResult A) (g : A → Boot B) (now : ℕ) {b : B} {end : ℕ}
    → (calls n f >>= g) now ≡ (ok b, end)
    → (a : A) × (f now ≡ ok a) × (g a (now + n) ≡ (ok b, end))
unfolding then_boot
call_ok n f g now h = elim (AppResult-cases (f now)) [
  | inl (a, e) ↦ (a, e, rw (e, then_boot) at h)
  | inr (x, e) ↦ absurd (ground (arith, e))
]

-- One that fails does so with its first calls, or with the rest.
call_err :
    {A B : Type 0} (n : ℕ) (f : ℕ → AppResult A) (g : A → Boot B) (now : ℕ) {x : AppError} {end : ℕ}
    → (calls n f >>= g) now ≡ (err x, end)
    → (f now ≡ err x) ⊎ ((a : A) × (f now ≡ ok a) × (g a (now + n) ≡ (err x, end)))
unfolding then_boot
call_err n f g now h = elim (AppResult-cases (f now)) [
  | inl (a, e) ↦ inr (a, e, rw (e, then_boot) at h)
  | inr (y, e) ↦ inl (ground (arith, e))
]

-- What a started process is made of: every call succeeded, in the order of `main`, the offsets
-- being those of the fourth and the cache that of the five queries behind it.
pub record Boots (outside : Outside) (s : Started outside) (end : ℕ) : Type 0 where
  pub calls : end ≡ (if s.config.sns_enabled then 12 else 11)
  pub logs : init outside.try_from_default_env outside.try_init ≡ ok tt
  pub configured : from_env outside.env ≡ ok s.config
  pub connected : connect_pool outside.connect_with s.config ≡ ok s.pool
  pub noted : prepare outside s.config 3 ≡ ok s.offsets
  pub loaded : load_control_plane_snapshot (queried outside 4) ≡ some s.cache
  pub validator : new_validator outside.from_rsa_pem s.config ≡ ok s.ws_state.jwt_validator
  pub consumer : outside.create (alerts_settings s.config) ≡ done s.consumer
  pub heartbeat : s.ws_state.heartbeat_interval < s.ws_state.heartbeat_timeout
  pub worker : s.worker ≡ (
      if s.config.sns_enabled
      then some (
        record { region = s.config.aws_region; max_retries = s.config.sns_retry_count },
        s.config.sns_batch_timeout_ms,
      )
      else none)

map_err-ok :
    {A : Type 0} (f : Text → AppError) (m : Attempt A) {a : A} → map_err f m ≡ ok a → m ≡ done a
map_err-ok f (done a) h = cc
map_err-ok f (failed detail) h = cc

module _ (outside : Outside) where
  spawn-worker :
      (config : AppConfig) {client : Option SnsClient}
      → sns_client outside config ≡ ok client
      → spawn_worker outside config client ≡ (
          if config.sns_enabled
          then some (
            record { region = config.aws_region; max_retries = config.sns_retry_count },
            config.sns_batch_timeout_ms,
          )
          else none)
  unfolding sns_client spawn_worker new_client
  spawn-worker config {client} h = elim (Bool-cases config.sns_enabled) [
    | inl e ↦ ground (arith, e)
    | inr e ↦ ground (arith, e)
  ]

  pub boot-Boots :
      (s : Started outside) (end : ℕ) → boot outside 0 ≡ (ok s, end) → Boots outside s end
  unfolding boot snapshot
  boot-Boots s end h =
      let (log, logs, h₁) =
        call_ok 1 (λ now. init outside.try_from_default_env outside.try_init) _ 0 h in
      let (config, configured, h₂) = call_ok 1 (λ now. from_env outside.env) _ 1 h₁ in
      let (pool, connected, h₃) =
        call_ok 1 (λ now. connect_pool outside.connect_with config) _ 2 h₂ in
      let (offsets, noted, h₄) = call_ok 1 (prepare outside config) _ 3 h₃ in
      let (cache, loaded, h₅) = call_ok 5 (snapshot outside) _ 4 h₄ in
      let sns : ℕ = if config.sns_enabled then 1 else 0 in
      let (client, spawned, h₆) = call_ok sns (λ now. sns_client outside config) _ 9 h₅ in
      let (validator, keyed, h₇) =
        call_ok 1 (λ now. new_validator outside.from_rsa_pem config) _ (9 + sns) h₆ in
      let (consumer, created, h₈) =
        call_ok 1 (λ now. map_err kafka (outside.create (alerts_settings config))) _ (9 + sns + 1)
          h₇ in
      subst₂ (Boots outside) (ok_injective (ap (λ r. r.0) h₈)) (ap (λ r. r.1) h₈) (record {
        calls = ground arith;
        logs = logs;
        configured = configured;
        connected = connected;
        noted = noted;
        loaded = ok_or-ok (load_control_plane_snapshot (queried outside 4)) _ loaded;
        validator = keyed;
        consumer = map_err-ok kafka (outside.create (alerts_settings config)) created;
        heartbeat = (from_env-IsChecked outside.env config configured).heartbeat;
        worker = spawn-worker config spawned;
      })

-- How far a start came: each call up to there succeeded.
pub record Configured (outside : Outside) (config : AppConfig) : Type 0 where
  pub logs : init outside.try_from_default_env outside.try_init ≡ ok tt
  pub configured : from_env outside.env ≡ ok config

pub record Connected (outside : Outside) (config : AppConfig) : Type 0 where
  pub before : Configured outside config
  pub pool : outside.Pool
  pub connected : connect_pool outside.connect_with config ≡ ok pool

pub record Noted (outside : Outside) (config : AppConfig) : Type 0 where
  pub before : Connected outside config
  pub offsets : List (ℕ × ℕ)
  pub noted : prepare outside config 3 ≡ ok offsets

pub record Loaded (outside : Outside) (config : AppConfig) : Type 0 where
  pub before : Noted outside config
  pub cache : State
  pub loaded : load_control_plane_snapshot (queried outside 4) ≡ some cache

pub record Keyed (outside : Outside) (config : AppConfig) : Type 0 where
  pub before : Loaded outside config
  pub validator : JwtValidator outside.DecodingKey
  pub keyed : new_validator outside.from_rsa_pem config ≡ ok validator

-- The call that ended the start, the calls before it having succeeded.
pub data BootFails (outside : Outside) : AppError → Type 0 where
  log_fails :
      {x : AppError}
      → init outside.try_from_default_env outside.try_init ≡ err x
      → BootFails outside x
  config_fails :
      {x : AppError}
      → init outside.try_from_default_env outside.try_init ≡ ok tt
      → from_env outside.env ≡ err x
      → Blames outside.env x
      → BootFails outside x
  pool_fails :
      (config : AppConfig) {x : AppError}
      → Configured outside config
      → connect_pool outside.connect_with config ≡ err x
      → BootFails outside x
  topic_fails :
      (config : AppConfig) {x : AppError}
      → Connected outside config
      → prepare outside config 3 ≡ err x
      → BootFails outside x
  snapshot_fails :
      (config : AppConfig)
      → Noted outside config
      → load_control_plane_snapshot (queried outside 4) ≡ none
      → BootFails outside (database outside.query_detail)
  key_fails :
      (config : AppConfig) {x : AppError}
      → Loaded outside config
      → new_validator outside.from_rsa_pem config ≡ err x
      → BootFails outside x
  consumer_fails :
      (config : AppConfig) (detail : Text)
      → Keyed outside config
      → outside.create (alerts_settings config) ≡ failed detail
      → BootFails outside (kafka detail)

module _ (outside : Outside) where
  from_call :
      {A B : Type 0} (n : ℕ) (f : ℕ → AppResult A) (g : A → Boot B) (now : ℕ) {x : AppError}
      {end : ℕ}
      → ((y : AppError) → f now ≡ err y → BootFails outside y)
      → ((a : A) → f now ≡ ok a → g a (now + n) ≡ (err x, end) → BootFails outside x)
      → (calls n f >>= g) now ≡ (err x, end)
      → BootFails outside x
  from_call n f g now {x} first rest h = elim (call_err n f g now h) [
    | inl e ↦ first x e
    | inr (a, e, r) ↦ rest a e r
  ]

  no_snapshot :
      (config : AppConfig) (x : AppError)
      → Noted outside config
      → snapshot outside 4 ≡ err x
      → BootFails outside x
  unfolding snapshot
  no_snapshot config x n h = elim (Option-cases (load_control_plane_snapshot (queried outside 4))) [
    | inl e ↦ subst (BootFails outside) (ground (arith, e)) (snapshot_fails config n e)
    | inr (s, e) ↦ absurd (ground (arith, e))
  ]

  no_consumer :
      (config : AppConfig) (x : AppError)
      → Keyed outside config
      → map_err kafka (outside.create (alerts_settings config)) ≡ err x
      → BootFails outside x
  no_consumer config x c h = from_attempt (outside.create (alerts_settings config)) refl h
    where
      from_attempt :
          (m : Attempt outside.Client)
          → outside.create (alerts_settings config) ≡ m
          → map_err kafka m ≡ err x
          → BootFails outside x
      from_attempt (done client) e k = absurd cc
      from_attempt (failed detail) e k =
          subst (BootFails outside) (ground arith) (consumer_fails config detail c e)

  always_client :
      (config : AppConfig) (x : AppError) → sns_client outside config ≡ err x → BootFails outside x
  unfolding sns_client new_client
  always_client config x h = elim (Bool-cases config.sns_enabled) [
    | inl e ↦ absurd (ground (arith, e))
    | inr e ↦ absurd (ground (arith, e))
  ]

  loaded_next :
      (config : AppConfig) (cache : State)
      → Noted outside config
      → snapshot outside 4 ≡ ok cache
      → Loaded outside config
  unfolding snapshot
  loaded_next config cache n e = record {
    before = n;
    cache = cache;
    loaded = ok_or-ok (load_control_plane_snapshot (queried outside 4)) _ e;
  }

  pub boot-BootFails :
      (x : AppError) (end : ℕ) → boot outside 0 ≡ (err x, end) → BootFails outside x
  unfolding boot
  boot-BootFails x end =
      from_call 1 (λ now. init outside.try_from_default_env outside.try_init) _ 0
        (λ y e. log_fails e)
        λ log l.
          from_call 1 (λ now. from_env outside.env) _ 1
            (λ y e. config_fails l e (from_env-Blames outside.env y e))
            λ config c.
              let a : Configured outside config = record { logs = l; configured = c } in
              from_call 1 (λ now. connect_pool outside.connect_with config) _ 2
                (λ y e. pool_fails config a e)
                λ pool p.
                  let b : Connected outside config = record {
                    before = a;
                    pool = pool;
                    connected = p;
                  } in
                  from_call 1 (prepare outside config) _ 3 (λ y e. topic_fails config b e)
                    λ offsets o.
                      let n : Noted outside config = record {
                        before = b;
                        offsets = offsets;
                        noted = o;
                      } in
                      from_call 5 (snapshot outside) _ 4 (λ y e. no_snapshot config y n e)
                        λ cache k.
                          let loaded = loaded_next config cache n k in
                          let sns : ℕ = if config.sns_enabled then 1 else 0 in
                          from_call sns (λ now. sns_client outside config) _ 9
                            (always_client config)
                            λ client _.
                              from_call 1 (λ now. new_validator outside.from_rsa_pem config) _
                                (9 + sns) (λ y e. key_fails config loaded e)
                                λ validator v.
                                  let keyed : Keyed outside config = record {
                                    before = loaded;
                                    validator = validator;
                                    keyed = v;
                                  } in
                                  from_call 1
                                    (λ now. map_err kafka (outside.create (alerts_settings config)))
                                    _ (9 + sns + 1) (λ y. no_consumer config y keyed)
                                    λ consumer _ e. absurd cc

  -- The task whose result ends the process with that error.
  pub data TaskFails (x : AppError) : Ended → Type 0 where
    control_plane_fails : TaskFails x (control_plane_task (err x))
    alerts_fail : TaskFails x (consumer_run (err x))
    server_fails : TaskFails x (run_server (err x))

  same : {x y : AppError} → ◌≡◌ {A = AppResult (Unit {0})} (err y) (err x) → x ≡ y
  same h = cc

  exit-TaskFails : (ended : Ended) (x : AppError) → exit ended ≡ err x → TaskFails x ended
  unfolding exit
  exit-TaskFails (control_plane_task (err y)) x h =
      subst (λ (z : AppError). TaskFails x (control_plane_task (err z))) (same h)
        control_plane_fails
  exit-TaskFails (consumer_run (err y)) x h =
      subst (λ (z : AppError). TaskFails x (consumer_run (err z))) (same h) alerts_fail
  exit-TaskFails (run_server (err y)) x h =
      subst (λ (z : AppError). TaskFails x (run_server (err z))) (same h) server_fails
  exit-TaskFails (control_plane_task (ok r)) x h = absurd cc
  exit-TaskFails (consumer_run (ok r)) x h = absurd cc
  exit-TaskFails (run_server (ok r)) x h = absurd cc
  exit-TaskFails (ctrl_c heard) x h = absurd cc

  -- When `main` returns an error, either one of the calls of the start failed with that error and
  -- every call before it succeeded (for an error of the configuration, a variable being to blame),
  -- or the process had started and the control-plane task, the consumer of alerts or the server
  -- ended with that error.
  pub main_fails :
      (ended : Ended) (x : AppError)
      → main outside ended ≡ err x
      → BootFails outside x
        ⊎ ((s : Started outside) × (end : ℕ) × Boots outside s end × TaskFails x ended)
  unfolding main
  main_fails ended x h = elim (AppResult-cases (boot outside 0).0) [
    | inl (s, e) ↦
        let b = boot-Boots outside s (boot outside 0).1 (ap (λ r. (r, (boot outside 0).1)) e) in
        inr (s, (boot outside 0).1, b, exit-TaskFails ended x (rw (e, main) at h))
    | inr (y, e) ↦
        let k : y ≡ x = ground (arith, e, h) in
        let f = e ∙ ap err k in
        inl (boot-BootFails x (boot outside 0).1 (ap (λ r. (r, (boot outside 0).1)) f))
  ]
