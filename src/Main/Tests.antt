-- ===== src/Main/Tests.antt =====
-- A process that starts, and one whose environment is refused.
use alert_distributor.Base.{
  ℕ, zero, suc, ◌≡◌, ◌∙◌, ◌⊎◌, sym, refl, none, some, List, [], ◌∷◌, ◌++◌, length, nat_eq, list_eq,
  map,
}
use mathlib.Core.Option.{some-injective}
use alert_distributor.Text.{Text, text}
use alert_distributor.Base.{arith, ap}
use alert_distributor.Errors.{AppError, ok, err, done, failed, kafka, invalid_log_filter}
use alert_distributor.Config.Fixtures.{env, config, accepted}
use alert_distributor.Logging.{init}
use alert_distributor.Db.{connect_pool}
use alert_distributor.Permissions.Cache.{empty}
use alert_distributor.Permissions.Cache.Facts.{
  Key, user, member, granted, device, mobile, Fact, fact,
}
use alert_distributor.Permissions.Loader.Shows.{
  IsControl, SameControl, shown, load_control_plane_snapshot-shown,
}
use alert_distributor.Permissions.Cache.Write.{deactivate_device}
use alert_distributor.Main.Shared.{Act, reads, retires, live}
use alert_distributor.Kafka.ControlPlane.Consumer.{probed, apply_payload}
use alert_distributor.Permissions.Loader.{Views, load_control_plane_snapshot, for_each}
use alert_distributor.Kafka.Settings.{alerts_settings, control_plane_settings}
use alert_distributor.Kafka.ControlPlane.{
  Serde, upsert, apply_event, apply_entity, apply_user_event,
}
use alert_distributor.Kafka.ControlPlane.Replay.{apply_all}
use alert_distributor.Kafka.ControlPlane.Start.{
  prepare_control_plane_consumer, collect_partitions, fetch_offsets,
}
use alert_distributor.Kafka.ControlPlane.Consumer.{
  Input, probe, received, receive_failed, start, run, step, mark_applied, mark_ok, lag,
}
use alert_distributor.Websocket.Auth.{new_validator}
use alert_distributor.Sns.Client.{new_client}
use alert_distributor.Main.{
  Outside, Started, start_result, prepare, snapshot, sns_client, spawn_worker, boot, then_boot,
  consumer_run, exit, main,
}
use alert_distributor.Main.Boots.{Boots, BootFails, TaskFails, main_fails}
use alert_distributor.HashMap.{get, insert}
use alert_distributor.Main.Current.{health_is_current}
use alert_distributor.Main.CatchUp.{IsAhead, one_partition, boot_catches_up}

-- Every payload is the event of a user that is active.
abbrev serde : Serde
serde = record {
  Value = List ℕ;
  envelope = λ payload. some (record {
    event_type = upsert;
    entity = text "user";
    schema_version = some 1;
    body = payload;
  });
  user_data = λ body. some (record { id = length body; status = some (text "ACTIVE") });
  membership_data = λ v. none;
  user_unit_data = λ v. none;
  unit_device_data = λ v. none;
  user_device_data = λ v. none;
}

-- A user appears between the fourth call and the fifth, and another later.
abbrev published : ℕ → List (List ℕ)
published zero = []
published (suc zero) = []
published (suc (suc zero)) = []
published (suc (suc (suc zero))) = []
published (suc (suc (suc (suc zero)))) = (1 ∷ []) ∷ []
published (suc (suc (suc (suc (suc t))))) = (1 ∷ []) ∷ (1 ∷ 2 ∷ []) ∷ []

-- The view of users holds the users of the topic.
abbrev views_of : List (List ℕ) → Views
views_of events = record {
  users = some (map (λ body. record { id = length body; status = text "ACTIVE" }) events);
  organization_users = some [];
  user_units = some [];
  unit_devices = some [];
  user_devices = some [];
}

abbrev outside : Outside
outside = record {
  Filter = ℕ;
  Pool = ℕ;
  Client = ℕ;
  DecodingKey = Text;
  try_from_default_env = done 0;
  try_init = λ subscriber. done tt;
  env = env;
  connect_with = λ most options. done most;
  create = λ settings. done (length settings);
  metadata = λ t. some (one_partition (text "control-plane-events") 2);
  high = λ t partition. some (length (published t));
  start_detail = λ e. text "broker";
  views = λ t. views_of (published t);
  query_detail = text "query";
  from_rsa_pem = λ pem. done pem;
}

abbrev started : Started outside
started = record {
  config = config;
  pool = 5;
  offsets = (2, 0) ∷ [];
  cache = apply_all serde ((1 ∷ []) ∷ []) empty;
  worker = some (record { region = text "us-east-1"; max_retries = 3 }, 100);
  ws_state = record {
    jwt_validator = record { decoding_key = text "KEY\nEND"; algorithm = text "RS256" };
    channel_capacity = 64;
    heartbeat_interval = 15;
    heartbeat_timeout = 60;
  };
  consumer = 8;
}

starts : boot outside 0 ≡ (ok started, 12)
unfolding boot then_boot init connect_pool prepare prepare_control_plane_consumer collect_partitions
    fetch_offsets snapshot load_control_plane_snapshot for_each sns_client new_client spawn_worker
    new_validator alerts_settings control_plane_settings apply_all apply_event apply_entity
    start_result apply_user_event
starts = rw accepted refl

grows : (t : ℕ) → (more : List (List ℕ)) × (published (suc t) ≡ published t ++ more)
grows zero = ([], refl)
grows (suc zero) = ([], refl)
grows (suc (suc zero)) = ([], refl)
grows (suc (suc (suc zero))) = ((1 ∷ []) ∷ [], refl)
grows (suc (suc (suc (suc zero)))) = ((1 ∷ 2 ∷ []) ∷ [], refl)
grows (suc (suc (suc (suc (suc t))))) = ([], refl)

loads :
    (t : ℕ)
    → load_control_plane_snapshot (views_of (published t))
      ≡ some (apply_all serde (published t) empty)
unfolding load_control_plane_snapshot for_each apply_all apply_event apply_entity apply_user_event
loads zero = refl
loads (suc zero) = refl
loads (suc (suc zero)) = refl
loads (suc (suc (suc zero))) = refl
loads (suc (suc (suc (suc zero)))) = refl
loads (suc (suc (suc (suc (suc t))))) = refl

followed :
    (t : ℕ) (k : Key) (f : Fact)
    → IsControl k
    → shown (views_of (published t)) k ≡ some f
    → f ≡ fact k (apply_all serde (published t) empty)
followed t k f c h =
    let now = apply_all serde (published t) empty in
    some-injective f (fact k now)
      (sym h ∙ load_control_plane_snapshot-shown (views_of (published t)) now (loads t) k c)

in_step :
    (t : ℕ) (k : Key) (f : Fact)
    → f ≡ fact k (apply_all serde (published t) empty)
    → IsAhead published serde 0 t k f
in_step t k f e = record {
  ahead = 0;
  bound = omega arith;
  holds = e ∙ ap (λ n. fact k (apply_all serde (published n) empty)) (omega arith);
}

follows :
    (t : ℕ) (k : Key) (f : Fact)
    → shown (outside.views t) k ≡ some f
    → IsAhead published serde 0 t k f
unfolding shown
follows t (mobile u id) f h = absurd cc
follows t (user u) f h = in_step t (user u) f (followed t (user u) f tt h)
follows t (member o u) f h = in_step t (member o u) f (followed t (member o u) f tt h)
follows t (granted u n) f h = in_step t (granted u n) f (followed t (granted u n) f tt h)
follows t (device imei) f h = in_step t (device imei) f (followed t (device imei) f tt h)

abbrev message : ℕ → List ℕ → Input
message offset payload =
    received (record { partition = 2; offset = offset; payload = some payload })

-- Both events, a failure, and a device that the worker takes out.
abbrev acts : List Act
acts =
    reads (message 0 (1 ∷ []))
    ∷ reads receive_failed
    ∷ retires 41
    ∷ reads (message 1 (1 ∷ 2 ∷ []))
    ∷ []

boot_catches_up_example :
    SameControl
      (live serde acts (start started.cache started.offsets)).cache
      (apply_all serde (published 7) empty)
boot_catches_up_example =
    boot_catches_up published serde outside 2 started 12 0 0 acts starts grows refl refl follows
      λ offset h. let e : 0 ≡ offset = cc in rw (sym e) refl

abbrev refusing : Outside
refusing = record outside { try_from_default_env = failed (text "filter") }

refused : boot refusing 0 ≡ (err (invalid_log_filter (text "filter")), 1)
unfolding boot then_boot init
refused = refl

abbrev lost : AppError
lost = kafka (text "consumer lost")

ends_with_error : main outside (consumer_run (err lost)) ≡ err lost
unfolding main exit
ends_with_error = rw (starts, main) refl

main_fails_example :
    BootFails outside lost
    ⊎ ((s : Started outside) × (end : ℕ) × Boots outside s end
        × TaskFails outside lost (consumer_run (err lost)))
main_fails_example = main_fails outside (consumer_run (err lost)) lost ends_with_error

health_is_current_example :
    SameControl
      (live serde
        (acts ++ reads (probe (outside.high 7)) ∷ [])
        (start started.cache started.offsets)).cache
      (apply_all serde (published 7) empty)
unfolding run step get insert start mark_applied mark_ok lag probed apply_payload deactivate_device
health_is_current_example =
    health_is_current published serde outside 2 started 12 0 0 acts starts grows refl refl refl
      follows
      (λ offset h.
        let a : 0 ≡ offset = cc in
        rw (sym a)
          (refl, refl, ((1 ∷ []), refl, refl), (refl, refl, ((1 ∷ 2 ∷ []), refl, refl), tt)))
      refl refl
