-- ===== src/Websocket/System/Tests.antt =====
-- A run of the system: a member connects, loses the grant, and gets an alert all the same.
use mathlib.Core.List.{Memᴰ}
use alert_distributor.Base.{ℕ, refl, none, some, List, [], ◌∷◌, nat_eq, pair_eq, list_eq}
use alert_distributor.HashMap.{get, insert, remove, insert_at}
use alert_distributor.Text.{text, strip_prefix}
use alert_distributor.Permissions.Cache.{State, active_membership, unassign_device}
use alert_distributor.Permissions.Cache.Read.{units_for}
use alert_distributor.Permissions.Cache.Write.{
  upsert_user_unit, upsert_membership, upsert_unit_device,
}
use alert_distributor.Permissions.Fixtures.{scene, scene-Inv, parse_uuid, decode, header, person}
use alert_distributor.Kafka.ControlPlane.{Serde, delete, apply_event}
use alert_distributor.Sort.{sort}
use alert_distributor.Websocket.Fixtures.{channels, alert}
use alert_distributor.Websocket.Auth.{validate_bearer}
use alert_distributor.Websocket.Handler.{ws_handler}
use alert_distributor.Websocket.Dispatcher.{accepted, client_message, drop_closed}
use alert_distributor.Websocket.Registry.{
  senders_for_unit, no_connections, add_connection, push_all, push_at, targets,
}
use alert_distributor.Websocket.Registry.Invariant.{IsIndexed}
use alert_distributor.Permissions.Cache.Invariant.{Inv}
use alert_distributor.Websocket.System.{
  Opening, Sent, System, init, Step, apply, connect, receive, send, Reach, start, later,
}
use alert_distributor.Websocket.System.Visible.{WasVisible, sent-WasVisible, reach-IsIndexed}

-- Every payload takes the grant away.
abbrev serde : Serde
serde = record {
  Value = List ℕ;
  envelope = λ payload. some (record {
    event_type = delete;
    entity = text "user_unit";
    schema_version = some 1;
    body = payload;
  });
  user_data = λ v. none;
  membership_data = λ v. none;
  user_unit_data = λ v. some (record { organization_id = none; user_id = 22; unit_id = 11 });
  unit_device_data = λ v. none;
  user_device_data = λ v. none;
}

abbrev opening : Opening ℕ
opening = record {
  connection_id = 100;
  context = person;
  units = 11 ∷ [];
  sender = 7;
  cache = scene;
}

abbrev opened : System ℕ ℕ ℕ
opened = record (init scene) {
  registry = add_connection 100 22 1 (11 ∷ []) 7 no_connections;
  opened = opening ∷ [];
}

opens : Step serde decode parse_uuid channels (init scene) opened
unfolding ws_handler validate_bearer strip_prefix units_for get insert remove sort upsert_user_unit
    upsert_membership upsert_unit_device unassign_device insert_at active_membership
opens = connect (some header) opening (Memᴰ.head refl) refl refl

abbrev without_grant : State
without_grant = (apply_event serde [] scene).1

abbrev revoked : System ℕ ℕ ℕ
revoked = record opened { cache = without_grant; past = without_grant ∷ scene ∷ [] }

abbrev called : System ℕ ℕ ℕ
called = record revoked {
  flight = some (record { unit = 11; targets = (100, 7) ∷ []; message = client_message alert });
}

calls : Step serde decode parse_uuid channels revoked called
unfolding senders_for_unit add_connection push_all push_at targets get insert remove
calls = receive alert 11 refl refl

abbrev sending : Sent ℕ
sending = record { connection_id = 100; unit = 11; sender = 7 }

abbrev reached : System ℕ ℕ ℕ
reached = record called {
  flight = some (record { unit = 11; targets = []; message = client_message alert });
  sent = sending ∷ [];
}

reaches : Reach serde decode parse_uuid channels scene reached
unfolding drop_closed
reaches =
    later (later (later (later start opens) (apply [])) calls)
      (send 11 100 7 [] (client_message alert) accepted refl)

sent-WasVisible_example : WasVisible serde decode parse_uuid channels reached sending
sent-WasVisible_example =
    sent-WasVisible serde decode parse_uuid channels scene reached sending scene-Inv reaches
      (Memᴰ.head refl)

reach-IsIndexed_example : IsIndexed reached.registry × Inv reached.cache
reach-IsIndexed_example =
    reach-IsIndexed serde decode parse_uuid channels scene reached scene-Inv reaches
