-- ===== src/Websocket/Fixtures.antt =====
-- Small stand-ins for the channels and the parser of UUIDs, and a registry with one connection.
use alert_distributor.Base.{
  ℕ, ◌+◌, refl, Option, none, some, [], ◌∷◌, nat_eq, pair_eq, nat_beq, list_eq, ◌==◌, if◌then◌else◌,
  ltb,
}
use alert_distributor.HashMap.{get, insert, remove}
use alert_distributor.Text.{Text, text}
use alert_distributor.Models.AlertEvent.{AlertEvent}
use alert_distributor.Websocket.Registry.{RegistryState, no_connections, add_connection}
use alert_distributor.Websocket.Registry.Invariant.{
  IsIndexed, no_connections-IsIndexed, add_connection-IsIndexed,
}
use alert_distributor.Websocket.Dispatcher.{ClientAlertMessage, Channels, accepted, full, closed}

-- A sender of 0 is closed; the others share a buffer with room for two messages.
abbrev pub channels : Channels (ClientAlertMessage ℕ ℕ)
channels = record {
  Sender = ℕ;
  Buffers = ℕ;
  try_send = λ sender message used.
      if nat_beq sender 0
      then (closed, used)
      else if ltb used 2
      then (accepted, used + 1)
      else (full, used);
}

abbrev pub parse_uuid : Text → Option ℕ
parse_uuid s = if s == text "unit-11" then some 11 else none

abbrev pub alert : AlertEvent ℕ ℕ
alert = record {
  id = 1;
  organization_id = 1;
  unit_id = text "unit-11";
  unit_name = some (text "Unidad 1");
  rule_id = 4;
  source_type = text "event";
  source_id = 5;
  alert_type = text "speeding";
  alert_name = none;
  payload = 0;
  occurred_at = 0;
}

abbrev pub one : RegistryState ℕ
one = add_connection 100 21 1 (11 ∷ 12 ∷ []) 0 no_connections

pub one-IsIndexed : IsIndexed one
unfolding get
one-IsIndexed =
    add_connection-IsIndexed 100 21 1 (11 ∷ 12 ∷ []) 0 no_connections refl no_connections-IsIndexed

abbrev pub two : RegistryState ℕ
two = add_connection 101 22 1 (11 ∷ []) 901 one

pub two-IsIndexed : IsIndexed two
unfolding get add_connection insert remove
two-IsIndexed = add_connection-IsIndexed 101 22 1 (11 ∷ []) 901 one refl one-IsIndexed
