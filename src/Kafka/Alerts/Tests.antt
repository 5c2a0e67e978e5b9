-- ===== src/Kafka/Alerts/Tests.antt =====
-- The reader of the alerts at a stream.
use alert_distributor.Base.{ℕ, suc, ◌≡◌, refl, Option, none, some, List, [], ◌∷◌, ◌++◌, map}
use alert_distributor.Models.AlertEvent.{AlertEvent}
use alert_distributor.Permissions.Cache.{empty}
use alert_distributor.Websocket.Registry.Invariant.{IsIndexed}
use alert_distributor.Websocket.Fixtures.{channels, alert, one, one-IsIndexed, parse_uuid}
use alert_distributor.Sns.Metrics.{zeroed}
use alert_distributor.Kafka.Alerts.{Outside, StreamItem, message, receive_error, Pipeline, run}
use alert_distributor.Kafka.Alerts.Commits.{alerts, dispatch_all, run-commits}

-- A payload of one byte is an alert.
abbrev from_slice : List ℕ → Option (AlertEvent ℕ ℕ)
from_slice (b ∷ []) = some alert
from_slice _ = none

abbrev outside : Outside ℕ ℕ
outside = record {
  from_slice = from_slice;
  parse_uuid = parse_uuid;
  channels = channels;
  Queue = ℕ;
  send = λ item queue. some (suc queue);
}

abbrev stream : List StreamItem
stream =
    message (record { partition = 0; offset = 7; payload = some (1 ∷ []) }) empty (λ user. empty)
    ∷ receive_error
    ∷ message (record { partition = 0; offset = 8; payload = some [] }) empty (λ user. empty)
    ∷ message (record { partition = 1; offset = 3; payload = some (2 ∷ []) }) empty (λ user. empty)
    ∷ []

abbrev before : Pipeline outside
before = record { registry = one; buffers = 0; queue = 0; metrics = zeroed; commits = [] }

commits_offsets : map (λ m. m.offset) (alerts outside stream) ≡ 7 ∷ 3 ∷ []
commits_offsets = refl

run-commits_example :
    (run outside stream before
      ≡ record (dispatch_all outside stream before) { commits = [] ++ alerts outside stream })
    × IsIndexed (run outside stream before).registry
run-commits_example = run-commits outside stream before one-IsIndexed
