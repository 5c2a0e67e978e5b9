-- ===== src/Lib.antt =====
-- The alert distributor reads alerts from Kafka and hands each to the people who may see the unit
-- it is about: to their open WebSocket connections and, through AWS SNS, to their mobile devices.
-- Who may see a unit is kept in a cache in memory, loaded once from the views of the database and
-- then kept up to date by the events of the control plane.
--
-- The files and the code they model:
-- Base, HashMap, Sort, Text: what the source uses of Rust's standard library. A HashMap is an
-- association list with distinct keys, in an order that no result depends on; a String is its code points.
-- Errors, Config: src/errors/mod.rs and src/config/mod.rs.
-- Permissions/Cache: src/permissions/cache.rs. State and its helpers (Cache), the readers (Cache/Read)
-- and the writers (Cache/Write) of `ControlPlaneCache`. Every method holds the lock for the whole of
-- its body, so that a history of the cache is a sequence of calls.
-- Cache/Invariant: well-formedness (`Inv`); Cache/Visibility, Cache/Rule: what the readers return;
-- Cache/Facts, Cache/Determined: what the events assert and what that settles; Cache/Divergence: where the two readers part.
-- Cache/Facts/Assertions: the abstract view, a fact for each key, which the events of
-- Kafka/ControlPlane/Says assert; Kafka/ControlPlane/Revocation: what the removal of a membership or an account is worth.
-- Permissions/Loader: src/permissions/loader.rs, `load_control_plane_snapshot`.
-- Kafka/ControlPlane: src/kafka/control_plane.rs. `apply_event` (ControlPlane),
-- `prepare_control_plane_consumer` (Start), `run_control_plane_consumer`, `lag` and
-- `ControlPlaneHealth` (Consumer). A round of the `select!` loop is one `Input`.
-- Kafka/Alerts: src/kafka/consumer.rs, `AlertsConsumer`. Kafka/Settings: the settings of both consumers.
-- Websocket/Registry, Websocket/Dispatcher, Websocket/Auth, Websocket/Handler: the files of
-- src/websocket of these names. Handler has `ws_handler`, `handle_socket` and `health_handler`; a
-- round of the loop of a connection is one `Input`, with the time that it reads.
-- Websocket/Server: src/websocket/mod.rs, `run_server`. Websocket/System: handshakes, connections,
-- the alert in flight and the writers of the cache as one step relation, in any interleaving.
-- Sns/Models, Sns/Client, Sns/Dispatcher, Sns/Publisher, Sns/Metrics: the files of src/sns of these
-- names. Sns/Message is `SnsMessage` of src/sns/models.rs.
-- Sns/Worker: `sns_worker_task` and `process_sns_delivery` of src/main.rs. Each receive is one
-- event; the deliveries of a batch run in any order.
-- Delivery: the way of an alert through Kafka/Alerts, Sns/Dispatcher, Sns/Publisher and Sns/Worker,
-- up to the batches that are pushed; the queue between them is a parameter.
-- Main: src/main.rs, `main`: the start, call by call, and how the process ends.
-- Db, Logging: src/db/postgres.rs with src/sns/db_update.rs, and src/logging/mod.rs.
-- Models/AlertEvent: src/models/alert_event.rs.
-- Suite modules: the unit tests of the source files, as Booleans that are all true.
-- Tests modules: runs at concrete inputs, and each theorem at an input where its conditions hold.
--
-- How the parts interact: the loader and the reader of the control plane write the cache through
-- the same methods; the dispatchers and the WebSocket handler read it; the SNS worker removes a
-- device whose endpoint is invalid.
--
-- Numbers are natural numbers. Identifiers are 128-bit UUIDs that are only compared and sorted, so
-- they stand for themselves; Kafka's partitions and offsets are not negative, as the broker gives
-- them. Counters of 64 bits and the delays of the retry loop keep their wrap, `% 2 ^ 64`; counts
-- that are bounded by the memory in use (lengths, devices of a unit, lag) are not wrapped.
--
-- Fuel: `publish_loop` runs on `max_retries + 1` units of fuel, one for each attempt, so that it
-- does not run out. All other loops are structural.
--
-- Parameters: serde_json (`Serde`), the broker's answers, the answers of the SNS SDK, the channels
-- of tokio, the socket, jsonwebtoken's `decode`, the parser of UUIDs, the environment, and
-- Unicode's lower case.
--
-- Time in Main is the number of the call: what the broker and the database answer may differ from
-- one call to the next. The five queries of the snapshot are five calls, no transaction.
-- Main/Shared adds the other writer of the cache, the worker that retires devices;
-- Permissions/Loader/Shows is what each view says of the facts. In Websocket/System the consumer
-- hands out one alert at a time, as src/kafka/consumer.rs does.
--
-- Not modelled: what is logged, and the libraries above, which are arguments.
pub mod Base
pub mod HashMap
pub mod Sort
pub mod Text
pub mod Errors
pub mod Config
pub mod Models
pub mod Permissions
pub mod Kafka
pub mod Websocket
pub mod Sns
pub mod Main
pub mod Db
pub mod Delivery
pub mod Logging
