-- ===== src/Kafka/ControlPlane/Start.antt =====
-- src/kafka/control_plane.rs, `prepare_control_plane_consumer`: where the reader starts. What the
-- broker answers is an argument; partitions and offsets are not negative.
pub mod Fails
use alert_distributor.Base.{
  ℕ, Bool, true, false, Option, none, some, List, [], ◌∷◌, ◌++◌, nat_eq, list_eq, ◌==◌, is_empty,
  if◌then◌else◌,
}
use alert_distributor.Text.{Text}

pub record TopicMetadata : Type 0 where
  pub name : Text
  pub error : Option Text
  pub partitions : List ℕ

pub data StartError : Type 0 where
  kafka_error control_plane_unavailable : StartError

pub data Start (A : Type 0) : Type 0 where
  ready : A → Start A
  failed : StartError → Start A

infixl 5 ◌>>=◌
abbrev pub ◌>>=◌ : {A B : Type 0} → Start A → (A → Start B) → Start B
ready a >>= f = f a
failed e >>= f = failed e

abbrev pub ready_or : {A : Type 0} → Option A → StartError → Start A
ready_or none e = failed e
ready_or (some a) e = ready a

-- The loop over the topics of that name: the first that has an error ends it.
unfoldable pub collect_partitions : Text → List TopicMetadata → List ℕ → Start (List ℕ)
collect_partitions topic [] partitions = ready partitions
collect_partitions topic (t ∷ ts) partitions =
    let rest = collect_partitions topic ts in
    if t.name == topic
    then elim t.error [
      | some err ↦ failed control_plane_unavailable
      | none ↦ rest (partitions ++ t.partitions)
    ]
    else rest partitions

abbrev pub some_readable : List ℕ → Start (List ℕ)
some_readable partitions =
    if is_empty partitions then failed control_plane_unavailable else ready partitions

-- The loop that notes the end of each partition.
unfoldable pub fetch_offsets : (ℕ → Option ℕ) → List ℕ → Start (List (ℕ × ℕ))
fetch_offsets high [] = ready []
fetch_offsets high (partition ∷ partitions) = do
  offset ← ready_or (high partition) control_plane_unavailable
  offsets ← fetch_offsets high partitions
  ready ((partition, offset) ∷ offsets)

-- `created`: whether the client could be created.
unfoldable pub prepare_control_plane_consumer :
    Text → Bool → Option (List TopicMetadata) → (ℕ → Option ℕ) → Start (List (ℕ × ℕ))
prepare_control_plane_consumer topic created metadata high = do
  client ← ready_or (if created then some tt else none) kafka_error
  topics ← ready_or metadata control_plane_unavailable
  found ← collect_partitions topic topics []
  partitions ← some_readable found
  fetch_offsets high partitions
