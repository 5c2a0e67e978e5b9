-- ===== src/Main/CatchUp.antt =====
-- The start against the topic and the database as they change: what the process holds when its
-- reader has read the topic to an end.
use alert_distributor.Base.{◌≤◌, ◌-◌}
use alert_distributor.Base.{
  ℕ, zero, suc, ◌+◌, ◌≡◌, refl, sym, ap, ◌∙◌, Bool, Option, none, some, List, [], ◌∷◌, ◌++◌, arith,
  length, nat_eq, list_eq, ==_refl, Bool-cases, inl, inr,
}
use mathlib.Core.List.{append_assoc, append-nil}
use alert_distributor.Text.{Text}
use alert_distributor.Errors.{ok}
use alert_distributor.Permissions.Cache.{empty}
use alert_distributor.Permissions.Cache.Facts.{
  Key, user, member, granted, device, mobile, Fact, fact,
}
use alert_distributor.Permissions.Loader.Shows.{
  IsControl, SameControl, shown, load_control_plane_snapshot-shown,
}
use alert_distributor.Main.Shared.{Act, inputs_of, live, Alike, live-Alike}
use alert_distributor.Permissions.Loader.Loads.{load_control_plane_snapshot-Inv}
use alert_distributor.Kafka.ControlPlane.{Serde}
use alert_distributor.Kafka.ControlPlane.Replay.{apply_all}
use alert_distributor.Kafka.ControlPlane.CatchUp.{reread}
use alert_distributor.Kafka.ControlPlane.Start.{
  TopicMetadata, Start, ready, failed, kafka_error, control_plane_unavailable, collect_partitions,
  fetch_offsets, prepare_control_plane_consumer,
}
use alert_distributor.Kafka.ControlPlane.Consumer.{Input, start, run}
use alert_distributor.Kafka.ControlPlane.Consumer.Cache.{payloads, cache-run}
use alert_distributor.Kafka.Settings.{control_plane_settings}
use alert_distributor.Main.{Outside, Started, succeeded, start_result, queried, prepare, boot}
use alert_distributor.Main.Boots.{boot-Boots}

-- What is behind an offset.
abbrev pub drop : {A : Type 0} → ℕ → List A → List A
drop zero l = l
drop (suc n) [] = []
drop (suc n) (x ∷ l) = drop n l

drop-append : {A : Type 0} (l k : List A) → drop (length l) (l ++ k) ≡ k
drop-append [] k = refl
drop-append (x ∷ l) k = drop-append l k

-- What a broker answers for a topic with one partition.
abbrev pub one_partition : Text → ℕ → List TopicMetadata
one_partition topic partition =
    record { name = topic; error = none; partitions = partition ∷ [] } ∷ []

prepared :
    (topic : Text) (created : Bool) (partition end : ℕ) (high : ℕ → Option ℕ)
    {offsets : List (ℕ × ℕ)}
    → high partition ≡ some end
    → prepare_control_plane_consumer topic created (some (one_partition topic partition)) high
      ≡ ready offsets
    → offsets ≡ (partition, end) ∷ []
unfolding prepare_control_plane_consumer collect_partitions fetch_offsets
prepared topic created partition end high h e = elim (Bool-cases created) [
  | inl c ↦ ground (arith, c, h, ==_refl topic)
  | inr c ↦ ground (arith, c)
]

start_result-ready :
    {A : Type 0} (outside : Outside) (r : Start A) {a : A}
    → start_result outside r ≡ ok a
    → r ≡ ready a
unfolding start_result
start_result-ready outside (ready a) h = cc
start_result-ready outside (failed kafka_error) h = absurd cc
start_result-ready outside (failed control_plane_unavailable) h = absurd cc

-- A view is written before the message is published: what it shows at a time are the facts of the
-- messages published by then, or by a later time, at most so far ahead.
pub record IsAhead (published : ℕ → List (List ℕ)) (serde : Serde) (lead t : ℕ) (k : Key) (f : Fact)
    : Type 0 where
  pub ahead : ℕ
  pub bound : ahead ≤ lead
  pub holds : f ≡ fact k (apply_all serde (published (ahead + t)) empty)

module _ (published : ℕ → List (List ℕ)) where
  grows_on :
      ((t : ℕ) → (more : List (List ℕ)) × (published (suc t) ≡ published t ++ more))
      → (from n : ℕ) → (more : List (List ℕ)) × (published (n + from) ≡ published from ++ more)
  grows_on grows from zero = ([], ap published (omega arith) ∙ sym (append-nil (published from)))
  grows_on grows from (suc n) =
      let (more, e) = grows_on grows from n in
      let (last, f) = grows (n + from) in
      (
        more ++ last,
        ap published (omega arith)
            ∙ (f ∙ (ap (λ l. l ++ last) e ∙ append_assoc (published from) more last)),
      )

  -- The call that queried the view of a key: behind the noting of the offsets, and before the end of
  -- the snapshot.
  record QueriedAt (outside : Outside) (k : Key) (last : ℕ) : Type 0 where
    time : ℕ
    since : ℕ
    until : ℕ
    behind : time ≡ since + 3
    before : last ≡ until + time
    seen : shown (queried outside 4) k ≡ shown (outside.views time) k

  queried_at : (outside : Outside) (k : Key) (n : ℕ) → IsControl k → QueriedAt outside k (n + 7)
  unfolding shown
  queried_at outside (user u) n c = record {
    time = 4;
    since = 1;
    until = n + 3;
    behind = refl;
    before = omega arith;
    seen = refl;
  }
  queried_at outside (member o u) n c = record {
    time = 5;
    since = 2;
    until = n + 2;
    behind = refl;
    before = omega arith;
    seen = refl;
  }
  queried_at outside (granted u x) n c = record {
    time = 6;
    since = 3;
    until = n + 1;
    behind = refl;
    before = omega arith;
    seen = refl;
  }
  queried_at outside (device imei) n c = record {
    time = 7;
    since = 4;
    until = n;
    behind = refl;
    before = refl;
    seen = refl;
  }
  queried_at outside (mobile u id) n c = absurd c

  module _ (serde : Serde) (outside : Outside) (partition : ℕ) (s : Started outside) where
    pub noted-offsets :
        (end : ℕ)
        → boot outside 0 ≡ (ok s, end)
        → (outside.metadata 3 ≡ some (one_partition s.config.kafka_control_plane_topic partition))
        → (outside.high 3 partition ≡ some (length (published 3)))
        → s.offsets ≡ (partition, length (published 3)) ∷ []
    unfolding prepare
    noted-offsets end h metadata high =
        let created = succeeded (outside.create (control_plane_settings s.config)) in
        let noted =
          start_result-ready outside
            (prepare_control_plane_consumer s.config.kafka_control_plane_topic created
              (outside.metadata 3) (outside.high 3))
            (boot-Boots outside s end h).noted in
        prepared s.config.kafka_control_plane_topic created partition (length (published 3))
          (outside.high 3) high (rw metadata at noted)

    -- The reader alone: one key, from the view it was queried in.
    catches_up_at :
        (end n lead : ℕ) (inputs : List Input) (k : Key)
        → boot outside 0 ≡ (ok s, end)
        → ((t : ℕ) → (more : List (List ℕ)) × (published (suc t) ≡ published t ++ more))
        → s.offsets ≡ (partition, length (published 3)) ∷ []
        → ((t : ℕ) (k : Key) (f : Fact)
            → shown (outside.views t) k ≡ some f
            → IsAhead published serde lead t k f)
        → payloads inputs ≡ drop (length (published 3)) (published (n + lead + 7))
        → IsControl k
        → fact k (run serde inputs (start s.cache s.offsets)).cache
          ≡ fact k (apply_all serde (published (n + lead + 7)) empty)
    unfolding start
    catches_up_at end n lead inputs k h grows offsets follows reads control =
        let b = boot-Boots outside s end h in
        let q = queried_at outside k n control in
        let a = follows q.time k (fact k s.cache) (
          sym q.seen
          ∙ load_control_plane_snapshot-shown (queried outside 4) s.cache b.loaded k control) in
        let time : ℕ = a.ahead + q.time in
        let rest : ℕ = q.until + (lead - a.ahead) in
        let before = published 3 in
        let (between, e) = grows_on grows 3 (a.ahead + q.since) in
        let (after, f) = grows_on grows time rest in
        let until : published time ≡ before ++ between =
          ap published (omega (arith, q.behind)) ∙ e in
        let all : published (n + lead + 7) ≡ before ++ (between ++ after) =
          ap published (omega (arith, q.before, a.bound))
          ∙ (f ∙ (ap (λ l. l ++ after) until ∙ append_assoc before between after)) in
        let read : payloads inputs ≡ between ++ after =
          reads ∙ (ap (drop (length before)) all ∙ drop-append before (between ++ after)) in
        let loaded : fact k s.cache ≡ fact k (apply_all serde (before ++ between) empty) =
          a.holds ∙ ap (λ ps. fact k (apply_all serde ps empty)) until in
        ap (fact k) (
          cache-run serde inputs (start s.cache s.offsets)
          ∙ ap (λ ps. apply_all serde ps s.cache) read)
        ∙ (reread serde k before between after s.cache
              (load_control_plane_snapshot-Inv (queried outside 4) b.loaded) loaded
            ∙ ap (λ ps. fact k (apply_all serde ps empty)) (sym all))

    -- The reader and the worker start from the same cache.
    pub starts-Alike :
        (end : ℕ) (k : Key)
        → boot outside 0 ≡ (ok s, end)
        → Alike serde k (start s.cache s.offsets) (start s.cache s.offsets)
    unfolding start
    starts-Alike end k h =
        let v =
          load_control_plane_snapshot-Inv (queried outside 4) (boot-Boots outside s end h).loaded in
        record { inv = v; inv' = v; same = refl; next = refl; health = refl }

    -- When the process has started, the control-plane topic has one partition whose messages are
    -- only added to, the broker gave its end when the offsets were noted, each of the four views of
    -- users, memberships, grants and assignments shows at any time the facts of the messages
    -- published by then or by a later time, at most `lead` ahead (a view is written before the
    -- message is published), and the reader has read what was published behind its noted offset up
    -- to some time `lead` or more past these queries, with whatever failures and probes and
    -- whatever devices retired by the worker between, then the cache holds exactly the user,
    -- membership, grant and assignment facts of all messages published up to then: none is lost
    -- between the noted offset and the queries, each of which sees its view at its own time, and
    -- those read twice do no harm. Mobile devices, which are also written without an event, are not
    -- spoken of.
    pub boot_catches_up :
        (end n lead : ℕ) (acts : List Act)
        → boot outside 0 ≡ (ok s, end)
        → ((t : ℕ) → (more : List (List ℕ)) × (published (suc t) ≡ published t ++ more))
        → outside.metadata 3 ≡ some (one_partition s.config.kafka_control_plane_topic partition)
        → outside.high 3 partition ≡ some (length (published 3))
        → ((t : ℕ) (k : Key) (f : Fact)
            → shown (outside.views t) k ≡ some f
            → IsAhead published serde lead t k f)
        → ((offset : ℕ)
            → s.offsets ≡ (partition, offset) ∷ []
            → payloads (inputs_of acts) ≡ drop offset (published (n + lead + 7)))
        → SameControl
            (live serde acts (start s.cache s.offsets)).cache
            (apply_all serde (published (n + lead + 7)) empty)
    boot_catches_up end n lead acts h grows metadata high follows reads k control =
        let offsets = noted-offsets end h metadata high in
        (live-Alike serde k acts (start s.cache s.offsets) (start s.cache s.offsets) control
          (starts-Alike end k h)).same
        ∙ catches_up_at end n lead (inputs_of acts) k h grows offsets follows
            (reads (length (published 3)) offsets) control
