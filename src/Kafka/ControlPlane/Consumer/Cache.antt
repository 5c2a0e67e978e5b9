-- ===== src/Kafka/ControlPlane/Consumer/Cache.antt =====
-- The loop refines the plain sequence of messages: the cache and the next offsets depend on the
-- messages alone.
use alert_distributor.Base.{
  ℕ, ◌+◌, ◌≡◌, refl, ◌∙◌, ap, Option, none, some, List, [], ◌∷◌, arith, nat_eq, ◌==◌, if◌then◌else◌,
  Option-cases, inl, inr,
}
use alert_distributor.HashMap.{get, get-insert}
use alert_distributor.Kafka.ControlPlane.{Serde}
use alert_distributor.Kafka.ControlPlane.Replay.{apply_all}
use alert_distributor.Kafka.ControlPlane.Consumer.{
  Input, probe, received, receive_failed, Consumer, step, run,
}

-- The payloads that are there, in the order of arrival.
abbrev pub payloads : List Input → List (List ℕ)
payloads [] = []
payloads (probe high ∷ inputs) = payloads inputs
payloads (receive_failed ∷ inputs) = payloads inputs
payloads (received m ∷ inputs) = elim m.payload [
  | none ↦ payloads inputs
  | some payload ↦ payload ∷ payloads inputs
]

-- The offset behind the last message of a partition, or the one to start from.
abbrev pub offset_after : List Input → ℕ → Option ℕ → Option ℕ
offset_after [] partition first = first
offset_after (probe high ∷ inputs) partition first = offset_after inputs partition first
offset_after (receive_failed ∷ inputs) partition first = offset_after inputs partition first
offset_after (received m ∷ inputs) partition first =
    offset_after inputs partition (if m.partition == partition then some (m.offset + 1) else first)

module _ (serde : Serde) where
  -- After any inputs, the cache of the reader is what the messages with a payload, applied in
  -- order, make of the cache it started from; probes, receive failures and messages without payload
  -- leave it alone.
  pub cache-run :
      (inputs : List Input) (c : Consumer)
      → (run serde inputs c).cache ≡ apply_all serde (payloads inputs) c.cache
  unfolding run step apply_all
  cache-run [] c = refl
  cache-run (probe high ∷ inputs) c = cache-run inputs (step serde (probe high) c)
  cache-run (receive_failed ∷ inputs) c = cache-run inputs (step serde receive_failed c)
  cache-run (received m ∷ inputs) c = elim (Option-cases m.payload) [
    | inl e ↦ rw (cache-run inputs (step serde (received m) c)) (ground (arith, e))
    | inr (payload, e) ↦ rw (cache-run inputs (step serde (received m) c)) (ground (arith, e))
  ]

  -- After any inputs, the next offset of a partition is the one behind the last message received
  -- from it, or where the reader started when none was.
  pub next-run :
      (inputs : List Input) (c : Consumer) (partition : ℕ)
      → get partition (run serde inputs c).next
        ≡ offset_after inputs partition (get partition c.next)
  unfolding run step
  next-run [] c partition = refl
  next-run (probe high ∷ inputs) c partition = next-run inputs (step serde (probe high) c) partition
  next-run (receive_failed ∷ inputs) c partition =
      next-run inputs (step serde receive_failed c) partition
  next-run (received m ∷ inputs) c partition =
      next-run inputs (step serde (received m) c) partition
      ∙ ap (offset_after inputs partition) (get-insert m.partition partition (m.offset + 1) c.next)
