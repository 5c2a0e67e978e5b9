-- ===== src/Main/Current.antt =====
-- What /health tells: a probe without lag means that the cache is up to date.
use mathlib.Core.List.{append-nil}
use mathlib.Core.Option.{some-injective}
use alert_distributor.Base.{
  ℕ, zero, suc, ◌+◌, ◌≤◌, ◌≡◌, refl, sym, ap, ◌∙◌, true, Option, none, some, List, [], ◌∷◌, ◌++◌,
  arith, length, nat_eq, inl, inr, ==_refl, subst, Option-cases,
}
use alert_distributor.HashMap.{get, insert, get-insert}
use alert_distributor.Errors.{ok}
use alert_distributor.Permissions.Cache.{State, empty}
use alert_distributor.Permissions.Cache.Facts.{Key, user, Fact}
use alert_distributor.Permissions.Loader.Shows.{SameControl, shown}
use alert_distributor.Kafka.ControlPlane.{Serde}
use alert_distributor.Kafka.ControlPlane.Replay.{apply_all}
use alert_distributor.Kafka.ControlPlane.Consumer.{
  ControlPlaneHealth, Input, probe, received, receive_failed, start, run,
}
use alert_distributor.Kafka.ControlPlane.Consumer.Cache.{payloads, offset_after, next-run}
use alert_distributor.Kafka.ControlPlane.Consumer.Lag.{CaughtUp-get, probe-CaughtUp}
use alert_distributor.Main.{Outside, Started, boot}
use alert_distributor.Main.Shared.{Act, reads, retires, inputs_of, live, live-Alike}
use alert_distributor.Main.CatchUp.{
  IsAhead, drop, noted-offsets, one_partition, starts-Alike, boot_catches_up,
}

-- What the log holds at an offset.
abbrev pub get_elem? : {A : Type 0} → List A → ℕ → Option A
get_elem? [] n = none
get_elem? (x ∷ l) zero = some x
get_elem? (x ∷ l) (suc n) = get_elem? l n

-- The reader gets the records of one partition, from an offset on: each is the next of the log, none
-- is left out and none comes twice. Failures and probes may come between.
abbrev pub InOrder : ℕ → List (List ℕ) → ℕ → List Input → Type 0
InOrder partition log at [] = Unit
InOrder partition log at (probe high ∷ inputs) = InOrder partition log at inputs
InOrder partition log at (receive_failed ∷ inputs) = InOrder partition log at inputs
InOrder partition log at (received m ∷ inputs) =
    (m.partition ≡ partition)
    × (m.offset ≡ at)
    × ((payload : List ℕ) × (m.payload ≡ some payload) × (get_elem? log at ≡ some payload))
    × InOrder partition log (suc at) inputs

drop-get :
    {A : Type 0} (l : List A) (n : ℕ) {x : A}
    → get_elem? l n ≡ some x
    → drop n l ≡ x ∷ drop (suc n) l
drop-get [] n h = absurd cc
drop-get (y ∷ l) zero h = ap (λ z. z ∷ l) (some-injective _ _ h)
drop-get (y ∷ l) (suc n) h = drop-get l n h

drop_all : {A : Type 0} (n : ℕ) (l : List A) → length l ≤ n → drop n l ≡ []
drop_all zero [] h = refl
drop_all (suc n) [] h = refl
drop_all zero (x ∷ l) h = absurd (omega (arith, h))
drop_all (suc n) (x ∷ l) h = drop_all n l (omega (arith, h))

-- How far such a reader got: what it read, before what is left, is the log from where it started.
record Got (partition : ℕ) (log : List (List ℕ)) (at : ℕ) (inputs : List Input) : Type 0 where
  next : ℕ
  reached : offset_after inputs partition (some at) ≡ some next
  split : drop at log ≡ payloads inputs ++ drop next log

InOrder-Got :
    (partition : ℕ) (log : List (List ℕ)) (at : ℕ) (inputs : List Input)
    → InOrder partition log at inputs
    → Got partition log at inputs
InOrder-Got partition log at [] o = record { next = at; reached = refl; split = refl }
InOrder-Got partition log at (probe high ∷ inputs) o =
    let g = InOrder-Got partition log at inputs o in
    record { next = g.next; reached = g.reached; split = g.split }
InOrder-Got partition log at (receive_failed ∷ inputs) o =
    let g = InOrder-Got partition log at inputs o in
    record { next = g.next; reached = g.reached; split = g.split }
InOrder-Got partition log at (received m ∷ inputs) (p, a, (payload, e, f), o) =
    let g = InOrder-Got partition log (suc at) inputs o in
    record {
      next = g.next;
      reached =
          rw (p, ==_refl partition)
            (ap (offset_after inputs partition) (ap some (ap (λ k. k + 1) a ∙ omega arith))
              ∙ g.reached);
      split = rw e (drop-get log at f ∙ ap (λ l. payload ∷ l) g.split);
    }

starts_at :
    (cache : State) (partition first : ℕ)
    → get partition (start cache ((partition, first) ∷ [])).next ≡ some first
unfolding start get insert
starts_at cache partition first =
    ground (arith, get-insert partition partition first [], ==_refl partition)

inputs_of-append :
    (acts : List Act) (high : ℕ → Option ℕ)
    → inputs_of (acts ++ reads (probe high) ∷ []) ≡ inputs_of acts ++ probe high ∷ []
inputs_of-append [] high = refl
inputs_of-append (reads i ∷ acts) high = ap (λ l. i ∷ l) (inputs_of-append acts high)
inputs_of-append (retires id ∷ acts) high = inputs_of-append acts high

payloads-append :
    (inputs : List Input) (high : ℕ → Option ℕ)
    → payloads (inputs ++ probe high ∷ []) ≡ payloads inputs
payloads-append [] high = refl
payloads-append (probe h ∷ inputs) high = payloads-append inputs high
payloads-append (receive_failed ∷ inputs) high = payloads-append inputs high
payloads-append (received m ∷ inputs) high = elim (Option-cases m.payload) [
  | inl e ↦ rw e (payloads-append inputs high)
  | inr (p, e) ↦ rw e (ap (λ l. p ∷ l) (payloads-append inputs high))
]

-- A probe reads nothing.
payloads-probe :
    (acts : List Act) (high : ℕ → Option ℕ)
    → payloads (inputs_of (acts ++ reads (probe high) ∷ [])) ≡ payloads (inputs_of acts)
payloads-probe acts high =
    ap payloads (inputs_of-append acts high) ∙ payloads-append (inputs_of acts) high

module _ (published : ℕ → List (List ℕ)) (serde : Serde) (outside : Outside) (partition : ℕ)
    (s : Started outside) where
  -- When the process has started, the control-plane topic has one partition whose messages are only
  -- added to, the broker gave its end when the offsets were noted and at a later probe, each of the
  -- four views of users, memberships, grants and assignments shows at any time the facts of the
  -- messages published by then or by a later time, at most `lead` ahead, and the reader received,
  -- from the noted offset on, the records of the partition one offset after the other, each with
  -- its payload, then the probe, at a time `lead` or more past the queries, that leaves health ok
  -- and the lag 0 shows that the cache holds exactly the user, membership, grant and assignment
  -- facts of all messages published until then, whatever failures and probes came between and
  -- whatever devices the worker retired.
  pub health_is_current :
      (end n lead : ℕ) (acts : List Act)
      → boot outside 0 ≡ (ok s, end)
      → ((t : ℕ) → (more : List (List ℕ)) × (published (suc t) ≡ published t ++ more))
      → outside.metadata 3 ≡ some (one_partition s.config.kafka_control_plane_topic partition)
      → outside.high 3 partition ≡ some (length (published 3))
      → outside.high (n + lead + 7) partition ≡ some (length (published (n + lead + 7)))
      → ((t : ℕ) (k : Key) (f : Fact)
          → shown (outside.views t) k ≡ some f
          → IsAhead published serde lead t k f)
      → ((offset : ℕ)
          → s.offsets ≡ (partition, offset) ∷ []
          → InOrder partition (published (n + lead + 7)) offset (inputs_of acts))
      → (live serde
          (acts ++ reads (probe (outside.high (n + lead + 7))) ∷ [])
          (start s.cache s.offsets)).health.ok
        ≡ true
      → (live serde
          (acts ++ reads (probe (outside.high (n + lead + 7))) ∷ [])
          (start s.cache s.offsets)).health.lag
        ≡ 0
      → SameControl
          (live serde
            (acts ++ reads (probe (outside.high (n + lead + 7))) ∷ [])
            (start s.cache s.offsets)).cache
          (apply_all serde (published (n + lead + 7)) empty)
  health_is_current end n lead acts h grows metadata high last follows in_order fine none_left =
      let c = start s.cache s.offsets in
      let now = outside.high (n + lead + 7) in
      let log = published (n + lead + 7) in
      let first = length (published 3) in
      let probing = acts ++ reads (probe now) ∷ [] in
      let inputs = inputs_of acts in
      let offsets : s.offsets ≡ (partition, first) ∷ [] =
        noted-offsets published serde outside partition s end h metadata high in
      let starts : get partition c.next ≡ some first =
        subst (λ (os : List (ℕ × ℕ)). get partition (start s.cache os).next ≡ some first)
          (sym offsets) (starts_at s.cache partition first) in
      let got = InOrder-Got partition log first inputs (in_order first offsets) in
      let at : get partition (run serde inputs c).next ≡ some got.next =
        next-run serde inputs c partition
        ∙ (ap (offset_after inputs partition) starts ∙ got.reached) in
      let split : inputs_of probing ≡ inputs ++ probe now ∷ [] = inputs_of-append acts now in
      let alike =
        (live-Alike serde (user 0) probing c c tt
          (starts-Alike published serde outside partition s end (user 0) h)).health
        ∙ ap (λ i. (run serde i c).health) split in
      let reached : length log ≤ got.next =
        CaughtUp-get now (run serde inputs c).next partition got.next
          (probe-CaughtUp serde now inputs c
            (sym (ap (λ (x : ControlPlaneHealth). x.ok) alike) ∙ fine)
            (sym (ap (λ (x : ControlPlaneHealth). x.lag) alike) ∙ none_left))
          at last in
      let read : payloads inputs ≡ drop first log = sym (
        got.split
        ∙ (ap (λ l. payloads inputs ++ l) (drop_all got.next log reached)
            ∙ append-nil (payloads inputs))) in
      boot_catches_up published serde outside partition s end n lead probing h grows metadata high
        follows
        λ offset f.
          let same : first ≡ offset = offset_of (sym offsets ∙ f) in
          payloads-probe acts now ∙ (read ∙ ap (λ o. drop o log) same)
    where
      offset_of :
          {a b : ℕ} → ◌≡◌ {A = List (ℕ × ℕ)} ((partition, a) ∷ []) ((partition, b) ∷ []) → a ≡ b
      offset_of e = cc
