-- ===== src/Kafka/ControlPlane/Replay.antt =====
-- The topic as a sequence of messages: what is skipped changes nothing, the last word on a key
-- stands, and a stretch that is read again leaves every fact as it was.
use alert_distributor.Base.{
  ℕ, ◌≡◌, refl, ap, ◌∙◌, false, Option, none, some, List, [], ◌∷◌, arith, nat_eq, list_eq,
  unwrap_or, and_then, Option-cases, inl, inr,
}
use alert_distributor.Permissions.Cache.{State}
use alert_distributor.Permissions.Cache.Invariant.{Inv}
use alert_distributor.Permissions.Cache.Facts.{
  Key, Fact, fact, Overwrites, Overwrites-id, Overwrites-compose, Overwrites-twice,
}
use alert_distributor.Permissions.Cache.Facts.Assertions.{Assertion, asserted}
use alert_distributor.Kafka.ControlPlane.Says.{is_applied, says}
use alert_distributor.Kafka.ControlPlane.Events.{Does, apply_event-Does, apply_event-Overwrites}
use alert_distributor.Kafka.ControlPlane.{Serde, Applied, apply_event}

skips :
    (m : Option Assertion) (f : State → Applied × State) (s : State)
    → Does m f
    → is_applied (f s).0 ≡ false
    → (f s).1 ≡ s
skips none f s d h = d.effect s
skips (some a) f s d h = absurd (ground (arith, d.result s))

fact-Does :
    (m : Option Assertion) (f : State → Applied × State) (k : Key) (s : State)
    → Does m f
    → Inv s
    → fact k (f s).1 ≡ unwrap_or (and_then m (λ a. asserted a k)) (fact k s)
fact-Does none f k s d v = ap (fact k) (d.effect s)
fact-Does (some a) f k s d v = d.effect.at k s v

module _ (serde : Serde) where
  -- A message that is not applied (one that does not parse, has another schema version or names an
  -- unknown entity) leaves the cache as it was.
  pub apply_event_skips :
      (payload : List ℕ) (s : State)
      → is_applied (apply_event serde payload s).0 ≡ false
      → (apply_event serde payload s).1 ≡ s
  apply_event_skips payload s h =
      skips (says serde payload) (apply_event serde payload) s (apply_event-Does serde payload) h

  -- What the reader of the topic does with its messages, in order.
  unfoldable pub apply_all : List (List ℕ) → State → State
  apply_all [] s = s
  apply_all (payload ∷ rest) s = apply_all rest (apply_event serde payload s).1

  pub apply_all-Overwrites : (payloads : List (List ℕ)) → Overwrites (apply_all payloads)
  unfolding apply_all
  apply_all-Overwrites [] = Overwrites-id
  apply_all-Overwrites (payload ∷ rest) =
      Overwrites-compose (λ s. (apply_event serde payload s).1) (apply_all rest)
        (apply_event-Overwrites serde payload) (apply_all-Overwrites rest)

  -- Whatever the messages, the cache stays well formed.
  pub apply_all-Inv : (payloads : List (List ℕ)) (s : State) → Inv s → Inv (apply_all payloads s)
  apply_all-Inv payloads s v = (apply_all-Overwrites payloads).keeps s v

  -- From a well-formed cache, applying a sequence of messages a second time changes none of the
  -- facts they assert (user status, membership, grant, device assignment, mobile device): a
  -- snapshot that already holds the messages does no harm when they are read again.
  pub apply_all_twice :
      (payloads : List (List ℕ)) (s : State) (k : Key)
      → Inv s
      → fact k (apply_all payloads (apply_all payloads s)) ≡ fact k (apply_all payloads s)
  apply_all_twice payloads s k v =
      Overwrites-twice (apply_all payloads) (apply_all-Overwrites payloads) k s v

  -- What the last message that speaks of a key says of it.
  abbrev pub last_word : List (List ℕ) → Key → Option Fact
  last_word [] k = none
  last_word (payload ∷ rest) k = elim (last_word rest k) [
    | some v ↦ some v
    | none ↦ and_then (says serde payload) (λ a. asserted a k)
  ]

  -- From a well-formed cache, what a sequence of messages leaves under a key (the status of a user,
  -- a membership, a grant, the assignment of a device, a mobile device) is what the last message
  -- that speaks of the key says, and what was there before when none does.
  pub apply_all-last_word :
      (payloads : List (List ℕ)) (k : Key) (s : State)
      → Inv s
      → fact k (apply_all payloads s) ≡ unwrap_or (last_word payloads k) (fact k s)
  unfolding apply_all
  apply_all-last_word [] k s v = refl
  apply_all-last_word (payload ∷ rest) k s v =
      let next = (apply_event serde payload s).1 in
      let w = (apply_event-Overwrites serde payload).keeps s v in
      let later = apply_all-last_word rest k next w in
      let now =
        fact-Does (says serde payload) (apply_event serde payload) k s
          (apply_event-Does serde payload) v in
      elim (Option-cases (last_word rest k)) [
        | inl e ↦ rw e (rw e at later ∙ now)
        | inr (x, e) ↦ rw e (rw e at later)
      ]
