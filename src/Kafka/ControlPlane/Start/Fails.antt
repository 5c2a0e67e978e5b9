-- ===== src/Kafka/ControlPlane/Start/Fails.antt =====
-- The reader starts only at the noted end of every partition of its topic.
use alert_distributor.Base.{
  ℕ, ◌≡◌, refl, ◌∙◌, ap, sym, subst, Bool, true, false, Option, none, some, List, [], ◌∷◌, ◌++◌,
  map, arith, nat_eq, list_eq, ◌==◌, is_empty, if◌then◌else◌, Bool-cases, inl, inr, Option-cases,
}
use mathlib.Core.List.{append-nil, append_assoc}
use alert_distributor.Text.{Text}
use alert_distributor.Kafka.ControlPlane.Start.{
  TopicMetadata, Start, StartError, ready, failed, ready_or, ◌>>=◌, kafka_error,
  control_plane_unavailable, collect_partitions, some_readable, fetch_offsets,
  prepare_control_plane_consumer,
}

-- The partitions of the topics of that name.
abbrev pub partitions_of : Text → List TopicMetadata → List ℕ
partitions_of topic [] = []
partitions_of topic (t ∷ ts) =
    let rest = partitions_of topic ts in if t.name == topic then t.partitions ++ rest else rest

-- Each partition with its end.
abbrev pub NotesEnds : (ℕ → Option ℕ) → List (ℕ × ℕ) → Type 0
NotesEnds high [] = Unit
NotesEnds high ((partition, offset) ∷ offsets) =
    (high partition ≡ some offset) × NotesEnds high offsets

bind_ready :
    {A B : Type 0} (m : Start A) (f : A → Start B) {b : B}
    → (m >>= f) ≡ ready b
    → (a : A) × (m ≡ ready a) × (f a ≡ ready b)
bind_ready (ready a) f h = (a, refl, h)
bind_ready (failed e) f h = cc

ready_or-ready :
    {A : Type 0} (o : Option A) (e : StartError) {a : A} → ready_or o e ≡ ready a → o ≡ some a
ready_or-ready none e h = cc
ready_or-ready (some a) e h = cc

fetch_offsets-NotesEnds :
    (high : ℕ → Option ℕ) (partitions : List ℕ) {offsets : List (ℕ × ℕ)}
    → fetch_offsets high partitions ≡ ready offsets
    → (map (λ p. p.0) offsets ≡ partitions) × NotesEnds high offsets
unfolding fetch_offsets
fetch_offsets-NotesEnds high [] {offsets} e =
    let same : ◌≡◌ {A = List (ℕ × ℕ)} [] offsets = cc in
    subst (λ (o : List (ℕ × ℕ)). (map (λ p. p.0) o ≡ []) × NotesEnds high o) same (refl, tt)
fetch_offsets-NotesEnds high (p ∷ ps) {offsets} e =
    let (offset, h, e') = bind_ready (ready_or (high p) control_plane_unavailable) _ e in
    let (rest, k, e'') = bind_ready (fetch_offsets high ps) _ e' in
    let (names, ends) = fetch_offsets-NotesEnds high ps k in
    let same : (p, offset) ∷ rest ≡ offsets = cc in
    subst (λ (o : List (ℕ × ℕ)). (map (λ q. q.0) o ≡ p ∷ ps) × NotesEnds high o) same
      (ap (◌∷◌ p) names, (ready_or-ready (high p) control_plane_unavailable h, ends))

-- No topic of that name came with an error.
abbrev pub HasNoError : Text → List TopicMetadata → Type 0
HasNoError topic [] = Unit
HasNoError topic (t ∷ ts) = ((t.name == topic) ≡ true → t.error ≡ none) × HasNoError topic ts

collect_partitions-eq :
    (topic : Text) (ts : List TopicMetadata) (before : List ℕ) {found : List ℕ}
    → collect_partitions topic ts before ≡ ready found
    → (found ≡ before ++ partitions_of topic ts) × HasNoError topic ts
unfolding collect_partitions
collect_partitions-eq topic [] before {found} e = (ground (arith, append-nil before), tt)
collect_partitions-eq topic (t ∷ ts) before {found} e = elim (Bool-cases (t.name == topic)) [
  | inr other ↦
      let e' : collect_partitions topic ts before ≡ ready found =
        rw (other, collect_partitions) at e in
      let (l, h) = collect_partitions-eq topic ts before e' in (rw other l, (λ same. cc, h))
  | inl named ↦ elim (Option-cases t.error) [
    | inr (err, bad) ↦ ground (arith, named, bad)
    | inl good ↦
        let e' : collect_partitions topic ts (before ++ t.partitions) ≡ ready found =
          ground (arith, named, good) in
        let (l, h) = collect_partitions-eq topic ts (before ++ t.partitions) e' in
        (
          rw named (l ∙ append_assoc before t.partitions (partitions_of topic ts)),
          (λ same. good, h),
        )
  ]
]

some_readable-ready :
    (partitions : List ℕ) {found : List ℕ}
    → some_readable partitions ≡ ready found
    → (partitions ≡ found) × (is_empty found ≡ false)
some_readable-ready [] h = cc
some_readable-ready (p ∷ ps) {found} h =
    let same : p ∷ ps ≡ found = cc in (same, ap is_empty (sym same))

-- When the preparation of the reader succeeds, the consumer was created, the broker answered for
-- the topic with no error, the topic has a partition, and the offsets noted are the ends that the
-- broker gave for each partition, in its order.
pub prepare_control_plane_consumer_ready :
    (topic : Text) (created : Bool) (metadata : Option (List TopicMetadata)) (high : ℕ → Option ℕ)
    (offsets : List (ℕ × ℕ))
    → prepare_control_plane_consumer topic created metadata high ≡ ready offsets
    → (topics : List TopicMetadata) × (created ≡ true)
      × (metadata ≡ some topics)
      × HasNoError topic topics
      × (is_empty (partitions_of topic topics) ≡ false)
      × (map (λ p. p.0) offsets ≡ partitions_of topic topics)
      × NotesEnds high offsets
unfolding prepare_control_plane_consumer
prepare_control_plane_consumer_ready topic created metadata high offsets e =
    let (client, c, e₁) =
      bind_ready (ready_or (if created then some tt else none) kafka_error) _ e in
    let (topics, m, e₂) = bind_ready (ready_or metadata control_plane_unavailable) _ e₁ in
    let (found, f, e₃) = bind_ready (collect_partitions topic topics []) _ e₂ in
    let (partitions, s, e₄) = bind_ready (some_readable found) _ e₃ in
    let (l, clean) = collect_partitions-eq topic topics [] f in
    let (same, used) = some_readable-ready found s in
    let (names, ends) = fetch_offsets-NotesEnds high partitions e₄ in
    (
      topics,
      ground arith,
      ready_or-ready metadata control_plane_unavailable m,
      clean,
      ground arith,
      names ∙ (sym same ∙ l),
      ends,
    )
