-- ===== src/Kafka/ControlPlane/Consumer/Lag.antt =====
-- The lag that a probe measures, and what `/health` can be told from.
use alert_distributor.Base.{
  ℕ, ◌+◌, ◌-◌, ◌≤◌, ◌≡◌, refl, ◌∙◌, ap, ◌↔◌, Bool, true, false, Option, some, List, [], ◌∷◌, ◌++◌,
  is_some, arith, nat_eq, Option-cases, Bool-cases, sym, ◌==◌, ==_iff, inl, inr,
}
use mathlib.Core.Option.{some-injective}
use alert_distributor.HashMap.{HashMap, get}
use alert_distributor.Kafka.ControlPlane.{Serde}
use alert_distributor.Kafka.ControlPlane.Consumer.{
  Input, probe, received, receive_failed, Consumer, lag, step, run, mark_applied, mark_error,
  probed, mark_ok,
}

-- Every end is known, and the reader is there.
abbrev pub CaughtUp : (ℕ → Option ℕ) → HashMap ℕ ℕ → Type 0
CaughtUp high [] = Unit
CaughtUp high ((partition, next_offset) ∷ next) =
    ((end : ℕ) × (high partition ≡ some end) × (end ≤ next_offset)) × CaughtUp high next

lag_from :
    (high : ℕ → Option ℕ) (next : HashMap ℕ ℕ) (total : ℕ)
    → (lag high next total ≡ some 0) ↔ ((total ≡ 0) × CaughtUp high next)
unfolding lag
lag_from high [] total = (λ e. (ground arith, tt), λ h. ground (arith, h.0))
lag_from high ((p, n) ∷ next) total = elim (Option-cases (high p)) [
  | inl e ↦ rw (e, lag) (λ x. cc, λ h. cc (h.1.0.1))
  | inr (end, e) ↦
      let ih = lag_from high next (total + (end - n)) in
      rw (e, lag)
        (
          λ x.
              let (zeros, rest) = ih.0 x in
              (omega (arith, zeros), ((end, refl, omega (arith, zeros)), rest)),
          λ (zeros, ((end', e', h), rest)). ih.1 (caught zeros (same e') h, rest),
        )
]
  where
    same : {a b : ℕ} → some a ≡ some b → a ≡ b
    same x = ground arith

    caught : {a b : ℕ} → total ≡ 0 → a ≡ b → b ≤ n → total + (a - n) ≡ 0
    caught x y z = omega arith

-- A probe measures no lag exactly when the broker gives the end of every partition and each was
-- read to its end or beyond.
pub lag_zero :
    (high : ℕ → Option ℕ) (next : HashMap ℕ ℕ) → (lag high next 0 ≡ some 0) ↔ CaughtUp high next
lag_zero high next = let h = lag_from high next 0 in (λ e. (h.0 e).1, λ caught. h.1 (refl, caught))

-- Such a reader is at the end of each partition that it reads.
pub CaughtUp-get :
    (high : ℕ → Option ℕ) (next : HashMap ℕ ℕ) (partition offset : ℕ) {end : ℕ}
    → CaughtUp high next
    → get partition next ≡ some offset
    → high partition ≡ some end
    → end ≤ offset
unfolding get
CaughtUp-get high [] partition offset c e h = absurd cc
CaughtUp-get high ((p, n) ∷ next) partition offset {end} ((last, known, reached), c) e h =
    elim (Bool-cases (p == partition)) [
      | inl here ↦
          let same : p ≡ partition = ground (arith, ==_iff p partition, here) in
          let at : n ≡ offset = ground (arith, e, here) in
          let ends : some last ≡ some end = sym known ∙ (ap high same ∙ h) in
          omega (arith, some-injective last end ends, at, reached)
      | inr other ↦ CaughtUp-get high next partition offset c (ground (arith, e, other)) h
    ]

-- Whether an input shows that the topic can be read, where the reader is at `next`.
abbrev pub shows_readable : Input → HashMap ℕ ℕ → Bool
shows_readable (probe high) next = is_some (lag high next 0)
shows_readable (received m) next = true
shows_readable receive_failed next = false

module _ (serde : Serde) where
  pub run-append :
      (inputs more : List Input) (c : Consumer)
      → run serde (inputs ++ more) c ≡ run serde more (run serde inputs c)
  unfolding run
  run-append [] more c = refl
  run-append (i ∷ inputs) more c = run-append inputs more (step serde i c)

  step-ok : (i : Input) (c : Consumer) → (step serde i c).health.ok ≡ shows_readable i c.next
  unfolding step mark_applied mark_error probed
  step-ok (probe high) c = ground arith
  step-ok (received m) c = refl
  step-ok receive_failed c = refl

  -- After any inputs, health tells whether the last one showed that the topic can be read: a
  -- message does, a receive failure does not, and a probe does when every partition answers; so a
  -- probe alone recovers it after a failure.
  pub health-run :
      (inputs : List Input) (i : Input) (c : Consumer)
      → (run serde (inputs ++ i ∷ []) c).health.ok ≡ shows_readable i (run serde inputs c).next
  unfolding run
  health-run inputs i c =
      ap (λ (d : Consumer). d.health.ok) (run-append inputs (i ∷ []) c)
      ∙ step-ok i (run serde inputs c)

  -- A probe that leaves the reader healthy and without lag found every partition read to its end.
  pub probe-CaughtUp :
      (high : ℕ → Option ℕ) (inputs : List Input) (c : Consumer)
      → (run serde (inputs ++ probe high ∷ []) c).health.ok ≡ true
      → (run serde (inputs ++ probe high ∷ []) c).health.lag ≡ 0
      → CaughtUp high (run serde inputs c).next
  unfolding run step probed mark_ok mark_error
  probe-CaughtUp high inputs c fine none_left =
      let d = run serde inputs c in
      let split = run-append inputs (probe high ∷ []) c in
      let fine' : (step serde (probe high) d).health.ok ≡ true =
        sym (ap (λ (x : Consumer). x.health.ok) split) ∙ fine in
      let left' : (step serde (probe high) d).health.lag ≡ 0 =
        sym (ap (λ (x : Consumer). x.health.lag) split) ∙ none_left in
      elim (Option-cases (lag high d.next 0)) [
        | inl e ↦ absurd (ground (arith, e, fine'))
        | inr (total, e) ↦
            let zeros : total ≡ 0 = ground (arith, e, left') in
            (lag_zero high d.next).0 (e ∙ ap some zeros)
      ]
