-- ===== src/Sns/Client/Attempts.antt =====
-- How often `publish_to_endpoint` tries, how long it waits, and which answer it returns.
use alert_distributor.Base.{
  ℕ, zero, suc, ◌+◌, ◌*◌, ◌%◌, ◌≤◌, ◌<◌, ◌≡◌, refl, ◌⊎◌, inl, inr, true, false, some, List, [], ◌∷◌,
  arith, length, Bool-cases, dec_lt,
}
use alert_distributor.Sns.Models.{is_retryable}
use alert_distributor.Sns.Metrics.{u64_mod}
use alert_distributor.Sns.Client.{
  Result, ok, err, Answer, sent, refused, SdkError, publish_loop, publish_to_endpoint,
  classify_sdk_error,
}

Answer-cases :
    {Output : Type 0} (a : Answer Output)
    → ((out : Output) × (a ≡ sent out)) ⊎ ((e : SdkError) × (a ≡ refused e))
Answer-cases (sent out) = inl (out, refl)
Answer-cases (refused e) = inr (e, refl)

module _ {Output : Type 0} (send : ℕ → Answer Output) (max_retries : ℕ) where
  -- The attempt fails in a way that is tried again, if any attempt is left.
  abbrev pub Retries : ℕ → Type 0
  Retries i = (e : SdkError) × (send i ≡ refused e) × (is_retryable (classify_sdk_error e) ≡ true)

  -- Attempt `n` is the last: it succeeds, or fails for good, or is the last that is allowed.
  pub data Ends (n : ℕ) (r : Result Output) : Type 0 where
    success : (out : Output) → send n ≡ sent out → r ≡ ok out → Ends n r
    fatal :
        (e : SdkError)
        → send n ≡ refused e
        → is_retryable (classify_sdk_error e) ≡ false
        → r ≡ err (classify_sdk_error e)
        → Ends n r
    exhausted :
        (e : SdkError)
        → send n ≡ refused e
        → n ≡ max_retries
        → r ≡ err (classify_sdk_error e)
        → Ends n r

  -- From attempt `i` on: the attempts before `i + length delays` fail and are tried again, and that
  -- one ends the loop.
  abbrev pub Outcome : ℕ → Result Output → List ℕ → Type 0
  Outcome i r [] = Ends i r
  Outcome i r (d ∷ delays) = Retries i × Outcome (i + 1) r delays

  -- Each delay is twice the one before.
  abbrev pub Doubles : ℕ → List ℕ → Type 0
  Doubles delay [] = Unit
  Doubles delay (d ∷ delays) = (d ≡ delay) × Doubles (delay * 2 % u64_mod) delays

  loop-Outcome :
      (fuel retries delay : ℕ)
      → retries ≤ max_retries
      → max_retries < retries + fuel
      → (r : Result Output) × (delays : List ℕ) × (publish_loop fuel send max_retries retries delay
          ≡ some (r, delays))
        × Outcome retries r delays
        × Doubles delay delays
        × (retries + length delays ≤ max_retries)
  unfolding publish_loop
  loop-Outcome zero retries delay h k = absurd (omega arith)
  loop-Outcome (suc fuel) retries delay h k = elim (Answer-cases (send retries)) [
    | inl (out, e) ↦ (ok out, [], rw (e, publish_loop) refl, success out e refl, tt, omega arith)
    | inr (x, e) ↦ elim (Bool-cases (is_retryable (classify_sdk_error x))) [
      | inr permanent ↦ (
        err (classify_sdk_error x),
        [],
        rw (e, publish_loop) (ground (arith, permanent)),
        fatal x e permanent refl,
        tt,
        omega arith,
      )
      | inl transient ↦ elim (dec_lt retries max_retries) [
        | no last ↦ (
          err (classify_sdk_error x),
          [],
          rw (e, publish_loop) (ground (arith, transient)),
          exhausted x e (omega arith) refl,
          tt,
          omega arith,
        )
        | yes more ↦
            let (r, delays, q, o, d, l) =
              loop-Outcome fuel (retries + 1) (delay * 2 % u64_mod) (omega arith) (omega arith) in
            (
              r,
              delay ∷ delays,
              rw (e, publish_loop) (ground (arith, transient, q)),
              ((x, e, transient), o),
              (refl, d),
              omega arith,
            )
      ]
    ]
  ]

  -- `publish_to_endpoint` returns for every behaviour of SNS and every number of retries: after at
  -- most `max_retries` waits, each twice as long as the one before (modulo 2^64) and the first of
  -- 100 ms, with the answer to the first attempt that succeeds, fails for good, or is the last
  -- allowed; every earlier attempt failed with a retryable error.
  pub publish_to_endpoint_returns :
      (r : Result Output) × (delays : List ℕ) × (publish_to_endpoint send max_retries
        ≡ some (r, delays))
      × Outcome 0 r delays
      × Doubles 100 delays
      × (length delays ≤ max_retries)
  unfolding publish_to_endpoint
  publish_to_endpoint_returns =
      let (r, delays, q, o, d, l) =
        loop-Outcome (suc max_retries) 0 100 (omega arith) (omega arith) in
      (r, delays, q, o, d, omega arith)
