-- ===== src/Kafka/ControlPlane/Consumer/Task.antt =====
-- How the task of the control plane begins: the assignment of the noted ends, and what fails in it.
use alert_distributor.Base.{ℕ, ◌≡◌, refl, ◌⊎◌, inl, inr, List, [], ◌∷◌}
use alert_distributor.Text.{Text}
use alert_distributor.Errors.{AppResult, ok, err, Attempt, done, failed, kafka}
use alert_distributor.Permissions.Cache.{State}
use alert_distributor.Kafka.ControlPlane.{Serde}
use alert_distributor.Kafka.ControlPlane.Consumer.{
  Input, Consumer, start, run, add_offsets, run_control_plane_consumer,
}

-- Every noted end was added.
abbrev pub AreAdded : (ℕ → ℕ → Attempt (Unit {0})) → List (ℕ × ℕ) → Type 0
AreAdded add [] = Unit
AreAdded add ((partition, offset) ∷ rest) = (add partition offset ≡ done tt) × AreAdded add rest

-- The first end that was not added, with those before it.
abbrev pub FailsAt : (ℕ → ℕ → Attempt (Unit {0})) → List (ℕ × ℕ) → Text → Type 0
FailsAt add [] detail = ⊥
FailsAt add ((partition, offset) ∷ rest) detail =
    (add partition offset ≡ failed detail)
    ⊎ ((add partition offset ≡ done tt) × FailsAt add rest detail)

-- What became of the assignment.
pub data Assigns (add : ℕ → ℕ → Attempt (Unit {0})) (assign : Attempt (Unit {0}))
    (offsets : List (ℕ × ℕ)) (c : Consumer) : AppResult Consumer → Type 0 where
  not_added :
      (detail : Text)
      → FailsAt add offsets detail
      → Assigns add assign offsets c (err (kafka detail))
  not_assigned :
      (detail : Text)
      → AreAdded add offsets
      → assign ≡ failed detail
      → Assigns add assign offsets c (err (kafka detail))
  reads_on : AreAdded add offsets → assign ≡ done tt → Assigns add assign offsets c (ok c)

Attempt-cases :
    {A : Type 0} (m : Attempt A)
    → ((a : A) × (m ≡ done a)) ⊎ ((detail : Text) × (m ≡ failed detail))
Attempt-cases (done a) = inl (a, refl)
Attempt-cases (failed detail) = inr (detail, refl)

add_offsets-cases :
    (add : ℕ → ℕ → Attempt (Unit {0})) (offsets : List (ℕ × ℕ))
    → ((add_offsets add offsets ≡ ok tt) × AreAdded add offsets)
      ⊎ ((detail : Text) × (add_offsets add offsets ≡ err (kafka detail))
          × FailsAt add offsets detail)
unfolding add_offsets
add_offsets-cases add [] = inl (refl, tt)
add_offsets-cases add ((partition, offset) ∷ rest) = elim (Attempt-cases (add partition offset)) [
  | inr (detail, e) ↦ inr (detail, rw (e, add_offsets) refl, inl e)
  | inl (added, e) ↦ elim (add_offsets-cases add rest) [
    | inl (k, h) ↦ inl (rw (e, add_offsets) k, (e, h))
    | inr (detail, k, h) ↦ inr (detail, rw (e, add_offsets) k, inr (e, h))
  ]
]

-- The task of the control plane fails with the error of the first noted end that cannot be added to
-- the assignment, the ends before it having been added, or, when all were added, with the error of
-- the assignment; when both succeed it reads on from the noted ends.
pub run_control_plane_consumer-Assigns :
    (serde : Serde) (add : ℕ → ℕ → Attempt (Unit {0})) (assign : Attempt (Unit {0})) (cache : State)
    (offsets : List (ℕ × ℕ)) (inputs : List Input)
    → Assigns add assign offsets
        (run serde inputs (start cache offsets))
        (run_control_plane_consumer serde add assign cache offsets inputs)
unfolding run_control_plane_consumer
run_control_plane_consumer-Assigns serde add (done assigned) cache offsets inputs =
    elim (add_offsets-cases add offsets) [
      | inr (detail, e, h) ↦ rw (run_control_plane_consumer, e) (not_added detail h)
      | inl (e, h) ↦ rw (run_control_plane_consumer, e) (reads_on h refl)
    ]
run_control_plane_consumer-Assigns serde add (failed detail) cache offsets inputs =
    elim (add_offsets-cases add offsets) [
      | inr (first, e, h) ↦ rw (run_control_plane_consumer, e) (not_added first h)
      | inl (e, h) ↦ rw (run_control_plane_consumer, e) (not_assigned detail h refl)
    ]
