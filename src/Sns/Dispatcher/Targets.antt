-- ===== src/Sns/Dispatcher/Targets.antt =====
-- What the loops of the dispatcher select and count.
use alert_distributor.Base.{
  ℕ, ◌+◌, ◌%◌, ◌≡◌, refl, subst, Bool, ◌&&◌, not, List, [], ◌∷◌, ◌++◌, arith, filter, length,
  length-append, is_empty,
}
use mathlib.Core.List.{append-nil, append_assoc}
use alert_distributor.Sns.Models.{UserDevice, endpoint_is_supported_for_platform}
use alert_distributor.Sns.Metrics.{inc_resolved, u64_mod}
use alert_distributor.Permissions.Cache.{State}
use alert_distributor.Permissions.Cache.Read.{devices_for}
use alert_distributor.Sns.Dispatcher.{Evaluation, evaluate_device, evaluate_devices, evaluate_users}

-- A device that an alert may be pushed to.
abbrev pub is_target : UserDevice → Bool
is_target d = d.is_active && (not (is_empty d.endpoint_arn) && endpoint_is_supported_for_platform d)

-- The devices of all recipients, in order.
abbrev pub candidates : (ℕ → State) → List (ℕ × ℕ) → List UserDevice
candidates cache [] = []
candidates cache ((org, user) ∷ users) = devices_for (cache user) user ++ candidates cache users

filter-append :
    (p : UserDevice → Bool) (xs ys : List UserDevice)
    → filter p (xs ++ ys) ≡ filter p xs ++ filter p ys
filter-append p [] ys = refl
filter-append p (x ∷ xs) ys = ground (arith, filter-append p xs ys)

abbrev pub has_no_endpoint : UserDevice → Bool
has_no_endpoint d = d.is_active && is_empty d.endpoint_arn

abbrev pub is_unsupported : UserDevice → Bool
is_unsupported d =
    d.is_active && (not (is_empty d.endpoint_arn) && not (endpoint_is_supported_for_platform d))

-- From `v`, the evaluation of the devices `ds` of so many users ends in `w`.
pub record Evaluates (v : Evaluation) (ds : List UserDevice) (users : ℕ) (w : Evaluation)
    : Type 0 where
  pub targets : w.sns_targets ≡ v.sns_targets ++ filter is_target ds
  pub permitted : w.permitted_user_count ≡ v.permitted_user_count + users
  pub candidate : w.candidate_device_count ≡ v.candidate_device_count + length ds
  pub empty_endpoints :
      w.skipped_empty_endpoint_count
      ≡ v.skipped_empty_endpoint_count + length (filter has_no_endpoint ds)
  pub unsupported :
      w.skipped_unsupported_endpoint_count
      ≡ v.skipped_unsupported_endpoint_count + length (filter is_unsupported ds)
  pub resolved :
      w.metrics.resolved % u64_mod ≡ (v.metrics.resolved + length (filter is_target ds)) % u64_mod

device-Evaluates : (d : UserDevice) (v : Evaluation) → Evaluates v (d ∷ []) 0 (evaluate_device d v)
unfolding evaluate_device inc_resolved
device-Evaluates d v = ground (arith, append-nil v.sns_targets)

none-Evaluates : (v : Evaluation) → Evaluates v [] 0 v
none-Evaluates v = ground (arith, append-nil v.sns_targets)

user-Evaluates :
    (v : Evaluation)
    → Evaluates v [] 1 (record v { permitted_user_count = v.permitted_user_count + 1 })
user-Evaluates v = ground (arith, append-nil v.sns_targets)

append-Evaluates :
    {u v w : Evaluation} (ds es : List UserDevice) {m n : ℕ}
    → Evaluates u ds m v
    → Evaluates v es n w
    → Evaluates u (ds ++ es) (m + n) w
append-Evaluates {u} {v} {w} ds es {m} {n} h k = record {
  targets =
      rw (filter-append is_target ds es, k.targets, h.targets)
        (append_assoc u.sns_targets (filter is_target ds) (filter is_target es));
  permitted = omega (arith, h.permitted, k.permitted);
  candidate = omega (arith, h.candidate, k.candidate, length-append ds es);
  empty_endpoints = rw (filter-append has_no_endpoint ds es) (
      omega (
        arith,
        h.empty_endpoints,
        k.empty_endpoints,
        length-append (filter has_no_endpoint ds) (filter has_no_endpoint es),
      ));
  unsupported = rw (filter-append is_unsupported ds es) (
      omega (
        arith,
        h.unsupported,
        k.unsupported,
        length-append (filter is_unsupported ds) (filter is_unsupported es),
      ));
  resolved = rw (filter-append is_target ds es) (
      omega
        (arith, h.resolved, k.resolved, length-append (filter is_target ds) (filter is_target es)));
}

devices-Evaluates :
    (ds : List UserDevice) (v : Evaluation) → Evaluates v ds 0 (evaluate_devices ds v)
unfolding evaluate_devices
devices-Evaluates [] v = none-Evaluates v
devices-Evaluates (d ∷ ds) v =
    append-Evaluates (d ∷ []) ds (device-Evaluates d v) (devices-Evaluates ds (evaluate_device d v))

-- The loops of the SNS dispatcher select, in order, exactly the devices of the recipients that are
-- active, have an endpoint and a supported one, and each count (users, candidates, empty endpoints,
-- unsupported endpoints, the `resolved` counter modulo 2^64) grows by the number of what it names.
pub evaluate_users-Evaluates :
    (cache : ℕ → State) (users : List (ℕ × ℕ)) (v : Evaluation)
    → Evaluates v (candidates cache users) (length users) (evaluate_users cache users v)
unfolding evaluate_users
evaluate_users-Evaluates cache [] v = none-Evaluates v
evaluate_users-Evaluates cache ((org, user) ∷ users) v =
    let ds = devices_for (cache user) user in
    let v' : Evaluation = record v { permitted_user_count = v.permitted_user_count + 1 } in
    let one = append-Evaluates [] ds (user-Evaluates v) (devices-Evaluates ds v') in
    subst
      (λ (n : ℕ).
        Evaluates v (ds ++ candidates cache users) n
          (evaluate_users cache users (evaluate_devices ds v')))
      (omega arith)
      (append-Evaluates ds (candidates cache users) one
        (evaluate_users-Evaluates cache users (evaluate_devices ds v')))
