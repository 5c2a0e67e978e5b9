-- ===== src/Kafka/ControlPlane/Revocation.antt =====
-- What a revocation in the control-plane topic is worth: whoever it names is sent nothing and sees
-- nothing.
use alert_distributor.Base.{
  ℕ, ◌≡◌, refl, ap, ◌∙◌, ◌⊎◌, inl, inr, Bool, false, Option, none, some, List, [], arith, nat_eq,
  pair_eq, list_eq, contains, unwrap_or, Option-cases,
}
use alert_distributor.HashMap.{get, get₂}
use alert_distributor.Permissions.Cache.{State, Membership, user_is_active, active_membership}
use alert_distributor.Permissions.Cache.Invariant.{Inv}
use alert_distributor.Permissions.Cache.Read.{users_for_unit, units_for}
use alert_distributor.Permissions.Cache.Visibility.{contains-users_for_unit}
use alert_distributor.Permissions.Cache.Facts.{Key, user, member, Fact, status, membership, fact}
use alert_distributor.Kafka.ControlPlane.{Serde}
use alert_distributor.Kafka.ControlPlane.Replay.{
  apply_all, apply_all-Inv, last_word, apply_all-last_word,
}

member_of : Fact → Option Membership
member_of (membership m) = m
member_of _ = none

status_of : Fact → Option Bool
status_of (status b) = b
status_of _ = none

-- Nobody is sent alerts or shown units on an inactive membership.
inactive_gets_nothing :
    (s : State) (org u : ℕ)
    → Inv s
    → active_membership s org u ≡ none
    → ((unit : ℕ) → contains {A = ℕ × ℕ} (org, u) (users_for_unit s unit) ≡ false)
      × (units_for s org u ≡ [])
unfolding units_for
inactive_gets_nothing s org u v h = (
  λ unit. contains-users_for_unit s unit org u v.maps ∙ rw h (ground arith),
  rw (h, units_for) refl,
)

not_a_member :
    (s : State) (org u : ℕ) → get₂ org u s.memberships ≡ none → active_membership s org u ≡ none
unfolding active_membership
not_a_member s org u e = rw (active_membership, e) refl

paused :
    (s : State) (org u : ℕ) (m : Membership)
    → get₂ org u s.memberships ≡ some m
    → m.active ≡ false
    → active_membership s org u ≡ none
unfolding active_membership
paused s org u m e h = rw (active_membership, e) (rw h refl)

suspended :
    (s : State) (org u : ℕ) → get u s.user_active ≡ some false → active_membership s org u ≡ none
unfolding active_membership user_is_active
suspended s org u h = elim (Option-cases (get₂ org u s.memberships)) [
  | inl e ↦ rw (active_membership, e) refl
  | inr (m, e) ↦ rw (active_membership, e) (ground (arith, h))
]

module _ (serde : Serde) where
  -- The last word on the membership is that there is none, or one that is not active, or the last
  -- word on the user is that the account is not active.
  abbrev pub IsRevoked : List (List ℕ) → ℕ → ℕ → Type 0
  IsRevoked payloads org u =
      (last_word serde payloads (member org u) ≡ some (membership none))
      ⊎ ((m : Membership) × (last_word serde payloads (member org u) ≡ some (membership (some m)))
          × (m.active ≡ false))
      ⊎ (last_word serde payloads (user u) ≡ some (status (some false)))

  spoken :
      (payloads : List (List ℕ)) (s : State) (k : Key) (f : Fact)
      → Inv s
      → last_word serde payloads k ≡ some f
      → fact k (apply_all serde payloads s) ≡ f
  spoken payloads s k f v e =
      apply_all-last_word serde payloads k s v ∙ ap (λ o. unwrap_or o (fact k s)) e

  -- When, in a sequence of messages read from a well-formed cache, the last word on a membership is
  -- that it is gone or is not active, or the last word on the user is that the account is not
  -- active, then after the sequence the user is a recipient of no unit for that organization, and
  -- `units_for` shows the user no unit of it, whatever the other messages say.
  pub revoked_gets_nothing :
      (payloads : List (List ℕ)) (s : State) (org u : ℕ)
      → Inv s
      → IsRevoked payloads org u
      → ((unit : ℕ)
          → contains {A = ℕ × ℕ} (org, u) (users_for_unit (apply_all serde payloads s) unit)
            ≡ false)
        × (units_for (apply_all serde payloads s) org u ≡ [])
  unfolding fact member_of status_of
  revoked_gets_nothing payloads s org u v h =
      inactive_gets_nothing (apply_all serde payloads s) org u (apply_all-Inv serde payloads s v)
        (elim h [
          | inl e ↦
              not_a_member _ org u
                (ap member_of (spoken payloads s (member org u) (membership none) v e))
          | inr (inl (m, e, k)) ↦
              paused _ org u m
                (ap member_of (spoken payloads s (member org u) (membership (some m)) v e)) k
          | inr (inr e) ↦
              suspended _ org u
                (ap status_of (spoken payloads s (user u) (status (some false)) v e))
        ])
