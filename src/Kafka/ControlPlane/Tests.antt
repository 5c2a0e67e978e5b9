-- ===== src/Kafka/ControlPlane/Tests.antt =====
-- A revocation.
use alert_distributor.Base.{ℕ, ◌≡◌, refl, List, [], ◌∷◌, nat_eq, list_eq}
use alert_distributor.Text.{text}
use alert_distributor.Permissions.Cache.{empty}
use alert_distributor.Permissions.Cache.Invariant.Keeps.{empty-Inv}
use alert_distributor.Permissions.Cache.Facts.Assertions.{asserted}
use alert_distributor.Kafka.ControlPlane.Says.{says}
use alert_distributor.Kafka.ControlPlane.Replay.{apply_all}
use alert_distributor.Kafka.ControlPlane.Revocation.{revoked_gets_nothing}
use alert_distributor.Permissions.Cache.Read.{users_for_unit, units_for}
use alert_distributor.Base.{contains, false, inl, pair_eq}
use alert_distributor.Kafka.Tests.{serde}

-- The owner is removed, and the device of the unit is moved in another message.
abbrev removal : List (List ℕ)
removal = (2 ∷ 7 ∷ 9 ∷ []) ∷ (5 ∷ 7 ∷ 9 ∷ []) ∷ (3 ∷ 5 ∷ 7 ∷ text "111") ∷ []

revoked_gets_nothing_example :
    ((unit : ℕ)
      → contains {A = ℕ × ℕ} (7, 9) (users_for_unit (apply_all serde removal empty) unit) ≡ false)
    × (units_for (apply_all serde removal empty) 7 9 ≡ [])
unfolding says asserted
revoked_gets_nothing_example = revoked_gets_nothing serde removal empty 7 9 empty-Inv (inl refl)
