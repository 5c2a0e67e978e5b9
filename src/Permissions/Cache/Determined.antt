-- ===== src/Permissions/Cache/Determined.antt =====
-- The facts determine what the readers return: the order of events and of the maps does not matter.
use alert_distributor.Base.{
  ℕ, ◌≡◌, ◌∙◌, sym, true, some, [], ◌∷◌, arith, ◌==◌, ==_iff, ==_refl, nat_eq, pair_eq, list_eq,
  Bool-cases, inl, inr, ltb,
}
use alert_distributor.HashMap.{HashMap, get, get₂, IsMap}
use alert_distributor.Text.{Text}
use alert_distributor.Sort.{nat_ord, pair_ord}
use alert_distributor.Sort.Unique.{IsAscending-unique, pair_irreflexive}
use alert_distributor.Permissions.Cache.{State, active_membership, user_is_active}
use alert_distributor.Permissions.Cache.Read.{users_for_unit}
use alert_distributor.Permissions.Cache.Invariant.{Inv, assigned}
use alert_distributor.Permissions.Cache.Visibility.{users_for_unit-IsAscending}
use alert_distributor.Permissions.Cache.Rule.{IsLocated, entitled, users_for_unit-entitled}
use alert_distributor.Permissions.Cache.Facts.{Key, user, member, granted, device, fact}

module _ (unit org : ℕ) where
  get-assigned :
      (imei : Text) (m : HashMap Text (ℕ × ℕ))
      → get imei m ≡ some (unit, org)
      → ltb 0 (assigned unit org m) ≡ true
  unfolding get assigned
  get-assigned imei [] h = cc
  get-assigned imei ((j, at) ∷ m) h = ground (arith, get-assigned imei m, ==_iff at (unit, org))

  assigned-get :
      (m : HashMap Text (ℕ × ℕ))
      → IsMap m
      → ltb 0 (assigned unit org m) ≡ true
      → (imei : Text) × (get imei m ≡ some (unit, org))
  unfolding get assigned
  assigned-get [] h k = absurd (ground (arith, k))
  assigned-get ((j, at) ∷ m) h k = elim (Bool-cases (at == (unit, org))) [
    | inl e ↦ (j, ground (arith, ==_refl j, ==_iff at (unit, org)))
    | inr e ↦
        let (imei, found) = assigned-get m h.1 (ground (arith, e, k)) in
        (imei, ground (arith, found, h.0, ==_iff j imei))
  ]

  assigned-same :
      (m n : HashMap Text (ℕ × ℕ))
      → IsMap m
      → IsMap n
      → ((imei : Text) → get imei m ≡ get imei n)
      → ltb 0 (assigned unit org m) ≡ true
      → ltb 0 (assigned unit org n) ≡ true
  assigned-same m n h k same p =
      let (imei, found) = assigned-get m h p in get-assigned imei n (sym (same imei) ∙ found)

-- The same facts, key by key.
abbrev pub SameFacts : State → State → Type 0
SameFacts s t = (k : Key) → fact k s ≡ fact k t

module _ (s t : State) (same : SameFacts s t) where
  facts_agree :
      (u o unit : ℕ) (imei : Text)
      → (get u s.user_active ≡ get u t.user_active)
        × (get₂ o u s.memberships ≡ get₂ o u t.memberships)
        × (get₂ u unit s.user_units ≡ get₂ u unit t.user_units)
        × (get imei s.unit_devices ≡ get imei t.unit_devices)
  unfolding fact
  facts_agree u o unit imei =
      let a : fact (user u) s ≡ fact (user u) t = same (user u) in
      let b : fact (member o u) s ≡ fact (member o u) t = same (member o u) in
      let c : fact (granted u unit) s ≡ fact (granted u unit) t = same (granted u unit) in
      let d : fact (device imei) s ≡ fact (device imei) t = same (device imei) in
      (ground (arith, a), ground (arith, b), ground (arith, c), ground (arith, d))

  entitled-same :
      (o u unit : ℕ)
      → IsMap s.unit_devices
      → IsMap t.unit_devices
      → entitled s o u unit ≡ entitled t o u unit
  unfolding active_membership user_is_active
  entitled-same o u unit h k =
      let (a, b, c, d) = facts_agree u o unit [] in
      let devices : (imei : Text) → get imei s.unit_devices ≡ get imei t.unit_devices =
        λ imei. (facts_agree u o unit imei).3 in
      ground (
        arith,
        a,
        b,
        c,
        assigned-same unit o s.unit_devices t.unit_devices h k devices,
        assigned-same unit o t.unit_devices s.unit_devices k h (λ imei. sym (devices imei)),
      )

  -- Two well-formed caches in which the devices of each unit name its organization, and which hold
  -- the same facts (user status, membership, grant, device assignment and mobile device, key by
  -- key), return the same list of recipients for every unit, whatever the order of their maps and
  -- of the events that made them.
  pub users_for_unit-same :
      (unit : ℕ)
      → Inv s
      → Inv t
      → IsLocated s
      → IsLocated t
      → users_for_unit s unit ≡ users_for_unit t unit
  users_for_unit-same unit v w l m =
      IsAscending-unique {A = ℕ × ℕ} pair_irreflexive (users_for_unit s unit)
        (users_for_unit t unit) (users_for_unit-IsAscending s v.maps unit)
        (users_for_unit-IsAscending t w.maps unit)
        (λ p.
          users_for_unit-entitled s unit p.0 p.1 v l
          ∙ (entitled-same p.0 p.1 unit v.devices w.devices
              ∙ sym (users_for_unit-entitled t unit p.0 p.1 w m)))
