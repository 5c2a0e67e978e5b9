-- ===== src/Kafka/ControlPlane/Events.antt =====
-- The code does what the events of the topic say.
use alert_distributor.Base.{
  ℕ, ◌≡◌, refl, sym, ap, subst, Bool, true, false, Option, none, some, List, [], nat_eq, list_eq,
  ◌==◌, if◌then◌else◌, is_some, Option-cases, inl, inr,
}
use alert_distributor.Text.{Text, text}
use alert_distributor.Permissions.Cache.{State}
use alert_distributor.Permissions.Cache.Facts.{fact, Overwrites}
use alert_distributor.Permissions.Cache.Facts.Assertions.{Assertion, Asserts, Asserts-Overwrites}
use alert_distributor.Permissions.Cache.Facts.Writes.{
  apply_user-Asserts, upsert_membership-Asserts, delete_membership-Asserts,
  upsert_user_unit-Asserts, delete_user_unit-Asserts, upsert_unit_device-Asserts,
  delete_unit_device-Asserts, upsert_user_device-Asserts, deactivate_device-Asserts,
}
use alert_distributor.Kafka.ControlPlane.{
  EventType, upsert, delete, Envelope, Serde, Applied, unknown_version, UserData, MembershipData,
  UserUnitData, UnitDeviceData, UserDeviceData, apply_user_event, apply_membership_event,
  apply_user_unit_event, apply_unit_device_event, apply_user_device_event, apply_entity,
  apply_envelope, apply_event, other_version, to_device, assign_event,
}
use alert_distributor.Permissions.Cache.Invariant.{Inv}
use alert_distributor.Kafka.ControlPlane.Says.{
  of_data, is_applied, user_says, membership_says, user_unit_says, unit_device_says,
  user_device_says, entity_says, envelope_says, says,
}

abbrev Effect : Option Assertion → (State → Applied × State) → Type 0
Effect none f = (s : State) → (f s).1 ≡ s
Effect (some a) f = Asserts a (λ s. (f s).1)

-- The code does what is said, and says so.
pub record Does (says : Option Assertion) (f : State → Applied × State) : Type 0 where
  pub result : (s : State) → is_applied (f s).0 ≡ is_some says
  pub effect : Effect says f

Does-nothing :
    (f : State → Applied × State)
    → ((s : State) → is_applied (f s).0 ≡ false)
    → ((s : State) → (f s).1 ≡ s)
    → Does none f
Does-nothing f h k = record { result = h; effect = k }

user_Does :
    (t : EventType) (d : Option UserData) → Does (of_data d (user_says t)) (apply_user_event t d)
unfolding apply_user_event
user_Does t none = Does-nothing _ (λ s. refl) (λ s. refl)
user_Does upsert (some d) = elim (Option-cases d.status) [
  | inl e ↦ rw e (record { result = λ s. refl; effect = apply_user-Asserts d.id [] })
  | inr (st, e) ↦ rw e (record { result = λ s. refl; effect = apply_user-Asserts d.id st })
]
user_Does delete (some d) = record { result = λ s. refl; effect = apply_user-Asserts d.id [] }

membership_Does :
    (t : EventType) (d : Option MembershipData)
    → Does (of_data d (membership_says t)) (apply_membership_event t d)
unfolding apply_membership_event
membership_Does t none = Does-nothing _ (λ s. refl) (λ s. refl)
membership_Does delete (some d) = record {
  result = λ s. refl;
  effect = delete_membership-Asserts d.organization_id d.user_id;
}
membership_Does upsert (some d) =
    let does : (role st : Text) → Asserts _ _ =
      upsert_membership-Asserts d.organization_id d.user_id in
    elim (Option-cases d.role) [
      | inl r ↦ elim (Option-cases d.status) [
        | inl e ↦ rw (r, e) (record { result = λ s. refl; effect = does [] [] })
        | inr (st, e) ↦ rw (r, e) (record { result = λ s. refl; effect = does [] st })
      ]
      | inr (role, r) ↦ elim (Option-cases d.status) [
        | inl e ↦ rw (r, e) (record { result = λ s. refl; effect = does role [] })
        | inr (st, e) ↦ rw (r, e) (record { result = λ s. refl; effect = does role st })
      ]
    ]

user_unit_Does :
    (t : EventType) (d : Option UserUnitData)
    → Does (of_data d (user_unit_says t)) (apply_user_unit_event t d)
unfolding apply_user_unit_event
user_unit_Does t none = Does-nothing _ (λ s. refl) (λ s. refl)
user_unit_Does delete (some d) = record {
  result = λ s. refl;
  effect = delete_user_unit-Asserts d.user_id d.unit_id;
}
user_unit_Does upsert (some d) = elim (Option-cases d.organization_id) [
  | inl e ↦ rw (e, apply_user_unit_event) (Does-nothing _ (λ s. refl) (λ s. refl))
  | inr (org, e) ↦
      rw (e, apply_user_unit_event)
        (record { result = λ s. refl; effect = upsert_user_unit-Asserts org d.user_id d.unit_id })
]

unit_device_Does :
    (t : EventType) (d : Option UnitDeviceData)
    → Does (of_data d (unit_device_says t)) (apply_unit_device_event t d)
unfolding apply_unit_device_event assign_event
unit_device_Does t none = Does-nothing _ (λ s. refl) (λ s. refl)
unit_device_Does delete (some d) = record {
  result = λ s. refl;
  effect = delete_unit_device-Asserts d.device_id;
}
unit_device_Does upsert (some d) = elim (Option-cases d.unit_id) [
  | inl e ↦ rw (e, apply_unit_device_event) (Does-nothing _ (λ s. refl) (λ s. refl))
  | inr (unit, e) ↦ elim (Option-cases d.organization_id) [
    | inl o ↦ rw (e, o, apply_unit_device_event) (Does-nothing _ (λ s. refl) (λ s. refl))
    | inr (org, o) ↦
        rw (e, o, apply_unit_device_event)
          (record { result = λ s. refl; effect = upsert_unit_device-Asserts d.device_id unit org })
  ]
]

user_device_Does :
    (t : EventType) (d : Option UserDeviceData)
    → Does (of_data d (user_device_says t)) (apply_user_device_event t d)
unfolding apply_user_device_event
user_device_Does t none = Does-nothing _ (λ s. refl) (λ s. refl)
user_device_Does delete (some d) = record {
  result = λ s. refl;
  effect = deactivate_device-Asserts d.id;
}
user_device_Does upsert (some d) = elim (Option-cases d.user_id) [
  | inl e ↦ rw (e, apply_user_device_event) (Does-nothing _ (λ s. refl) (λ s. refl))
  | inr (user, e) ↦
      rw (e, apply_user_device_event)
        (record { result = λ s. refl; effect = upsert_user_device-Asserts (to_device d user) })
]

if_Does :
    (b : Bool) {m n : Option Assertion} (f g : State → Applied × State)
    → Does m f
    → Does n g
    → Does (if b then m else n) (λ s. if b then f s else g s)
if_Does true f g h k = h
if_Does false f g h k = k

module _ (serde : Serde) where
  entity_Does : (e : Envelope serde.Value) → Does (entity_says serde e) (apply_entity serde e)
  unfolding apply_entity
  entity_Does e =
      let t = e.event_type in
      if_Does (e.entity == text "user") _ _ (user_Does t (serde.user_data e.body)) (
        if_Does (e.entity == text "organization_user") _ _
          (membership_Does t (serde.membership_data e.body))
          (if_Does (e.entity == text "user_unit") _ _
            (user_unit_Does t (serde.user_unit_data e.body))
            (if_Does (e.entity == text "unit_device") _ _
              (unit_device_Does t (serde.unit_device_data e.body))
              (if_Does (e.entity == text "user_device") _ _
                (user_device_Does t (serde.user_device_data e.body))
                (Does-nothing _ (λ s. refl) (λ s. refl))))))

  envelope_Does :
      (e : Option (Envelope serde.Value)) → Does (envelope_says serde e) (apply_envelope serde e)
  unfolding apply_envelope
  envelope_Does none = Does-nothing _ (λ s. refl) (λ s. refl)
  envelope_Does (some e) =
      if_Does (other_version e.schema_version) (λ s. (unknown_version, s)) (apply_entity serde e)
        (Does-nothing _ (λ s. refl) (λ s. refl)) (entity_Does e)

  pub apply_event-Does : (payload : List ℕ) → Does (says serde payload) (apply_event serde payload)
  unfolding apply_event says
  apply_event-Does payload = envelope_Does (serde.envelope payload)

  Does-Overwrites :
      (m : Option Assertion) (f : State → Applied × State) → Does m f → Overwrites (λ s. (f s).1)
  Does-Overwrites none f h = record {
    keeps = λ s v. subst Inv (sym (h.effect s)) v;
    at = λ k. inl (λ s v. ap (fact k) (h.effect s));
  }
  Does-Overwrites (some a) f h = Asserts-Overwrites (λ s. (f s).1) h.effect

  -- A message sets the facts that its event names.
  pub apply_event-Overwrites :
      (payload : List ℕ) → Overwrites (λ s. (apply_event serde payload s).1)
  apply_event-Overwrites payload =
      Does-Overwrites (says serde payload) (apply_event serde payload) (apply_event-Does payload)
