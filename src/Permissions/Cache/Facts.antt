-- ===== src/Permissions/Cache/Facts.antt =====
-- The facts that the events assert, key by key, and how each write changes them: it sets one key,
-- whatever was there, and leaves every other.
pub mod Assertions
pub mod Writes
use alert_distributor.Base.{
  ℕ, ◌≡◌, refl, sym, ◌∙◌, ap, ◌⊎◌, inl, inr, Bool, Option, none, some, List, [], ◌∷◌, arith, nat_eq,
  list_eq, nat_beq, if◌then◌else◌, unwrap_or,
}
use alert_distributor.HashMap.{get, get₂}
use alert_distributor.Text.{Text}
use alert_distributor.Sns.Models.{UserDevice}
use alert_distributor.Permissions.Cache.Invariant.{Inv}
use alert_distributor.Permissions.Cache.{State, Membership}

-- The device of that id, in a list of devices.
unfoldable pub find_device : ℕ → List UserDevice → Option UserDevice
find_device id [] = none
find_device id (d ∷ ds) = if nat_beq d.id id then some d else find_device id ds

pub data Key : Type 0 where
  user : ℕ → Key
  member granted : ℕ → ℕ → Key
  device : Text → Key
  mobile : ℕ → ℕ → Key

pub data Fact : Type 0 where
  status : Option Bool → Fact
  membership : Option Membership → Fact
  grant : Option ℕ → Fact
  assignment : Option (ℕ × ℕ) → Fact
  registration : Option UserDevice → Fact

unfoldable pub fact : Key → State → Fact
fact (user u) s = status (get u s.user_active)
fact (member org u) s = membership (get₂ org u s.memberships)
fact (granted u unit) s = grant (get₂ u unit s.user_units)
fact (device imei) s = assignment (get imei s.unit_devices)
fact (mobile u id) s = registration (find_device id (unwrap_or (get u s.user_devices) []))

-- On a well-formed cache `f` sets the fact to one value, or leaves it.
abbrev pub OverwritesAt : Key → (State → State) → Type 0
OverwritesAt k f =
    ((s : State) → Inv s → fact k (f s) ≡ fact k s)
    ⊎ ((v : Fact) × ((s : State) → Inv s → fact k (f s) ≡ v))

pub record Overwrites (f : State → State) : Type 0 where
  pub keeps : (s : State) → Inv s → Inv (f s)
  pub at : (k : Key) → OverwritesAt k f

pub Overwrites-id : Overwrites (λ s. s)
Overwrites-id = record { keeps = λ s h. h; at = λ k. inl (λ s h. refl) }

module _ (k : Key) (f g : State → State) (keeps : (s : State) → Inv s → Inv (f s)) where
  compose_at : OverwritesAt k f → OverwritesAt k g → OverwritesAt k (λ s. g (f s))
  compose_at h (inr (v, e)) = inr (v, λ s w. e (f s) (keeps s w))
  compose_at (inl e) (inl e') = inl (λ s w. e' (f s) (keeps s w) ∙ e s w)
  compose_at (inr (v, e)) (inl e') = inr (v, λ s w. e' (f s) (keeps s w) ∙ e s w)

pub Overwrites-compose :
    (f g : State → State) → Overwrites f → Overwrites g → Overwrites (λ s. g (f s))
Overwrites-compose f g h h' = record {
  keeps = λ s w. h'.keeps (f s) (h.keeps s w);
  at = λ k. compose_at k f g h.keeps (h.at k) (h'.at k);
}

twice_at :
    (k : Key) (f : State → State) (s : State)
    → Inv s
    → Inv (f s)
    → OverwritesAt k f
    → fact k (f (f s)) ≡ fact k (f s)
twice_at k f s w w' (inl e) = e (f s) w'
twice_at k f s w w' (inr (v, e)) = e (f s) w' ∙ sym (e s w)

-- Such a write made again changes no fact.
pub Overwrites-twice :
    (f : State → State)
    → Overwrites f
    → (k : Key) (s : State) → Inv s
    → fact k (f (f s)) ≡ fact k (f s)
Overwrites-twice f h k s w = twice_at k f s w (h.keeps s w) (h.at k)
