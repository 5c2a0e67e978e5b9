-- ===== src/Permissions/Cache/Facts/Assertions.antt =====
-- The abstract view of the cache: a fact for each key. An event asserts the facts of some keys, and
-- the rest stay.
use alert_distributor.Base.{
  ℕ, ◌≡◌, Bool, ◌&&◌, not, Option, none, some, nat_eq, list_eq, nat_beq, ◌==◌, if◌then◌else◌,
  is_empty, unwrap_or, inl, inr,
}
use alert_distributor.Text.{Text}
use alert_distributor.Sns.Models.{UserDevice}
use alert_distributor.Permissions.Cache.{State, Membership}
use alert_distributor.Permissions.Cache.Invariant.{Inv}
use alert_distributor.Permissions.Cache.Facts.{
  Key, user, member, granted, device, mobile, Fact, status, membership, grant, assignment,
  registration, fact, Overwrites, OverwritesAt,
}

-- What an event says.
pub data Assertion : Type 0 where
  has_status : ℕ → Bool → Assertion
  is_member : ℕ → ℕ → Option Membership → Assertion
  has_grant : ℕ → ℕ → Option ℕ → Assertion
  is_assigned : Text → Option (ℕ × ℕ) → Assertion
  registers : UserDevice → Assertion
  forgets : ℕ → Assertion

abbrev when : Bool → Fact → Option Fact
when hit v = if hit then some v else none

-- A device that is active and has an endpoint is registered for its person, and for nobody else.
abbrev pub registered : UserDevice → ℕ → Option UserDevice
registered d u =
    if d.is_active && not (is_empty d.endpoint_arn) && nat_beq d.user_id u then some d else none

-- The fact that an assertion gives a key, if it speaks of the key.
unfoldable pub asserted : Assertion → Key → Option Fact
asserted (has_status u b) (user a) = when (nat_beq u a) (status (some b))
asserted (is_member org u m) (member o a) = when (nat_beq org o && nat_beq u a) (membership m)
asserted (has_grant u n org) (granted a unit) = when (nat_beq u a && nat_beq n unit) (grant org)
asserted (is_assigned imei to) (device j) = when (imei == j) (assignment to)
asserted (registers d) (mobile u j) = when (nat_beq d.id j) (registration (registered d u))
asserted (forgets id) (mobile u j) = when (nat_beq id j) (registration none)
asserted _ _ = none

-- On a well-formed cache, the write asserts exactly that, and keeps the cache well formed.
pub record Asserts (a : Assertion) (f : State → State) : Type 0 where
  pub keeps : (s : State) → Inv s → Inv (f s)
  pub at : (k : Key) (s : State) → Inv s → fact k (f s) ≡ unwrap_or (asserted a k) (fact k s)

overwrites_at :
    (k : Key) (f : State → State) (v : Option Fact)
    → ((s : State) → Inv s → fact k (f s) ≡ unwrap_or v (fact k s))
    → OverwritesAt k f
overwrites_at k f none h = inl h
overwrites_at k f (some v) h = inr (v, h)

pub Asserts-Overwrites : {a : Assertion} (f : State → State) → Asserts a f → Overwrites f
Asserts-Overwrites {a} f h = record {
  keeps = h.keeps;
  at = λ k. overwrites_at k f (asserted a k) (h.at k);
}
