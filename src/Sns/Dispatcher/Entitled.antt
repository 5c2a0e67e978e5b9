-- ===== src/Sns/Dispatcher/Entitled.antt =====
-- Whose devices an alert is pushed to: those of the entitled people, all of them and nobody else's.
use mathlib.Core.List.{Memᴰ}
use mathlib.Core.List.Memᴰ
use alert_distributor.Base.{
  ℕ, ◌≡◌, sym, ap, ◌∙◌, subst, inl, inr, Bool, true, List, [], ◌∷◌, arith, filter, nat_eq, pair_eq,
  ◌==◌, ==_iff, ==_refl, contains, contains-nil, contains-cons, Bool-cases,
}
use alert_distributor.Sns.Models.{UserDevice}
use alert_distributor.Permissions.Cache.{State}
use alert_distributor.Permissions.Cache.Read.{users_for_unit, devices_for}
use alert_distributor.Permissions.Cache.Invariant.{Inv}
use alert_distributor.Permissions.Cache.Rule.{IsLocated, entitled, users_for_unit-entitled}
use alert_distributor.Sns.Dispatcher.Targets.{is_target, candidates}

filter-Mem :
    (p : UserDevice → Bool) (d : UserDevice) (l : List UserDevice)
    → Memᴰ d (filter p l)
    → Memᴰ d l × (p d ≡ true)
filter-Mem p d [] m = absurd (Memᴰ.not-nil m)
filter-Mem p d (x ∷ l) m = elim (Bool-cases (p x)) [
  | inl e ↦ elim (Memᴰ.cases_cons (rw e at m)) [
    | inl same ↦ (Memᴰ.head same, ap p same ∙ e)
    | inr m' ↦ let (n, q) = filter-Mem p d l m' in (Memᴰ.tail n, q)
  ]
  | inr e ↦ let (n, q) = filter-Mem p d l (rw e at m) in (Memᴰ.tail n, q)
]

Mem-filter :
    (p : UserDevice → Bool) (d : UserDevice) (l : List UserDevice)
    → Memᴰ d l
    → p d ≡ true
    → Memᴰ d (filter p l)
Mem-filter p d [] m q = m
Mem-filter p d (x ∷ l) m q = elim (Memᴰ.cases_cons m) [
  | inl same ↦ rw (ap p (sym same) ∙ q) (Memᴰ.head same)
  | inr m' ↦ elim (Bool-cases (p x)) [
    | inl e ↦ rw e (Memᴰ.tail (Mem-filter p d l m' q))
    | inr e ↦ rw e (Mem-filter p d l m' q)
  ]
]

-- The device is one of a person in the list.
pub record BelongsTo (cache : ℕ → State) (users : List (ℕ × ℕ)) (d : UserDevice) : Type 0 where
  pub org : ℕ
  pub user : ℕ
  pub listed : contains {A = ℕ × ℕ} (org, user) users ≡ true
  pub own : Memᴰ d (devices_for (cache user) user)

candidates-BelongsTo :
    (cache : ℕ → State) (users : List (ℕ × ℕ)) (d : UserDevice)
    → Memᴰ d (candidates cache users)
    → BelongsTo cache users d
candidates-BelongsTo cache [] d m = absurd (Memᴰ.not-nil m)
candidates-BelongsTo cache ((o, u) ∷ users) d m =
    elim (Memᴰ.append_cases (devices_for (cache u) u) m) [
      | inl own ↦ record {
        org = o;
        user = u;
        listed =
            ground
              (arith, contains-cons {A = ℕ × ℕ} (o, u) (o, u) users, ==_refl {A = ℕ × ℕ} (o, u));
        own = own;
      }
      | inr m' ↦
          let b = candidates-BelongsTo cache users d m' in
          record {
            org = b.org;
            user = b.user;
            listed =
                ground (arith, contains-cons {A = ℕ × ℕ} (b.org, b.user) (o, u) users, b.listed);
            own = b.own;
          }
    ]

BelongsTo-candidates :
    (cache : ℕ → State) (users : List (ℕ × ℕ)) (d : UserDevice) (org user : ℕ)
    → contains {A = ℕ × ℕ} (org, user) users ≡ true
    → Memᴰ d (devices_for (cache user) user)
    → Memᴰ d (candidates cache users)
BelongsTo-candidates cache [] d org user h own =
    absurd (ground (arith, contains-nil {A = ℕ × ℕ} (org, user), h))
BelongsTo-candidates cache ((o, u) ∷ users) d org user h own =
    elim (Bool-cases (◌==◌ {T = ℕ × ℕ} (o, u) (org, user))) [
      | inl e ↦
          let same : (o, u) ≡ (org, user) = (==_iff (o, u) (org, user)).0 e in
          Memᴰ.append_left (candidates cache users) (
            subst (λ (x : ℕ). Memᴰ d (devices_for (cache x) x)) (sym (ap (λ (q : ℕ × ℕ). q.1) same))
              own)
      | inr e ↦ Memᴰ.append_right (devices_for (cache u) u) (
          BelongsTo-candidates cache users d org user
            (ground (arith, contains-cons {A = ℕ × ℕ} (org, user) (o, u) users, h, e)) own)
    ]

-- The person was entitled to the unit when the recipients were read, and the device was one of
-- theirs, and a target, when their devices were read.
pub record IsPushed (now : State) (cache : ℕ → State) (unit : ℕ) (d : UserDevice) : Type 0 where
  pub org : ℕ
  pub user : ℕ
  pub permitted : entitled now org user unit ≡ true
  pub own : Memᴰ d (devices_for (cache user) user)
  pub target : is_target d ≡ true

-- The targets among the devices of the recipients.
abbrev pub chosen : State → (ℕ → State) → ℕ → List UserDevice
chosen now cache unit = filter is_target (candidates cache (users_for_unit now unit))

pub chosen-IsPushed :
    (now : State) (cache : ℕ → State) (unit : ℕ) (d : UserDevice)
    → Inv now
    → IsLocated now
    → Memᴰ d (chosen now cache unit)
    → IsPushed now cache unit d
chosen-IsPushed now cache unit d inv located m =
    let users = users_for_unit now unit in
    let (c, target) = filter-Mem is_target d (candidates cache users) m in
    let b = candidates-BelongsTo cache users d c in
    record {
      org = b.org;
      user = b.user;
      permitted = sym (users_for_unit-entitled now unit b.org b.user inv located) ∙ b.listed;
      own = b.own;
      target = target;
    }

pub IsPushed-chosen :
    (now : State) (cache : ℕ → State) (unit : ℕ) (d : UserDevice)
    → Inv now
    → IsLocated now
    → IsPushed now cache unit d
    → Memᴰ d (chosen now cache unit)
IsPushed-chosen now cache unit d inv located p =
    let users = users_for_unit now unit in
    Mem-filter is_target d (candidates cache users)
      (BelongsTo-candidates cache users d p.org p.user
        (users_for_unit-entitled now unit p.org p.user inv located ∙ p.permitted) p.own)
      p.target
