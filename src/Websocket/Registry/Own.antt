-- ===== src/Websocket/Registry/Own.antt =====
-- The channels that an alert of a unit goes to are those of the connections themselves.
use mathlib.Core.List.{Memᴰ}
use mathlib.Core.List.Memᴰ
use alert_distributor.Base.{
  ℕ, ◌≡◌, sym, ap, ◌∙◌, true, Option-cases, inl, inr, some, List, [], ◌∷◌, arith, nat_eq, ==_refl,
  contains, contains-cons,
}
use alert_distributor.HashMap.{HashMap, get}
use alert_distributor.Websocket.Registry.{
  ConnectionContext, RegistryState, targets, senders_for_unit, ids_at,
}
use alert_distributor.Websocket.Registry.Invariant.{IsIndexed}

module _ {Sender : Type 0} where
  record ComesFrom (ids : List ℕ) (connections : HashMap ℕ (ConnectionContext Sender)) (id : ℕ)
      (sender : Sender) : Type 0 where
    key : ℕ
    context : ConnectionContext Sender
    listed : contains key ids ≡ true
    found : get key connections ≡ some context
    named : context.connection_id ≡ id
    channel : context.sender ≡ sender

  behind :
      (x : ℕ) {ids : List ℕ} {connections : HashMap ℕ (ConnectionContext Sender)} {id : ℕ}
      {sender : Sender}
      → ComesFrom ids connections id sender
      → ComesFrom (x ∷ ids) connections id sender
  behind x {ids} t = record {
    key = t.key;
    context = t.context;
    listed = ground (arith, contains-cons t.key x ids, t.listed);
    found = t.found;
    named = t.named;
    channel = t.channel;
  }

  targets-ComesFrom :
      (ids : List ℕ) (connections : HashMap ℕ (ConnectionContext Sender)) (id : ℕ) (sender : Sender)
      → Memᴰ {A = ℕ × Sender} (id, sender) (targets ids connections)
      → ComesFrom ids connections id sender
  unfolding targets
  targets-ComesFrom [] connections id sender m = absurd (Memᴰ.not-nil m)
  targets-ComesFrom (x ∷ ids) connections id sender m = elim (Option-cases (get x connections)) [
    | inl e ↦ behind x (targets-ComesFrom ids connections id sender (rw (e, targets) at m))
    | inr (c, e) ↦ elim (Memᴰ.cases_cons (rw (e, targets) at m)) [
      | inl same ↦ record {
        key = x;
        context = c;
        listed = ground (arith, contains-cons x x ids, ==_refl x);
        found = e;
        named = sym (ap (λ (p : ℕ × Sender). p.0) same);
        channel = sym (ap (λ (p : ℕ × Sender). p.1) same);
      }
      | inr m' ↦ behind x (targets-ComesFrom ids connections id sender m')
    ]
  ]

  -- The channel is that of the open connection of the id, which subscribes to the unit.
  pub record IsOwn (s : RegistryState Sender) (unit id : ℕ) (sender : Sender) : Type 0 where
    pub context : ConnectionContext Sender
    pub found : get id s.connections ≡ some context
    pub channel : context.sender ≡ sender
    pub subscribed : contains unit context.unit_ids ≡ true

  pub senders_for_unit-IsOwn :
      (s : RegistryState Sender) (unit id : ℕ) (sender : Sender)
      → IsIndexed s
      → Memᴰ {A = ℕ × Sender} (id, sender) (senders_for_unit unit s)
      → IsOwn s unit id sender
  unfolding senders_for_unit
  senders_for_unit-IsOwn s unit id sender v m =
      let t = targets-ComesFrom (ids_at unit s.by_unit) s.connections id sender m in
      let same : t.key ≡ id = sym (v.own_id t.key t.context t.found) ∙ t.named in
      record {
        context = t.context;
        found = ap (λ k. get k s.connections) (sym same) ∙ t.found;
        channel = t.channel;
        subscribed = ground (arith, v.by_unit unit t.key, t.found, t.listed);
      }
