-- ===== src/Websocket/System/Openings.antt =====
-- Every open connection, and every target of an alert, is of a connection that was opened for it.
use mathlib.Core.List.{Memᴰ}
use alert_distributor.Base.{
  ℕ, ◌≡◌, ap, ◌∙◌, refl, inl, inr, true, some, List, ◌∷◌, arith, nat_eq, ◌==◌, ==_iff, contains,
  Bool-cases,
}
use mathlib.Core.Option.{some-injective}
use alert_distributor.HashMap.{get, get-insert}
use alert_distributor.Websocket.Registry.{
  ConnectionContext, RegistryState, add_connection, remove_connection, senders_for_unit,
}
use alert_distributor.Websocket.Registry.Invariant.{IsIndexed}
use alert_distributor.Websocket.Registry.Own.{senders_for_unit-IsOwn}
use alert_distributor.Websocket.Dispatcher.Sends.{connection-remove}
use alert_distributor.Websocket.System.{Opening, Sent}

module _ {Sender : Type 0} where
  -- A connection of that id and with that channel was opened with that unit among its units.
  pub record OpenedFor (opened : List (Opening Sender)) (x : Sent Sender) : Type 0 where
    pub opening : Opening Sender
    pub was_opened : Memᴰ opening opened
    pub same_id : opening.connection_id ≡ x.connection_id
    pub same_channel : opening.sender ≡ x.sender
    pub has_unit : contains x.unit opening.units ≡ true

  pub OpenedFor-tail :
      {opened : List (Opening Sender)} {x : Sent Sender} (o : Opening Sender)
      → OpenedFor opened x
      → OpenedFor (o ∷ opened) x
  OpenedFor-tail o h = record {
    opening = h.opening;
    was_opened = Memᴰ.tail h.was_opened;
    same_id = h.same_id;
    same_channel = h.same_channel;
    has_unit = h.has_unit;
  }

  -- The open connection is one that was opened, with its channel and its units.
  pub record WasOpened (opened : List (Opening Sender)) (id : ℕ) (c : ConnectionContext Sender)
      : Type 0 where
    pub opening : Opening Sender
    pub was_opened : Memᴰ opening opened
    pub same_id : opening.connection_id ≡ id
    pub same_channel : opening.sender ≡ c.sender
    pub same_units : opening.units ≡ c.unit_ids

  -- Every open connection is one that was opened.
  abbrev pub Holds : List (Opening Sender) → RegistryState Sender → Type 0
  Holds opened r =
      (id : ℕ) (c : ConnectionContext Sender)
      → get id r.connections ≡ some c
      → WasOpened opened id c

  pub Holds-remove :
      (opened : List (Opening Sender)) (id : ℕ) (r : RegistryState Sender)
      → Holds opened r
      → Holds opened (remove_connection id r).1
  Holds-remove opened id r h other c e = h other c (ground (arith, connection-remove id other r, e))

  pub Holds-add :
      (opened : List (Opening Sender)) (o : Opening Sender) (r : RegistryState Sender)
      → Holds opened r
      → Holds (o ∷ opened) (
          add_connection o.connection_id o.context.user_id o.context.organization_id o.units
            o.sender r)
  unfolding add_connection
  Holds-add opened o r h id c e =
      let context : ConnectionContext Sender = record {
        connection_id = o.connection_id;
        user_id = o.context.user_id;
        organization_id = o.context.organization_id;
        unit_ids = o.units;
        sender = o.sender;
      } in
      let law = get-insert o.connection_id id context r.connections in
      elim (Bool-cases (o.connection_id == id)) [
        | inl same ↦
            let found : some context ≡ some c = ground (arith, law, e, same) in
            let it : context ≡ c = some-injective context c found in
            record {
              opening = o;
              was_opened = Memᴰ.head refl;
              same_id = ground (arith, ==_iff o.connection_id id, same);
              same_channel = ap (λ (z : ConnectionContext Sender). z.sender) it;
              same_units = ap (λ (z : ConnectionContext Sender). z.unit_ids) it;
            }
        | inr other ↦
            let w = h id c (ground (arith, law, e, other)) in
            record {
              opening = w.opening;
              was_opened = Memᴰ.tail w.was_opened;
              same_id = w.same_id;
              same_channel = w.same_channel;
              same_units = w.same_units;
            }
      ]

  -- The channels of a unit are those of connections opened for it.
  pub senders-OpenedFor :
      (opened : List (Opening Sender)) (unit : ℕ) (r : RegistryState Sender)
      → IsIndexed r
      → Holds opened r
      → (id : ℕ) (sender : Sender) → Memᴰ {A = ℕ × Sender} (id, sender) (senders_for_unit unit r)
      → OpenedFor opened (record { connection_id = id; unit = unit; sender = sender })
  senders-OpenedFor opened unit r v h id sender m =
      let own = senders_for_unit-IsOwn r unit id sender v m in
      let w = h id own.context own.found in
      record {
        opening = w.opening;
        was_opened = w.was_opened;
        same_id = w.same_id;
        same_channel = w.same_channel ∙ own.channel;
        has_unit = ap (contains unit) w.same_units ∙ own.subscribed;
      }
