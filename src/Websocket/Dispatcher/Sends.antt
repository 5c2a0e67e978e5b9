-- ===== src/Websocket/Dispatcher/Sends.antt =====
-- Which connections get an alert, and which are removed.
use alert_distributor.Base.{
  ℕ, ◌+◌, ◌≡◌, refl, ◌∙◌, ap, Bool, true, false, Option, none, some, List, [], ◌∷◌, map, arith,
  nat_eq, ◌==◌, contains, contains-nil, contains-cons, if◌then◌else◌, Option-cases, inl, inr,
  length,
}
use alert_distributor.HashMap.{get, get-remove, holds_for}
use alert_distributor.Text.{Text}
use alert_distributor.Models.AlertEvent.{AlertEvent}
use alert_distributor.Websocket.Registry.{
  RegistryState, senders_for_unit, remove_connection, forget,
}
use alert_distributor.Websocket.Registry.Invariant.{
  IsIndexed, remove_connection-IsIndexed, contains-senders_for_unit,
}
use alert_distributor.Websocket.Registry.Own.{IsOwn, senders_for_unit-IsOwn}
use mathlib.Core.List.{Memᴰ}
use alert_distributor.Websocket.Dispatcher.{
  ClientAlertMessage, client_message, SendResult, accepted, full, closed, Channels, Delivery,
  drop_closed, count_sent, settle, send_to_all, dispatch_event,
}

abbrev pub is_closed : SendResult → Bool
is_closed closed = true
is_closed _ = false

abbrev pub is_accepted : SendResult → Bool
is_accepted accepted = true
is_accepted _ = false

-- The ids of the attempts with such a result.
abbrev pub ids_with : (SendResult → Bool) → List (ℕ × SendResult) → List ℕ
ids_with p [] = []
ids_with p ((id, result) ∷ rest) = let ids = ids_with p rest in if p result then id ∷ ids else ids

pub connection-remove :
    {Sender : Type 0} (id other : ℕ) (s : RegistryState Sender)
    → get other (remove_connection id s).1.connections
      ≡ (if id == other then none else get other s.connections)
unfolding remove_connection forget
connection-remove id other s = elim (Option-cases (get id s.connections)) [
  | inl e ↦ ground (arith, get-remove id other s.connections)
  | inr (c, e) ↦ ground (arith, get-remove id other s.connections)
]

module _ {Message : Type 0} (channels : Channels Message) where
  -- The results of the sends, by connection: every target is tried once, in order.
  abbrev pub attempts :
      List (ℕ × channels.Sender) → Message → channels.Buffers → List (ℕ × SendResult)
  attempts [] message buffers = []
  attempts ((id, sender) ∷ targets) message buffers =
      let (result, buffers') = channels.try_send sender message buffers in
      (id, result) ∷ attempts targets message buffers'

  -- From `d` to `d'`: what is counted, which connections are left, and that the indexes agree.
  pub record Delivers (tried : List (ℕ × SendResult)) (d d' : Delivery channels) : Type 0 where
    pub counted : d'.sent_count ≡ d.sent_count + length (ids_with is_accepted tried)
    pub left :
        (id : ℕ)
        → get id d'.registry.connections
          ≡ (if contains id (ids_with is_closed tried) then none else get id d.registry.connections)
    pub indexed : IsIndexed d.registry → IsIndexed d'.registry

  before-Delivers :
      (id : ℕ) (result : SendResult) (buffers : channels.Buffers) (d : Delivery channels)
      (tried : List (ℕ × SendResult)) {d' : Delivery channels}
      → Delivers tried (settle channels id result buffers d) d'
      → Delivers ((id, result) ∷ tried) d d'
  unfolding drop_closed count_sent
  before-Delivers id accepted buffers d tried h = record {
    counted = omega (arith, h.counted);
    left = h.left;
    indexed = h.indexed;
  }
  before-Delivers id full buffers d tried h = record {
    counted = h.counted;
    left = h.left;
    indexed = h.indexed;
  }
  before-Delivers id closed buffers d tried h = record {
    counted = h.counted;
    left = λ x. ground (
      arith,
      h.left x,
      connection-remove id x d.registry,
      contains-cons x id (ids_with is_closed tried),
    );
    indexed = λ v. h.indexed (remove_connection-IsIndexed id d.registry v);
  }

  pub send_to_all-Delivers :
      (targets : List (ℕ × channels.Sender)) (message : Message) (d : Delivery channels)
      → Delivers (attempts targets message d.buffers) d (send_to_all channels targets message d)
  unfolding send_to_all
  send_to_all-Delivers [] message d = record {
    counted = omega arith;
    left = λ id. ground (arith, contains-nil id);
    indexed = λ v. v;
  }
  send_to_all-Delivers ((id, sender) ∷ targets) message d =
      let (result, buffers) = channels.try_send sender message d.buffers in
      before-Delivers id result buffers d (attempts targets message buffers)
        (send_to_all-Delivers targets message (settle channels id result buffers d))

  attempted-targets :
      (targets : List (ℕ × channels.Sender)) (message : Message) (buffers : channels.Buffers)
      → map (λ t. t.0) (attempts targets message buffers) ≡ map (λ t. t.0) targets
  attempted-targets [] message buffers = refl
  attempted-targets ((id, sender) ∷ targets) message buffers =
      ap (◌∷◌ id) (attempted-targets targets message (channels.try_send sender message buffers).1)

module _ {Value Time : Type 0} (channels : Channels (ClientAlertMessage Value Time))
    (parse_uuid : Text → Option ℕ) where
  -- When the id of the unit parses and the indexes agree with the connections, the WebSocket
  -- dispatcher tries exactly the connections subscribed to the unit, each on its own channel; it
  -- counts the sends that were accepted, removes exactly the connections whose channel is closed
  -- and no other, and keeps the indexes in agreement.
  pub dispatch_event-Delivers :
      (event : AlertEvent Value Time) (registry : RegistryState channels.Sender)
      (buffers : channels.Buffers) (unit : ℕ)
      → parse_uuid event.unit_id ≡ some unit
      → IsIndexed registry
      → (tried : List (ℕ × SendResult)) × ((id : ℕ)
          → contains id (map (λ t. t.0) tried)
            ≡ holds_for (λ c. contains unit c.unit_ids) (get id registry.connections))
        × (tried
            ≡ attempts channels (senders_for_unit unit registry) (client_message event) buffers)
        × ((id : ℕ) (sender : channels.Sender)
            → Memᴰ {A = ℕ × channels.Sender} (id, sender) (senders_for_unit unit registry)
            → IsOwn registry unit id sender)
        × Delivers channels tried
            (record { registry = registry; buffers = buffers; sent_count = 0 })
            (dispatch_event channels parse_uuid event registry buffers)
  unfolding dispatch_event
  dispatch_event-Delivers event registry buffers unit valid v =
      let targets = senders_for_unit unit registry in
      let message = client_message event in
      (
        attempts channels targets message buffers,
        λ id.
            ap (contains id) (attempted-targets channels targets message buffers)
            ∙ contains-senders_for_unit unit id registry v,
        refl,
        λ id sender m. senders_for_unit-IsOwn registry unit id sender v m,
        rw (valid, dispatch_event)
            (send_to_all-Delivers channels targets message
              (record { registry = registry; buffers = buffers; sent_count = 0 })),
      )

  pub dispatch_event-IsIndexed :
      (event : AlertEvent Value Time) (registry : RegistryState channels.Sender)
      (buffers : channels.Buffers)
      → IsIndexed registry
      → IsIndexed (dispatch_event channels parse_uuid event registry buffers).registry
  unfolding dispatch_event
  dispatch_event-IsIndexed event registry buffers v =
      elim (Option-cases (parse_uuid event.unit_id)) [
        | inl e ↦ rw (e, dispatch_event) v
        | inr (unit, e) ↦
            rw (e, dispatch_event)
              ((send_to_all-Delivers channels (senders_for_unit unit registry)
                  (client_message event)
                  (record { registry = registry; buffers = buffers; sent_count = 0 })).indexed
                v)
      ]
