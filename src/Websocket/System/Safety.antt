-- ===== src/Websocket/System/Safety.antt =====
-- What every step of the system keeps, whatever the interleaving.
use mathlib.Core.List.{Memᴰ}
use mathlib.Core.List.Memᴰ
use alert_distributor.Base.{ℕ, ◌≡◌, refl, sym, subst, inl, inr, Option, some, List, nat_eq}
use mathlib.Core.Option.{some-injective}
use alert_distributor.HashMap.{get}
use alert_distributor.Text.{Text}
use alert_distributor.Errors.{AppResult}
use alert_distributor.Permissions.Cache.{State}
use alert_distributor.Permissions.Cache.Invariant.{Inv}
use alert_distributor.Permissions.Cache.Invariant.Keeps.{deactivate_device-Inv}
use alert_distributor.Permissions.Cache.Write.{deactivate_device}
use alert_distributor.Kafka.ControlPlane.{Serde, apply_event}
use alert_distributor.Kafka.ControlPlane.Events.{apply_event-Overwrites}
use alert_distributor.Websocket.Auth.{JwtClaims}
use alert_distributor.Websocket.Handler.{upgrade, ws_handler}
use alert_distributor.Websocket.Registry.{RegistryState}
use alert_distributor.Websocket.Registry.Invariant.{
  IsIndexed, no_connections-IsIndexed, add_connection-IsIndexed, remove_connection-IsIndexed,
}
use alert_distributor.Websocket.Dispatcher.{
  ClientAlertMessage, SendResult, accepted, full, closed, drop_closed, Channels,
}
use alert_distributor.Websocket.System.{
  Opening, Sent, Flight, System, init, note_sent, write_cache, Step, apply, retire, connect,
  disconnect, receive, send, finish, Reach, start, later,
}
use alert_distributor.Websocket.System.Openings.{
  OpenedFor, OpenedFor-tail, Holds, Holds-remove, Holds-add, senders-OpenedFor,
}

module _ {Value Time : Type 0} (serde : Serde) (decode : Text → AppResult JwtClaims)
    (parse_uuid : Text → Option ℕ) (channels : Channels (ClientAlertMessage Value Time)) where
  open channels use {Sender}

  -- The handshake of a connection succeeded, on a well-formed cache.
  pub record Admitted (o : Opening Sender) : Type 0 where
    pub well_formed : Inv o.cache
    pub auth_header : Option Text
    pub upgraded : ws_handler decode parse_uuid auth_header o.cache ≡ upgrade o.context o.units

  pub record Safe (s : System Value Time Sender) : Type 0 where
    pub now : Memᴰ s.cache s.past
    pub lived : (c : State) → Memᴰ c s.past → Inv c
    pub indexed : IsIndexed s.registry
    pub admitted : (o : Opening Sender) → Memᴰ o s.opened → Admitted o
    pub held : Holds s.opened s.registry
    pub flying :
        (f : Flight Value Time Sender)
        → s.flight ≡ some f
        → (id : ℕ) (sender : Sender) → Memᴰ {A = ℕ × Sender} (id, sender) f.targets
        → OpenedFor s.opened (record { connection_id = id; unit = f.unit; sender = sender })
    pub delivered : (x : Sent Sender) → Memᴰ x s.sent → OpenedFor s.opened x

  init-Safe : (cache : State) → Inv cache → Safe (init cache)
  unfolding get
  init-Safe cache v = record {
    now = Memᴰ.head refl;
    lived = λ c m. elim (Memᴰ.cases_cons m) [
      | inl e ↦ subst Inv (sym e) v
      | inr m' ↦ absurd (Memᴰ.not-nil m')
    ];
    indexed = no_connections-IsIndexed;
    admitted = λ o m. absurd (Memᴰ.not-nil m);
    held = λ id c e. absurd cc;
    flying = λ f e. absurd cc;
    delivered = λ p m. absurd (Memᴰ.not-nil m);
  }

  write-Safe :
      (cache : State) (s : System Value Time Sender)
      → Inv cache
      → Safe s
      → Safe (write_cache serde decode parse_uuid channels cache s)
  write-Safe cache s v h = record {
    now = Memᴰ.head refl;
    lived = λ c m. elim (Memᴰ.cases_cons m) [ inl e ↦ subst Inv (sym e) v | inr m' ↦ h.lived c m' ];
    indexed = h.indexed;
    admitted = h.admitted;
    held = h.held;
    flying = h.flying;
    delivered = h.delivered;
  }

  sent-OpenedFor :
      (opened : List (Opening Sender)) (x : Sent Sender) (result : SendResult)
      (sent : List (Sent Sender))
      → OpenedFor opened x
      → ((y : Sent Sender) → Memᴰ y sent → OpenedFor opened y)
      → (y : Sent Sender) → Memᴰ y (note_sent x result sent)
      → OpenedFor opened y
  sent-OpenedFor opened x accepted sent o h y m = elim (Memᴰ.cases_cons m) [
    | inl e ↦ subst (OpenedFor opened) (sym e) o
    | inr m' ↦ h y m'
  ]
  sent-OpenedFor opened x full sent o h y m = h y m
  sent-OpenedFor opened x closed sent o h y m = h y m

  drop-IsIndexed :
      (id : ℕ) (result : SendResult) (r : RegistryState Sender)
      → IsIndexed r
      → IsIndexed (drop_closed channels id result r)
  unfolding drop_closed
  drop-IsIndexed id accepted r v = v
  drop-IsIndexed id full r v = v
  drop-IsIndexed id closed r v = remove_connection-IsIndexed id r v

  drop-Holds :
      (opened : List (Opening Sender)) (id : ℕ) (result : SendResult) (r : RegistryState Sender)
      → Holds opened r
      → Holds opened (drop_closed channels id result r)
  unfolding drop_closed
  drop-Holds opened id accepted r h = h
  drop-Holds opened id full r h = h
  drop-Holds opened id closed r h = Holds-remove opened id r h

  flight_of :
      (P : Flight Value Time Sender → Type 0) {f g : Flight Value Time Sender}
      → P f
      → some f ≡ some g
      → P g
  flight_of P {f} {g} p e = subst P (some-injective f g e) p

  step-Safe :
      {s t : System Value Time Sender} → Safe s → Step serde decode parse_uuid channels s t → Safe t
  step-Safe {s} h (apply payload) =
      write-Safe (apply_event serde payload s.cache).1 s
        ((apply_event-Overwrites serde payload).keeps s.cache (h.lived s.cache h.now)) h
  step-Safe {s} h (retire device_id) =
      write-Safe (deactivate_device device_id s.cache).1 s
        (deactivate_device-Inv (h.lived s.cache h.now) device_id) h
  step-Safe {s} h (connect auth_header o m e fresh) = record {
    now = h.now;
    lived = h.lived;
    indexed =
        add_connection-IsIndexed o.connection_id o.context.user_id o.context.organization_id o.units
          o.sender s.registry fresh h.indexed;
    admitted = λ p q. elim (Memᴰ.cases_cons q) [
      | inl same ↦
          subst Admitted (sym same)
            (record { well_formed = h.lived o.cache m; auth_header = auth_header; upgraded = e })
      | inr q' ↦ h.admitted p q'
    ];
    held = Holds-add s.opened o s.registry h.held;
    flying = λ f e' id sender c. OpenedFor-tail o (h.flying f e' id sender c);
    delivered = λ p q. OpenedFor-tail o (h.delivered p q);
  }
  step-Safe {s} h (disconnect id) = record {
    now = h.now;
    lived = h.lived;
    indexed = remove_connection-IsIndexed id s.registry h.indexed;
    admitted = h.admitted;
    held = Holds-remove s.opened id s.registry h.held;
    flying = h.flying;
    delivered = h.delivered;
  }
  step-Safe {s} h (receive event unit idle valid) = record {
    now = h.now;
    lived = h.lived;
    indexed = h.indexed;
    admitted = h.admitted;
    held = h.held;
    flying = λ f e.
        flight_of
          (λ (g : Flight Value Time Sender).
            (id : ℕ) (sender : Sender)
            → Memᴰ {A = ℕ × Sender} (id, sender) g.targets
            → OpenedFor s.opened (record { connection_id = id; unit = g.unit; sender = sender }))
          (senders-OpenedFor s.opened unit s.registry h.indexed h.held) e;
    delivered = h.delivered;
  }
  step-Safe {s} h (send unit id sender targets message result flown) = record {
    now = h.now;
    lived = h.lived;
    indexed = drop-IsIndexed id result s.registry h.indexed;
    admitted = h.admitted;
    held = drop-Holds s.opened id result s.registry h.held;
    flying = λ f e.
        flight_of
          (λ (g : Flight Value Time Sender).
            (other : ℕ) (channel : Sender)
            → Memᴰ {A = ℕ × Sender} (other, channel) g.targets
            → OpenedFor s.opened
                (record { connection_id = other; unit = g.unit; sender = channel }))
          (λ other channel m. h.flying _ flown other channel (Memᴰ.tail m)) e;
    delivered =
        sent-OpenedFor s.opened (record { connection_id = id; unit = unit; sender = sender }) result
          s.sent (h.flying _ flown id sender (Memᴰ.head refl)) h.delivered;
  }
  step-Safe {s} h (finish unit message flown) = record {
    now = h.now;
    lived = h.lived;
    indexed = h.indexed;
    admitted = h.admitted;
    held = h.held;
    flying = λ f e. absurd cc;
    delivered = h.delivered;
  }

  pub reach-Safe :
      (cache : State) {s : System Value Time Sender}
      → Inv cache
      → Reach serde decode parse_uuid channels cache s
      → Safe s
  reach-Safe cache v start = init-Safe cache v
  reach-Safe cache v (later r step) = step-Safe (reach-Safe cache v r) step
