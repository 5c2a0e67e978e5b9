-- ===== src/Websocket/Registry/Invariant.antt =====
-- The indexes agree with the connections, and what the readers of the registry return.
use alert_distributor.Base.{
  ℕ, ◌≡◌, refl, ◌&&◌, none, some, List, [], ◌∷◌, map, arith, nat_eq, pair_eq, nat_beq, is_some,
  contains, contains-nil, contains-cons, Option-cases, inl, inr,
}
use alert_distributor.HashMap.{
  HashMap, get, get-insert, get-remove, holds_for, IsMap, insert-IsMap, remove-IsMap,
}
use alert_distributor.Websocket.Registry.{
  ConnectionContext, RegistryState, no_connections, ids_at, add_connection, forget,
  remove_connection, targets, senders_for_unit,
}
use alert_distributor.Websocket.Registry.Index.{
  HasNoEmpty, contains-push_at, contains-retain_at, contains-push_all, contains-retain_all,
  push_at-HasNoEmpty, retain_at-HasNoEmpty, push_all-HasNoEmpty, retain_all-HasNoEmpty,
}

module _ {Sender : Type 0} where
  pub record IsIndexed (s : RegistryState Sender) : Type 0 where
    pub by_unit :
        (unit id : ℕ)
        → contains id (ids_at unit s.by_unit)
          ≡ holds_for (λ c. contains unit c.unit_ids) (get id s.connections)
    pub by_user :
        (org user id : ℕ)
        → contains id (ids_at {K = ℕ × ℕ} (org, user) s.by_user)
          ≡ holds_for
              (λ c. nat_beq c.organization_id org && nat_beq c.user_id user)
              (get id s.connections)
    pub own_id :
        (id : ℕ) (c : ConnectionContext Sender)
        → get id s.connections ≡ some c
        → c.connection_id ≡ id
    pub is_map : IsMap s.connections
    pub units_used : HasNoEmpty s.by_unit
    pub users_used : HasNoEmpty s.by_user

  pub no_connections-IsIndexed : IsIndexed no_connections
  unfolding get contains
  no_connections-IsIndexed = record {
    by_unit = λ unit id. refl;
    by_user = λ org user id. refl;
    own_id = λ id c e. cc;
    is_map = tt;
    units_used = λ k. refl;
    users_used = λ k. refl;
  }

  -- When the indexes of the registry agree with its connections and the drawn id is not in use,
  -- they agree after `add_connection`: the new connection is listed under its user and under each
  -- of its units, and nothing else changes.
  pub add_connection-IsIndexed :
      (id user org : ℕ) (units : List ℕ) (sender : Sender) (s : RegistryState Sender)
      → get id s.connections ≡ none
      → IsIndexed s
      → IsIndexed (add_connection id user org units sender s)
  unfolding add_connection
  add_connection-IsIndexed id user org units sender s fresh v =
      let c : ConnectionContext Sender = record {
        connection_id = id;
        user_id = user;
        organization_id = org;
        unit_ids = units;
        sender = sender;
      } in
      record {
        by_unit = λ n x. ground (
          arith,
          contains-push_all units n id x s.by_unit,
          get-insert id x c s.connections,
          v.by_unit n x,
        );
        by_user = λ o u x. ground (
          arith,
          contains-push_at {K = ℕ × ℕ} (org, user) (o, u) id x s.by_user,
          get-insert id x c s.connections,
          v.by_user o u x,
        );
        own_id = λ x d e. ground (arith, get-insert id x c s.connections, v.own_id x d);
        is_map = insert-IsMap id c s.connections v.is_map;
        units_used = push_all-HasNoEmpty units id s.by_unit v.units_used;
        users_used = push_at-HasNoEmpty (org, user) id s.by_user v.users_used;
      }

  forget-IsIndexed :
      (id : ℕ) (c : ConnectionContext Sender) (s : RegistryState Sender)
      → get id s.connections ≡ some c
      → IsIndexed s
      → IsIndexed (forget id c s)
  unfolding forget
  forget-IsIndexed id c s found v = record {
    by_unit = λ n x. ground (
      arith,
      contains-retain_all c.unit_ids n id x s.by_unit,
      get-remove id x s.connections,
      v.by_unit n x,
      found,
    );
    by_user = λ o u x. ground (
      arith,
      contains-retain_at {K = ℕ × ℕ} (c.organization_id, c.user_id) (o, u) id x s.by_user,
      get-remove id x s.connections,
      v.by_user o u x,
      found,
    );
    own_id = λ x d e. ground (arith, get-remove id x s.connections, v.own_id x d);
    is_map = remove-IsMap id s.connections v.is_map;
    units_used = retain_all-HasNoEmpty c.unit_ids id s.by_unit v.units_used;
    users_used = retain_at-HasNoEmpty (c.organization_id, c.user_id) id s.by_user v.users_used;
  }

  -- When the indexes of the registry agree with its connections, they still do after
  -- `remove_connection` of any id, known or not: both indexes list exactly the connections that are
  -- left, and no index entry is empty.
  pub remove_connection-IsIndexed :
      (id : ℕ) (s : RegistryState Sender) → IsIndexed s → IsIndexed (remove_connection id s).1
  unfolding remove_connection
  remove_connection-IsIndexed id s v = elim (Option-cases (get id s.connections)) [
    | inl e ↦ rw (e, remove_connection) v
    | inr (c, e) ↦ rw (e, remove_connection) (forget-IsIndexed id c s e v)
  ]

  contains-targets :
      (ids : List ℕ) (connections : HashMap ℕ (ConnectionContext Sender)) (id : ℕ)
      → ((x : ℕ) (c : ConnectionContext Sender) → get x connections ≡ some c → c.connection_id ≡ x)
      → contains id (map (λ t. t.0) (targets ids connections))
        ≡ (contains id ids && is_some (get id connections))
  unfolding targets
  contains-targets [] connections id own = ground (arith, contains-nil id)
  contains-targets (x ∷ xs) connections id own = elim (Option-cases (get x connections)) [
    | inl e ↦
        rw (e, targets)
          (ground (arith, contains-targets xs connections id own, contains-cons id x xs, e))
    | inr (c, e) ↦
        rw (e, targets)
          (ground (
            arith,
            contains-targets xs connections id own,
            contains-cons id x xs,
            contains-cons id c.connection_id (map (λ t. t.0) (targets xs connections)),
            own x c e,
            e,
          ))
  ]

  -- When the indexes agree with the connections, `senders_for_unit` returns a sender for a
  -- connection id exactly when that id is an open connection subscribed to the unit.
  pub contains-senders_for_unit :
      (unit id : ℕ) (s : RegistryState Sender)
      → IsIndexed s
      → contains id (map (λ t. t.0) (senders_for_unit unit s))
        ≡ holds_for (λ c. contains unit c.unit_ids) (get id s.connections)
  unfolding senders_for_unit
  contains-senders_for_unit unit id s v =
      ground (
        arith,
        contains-targets (ids_at unit s.by_unit) s.connections id v.own_id,
        v.by_unit unit id,
      )
