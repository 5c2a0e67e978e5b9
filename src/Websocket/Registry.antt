-- ===== src/Websocket/Registry.antt =====
-- src/websocket/registry.rs: the open connections, and their indexes by unit and by user.
pub mod Index
pub mod Invariant
pub mod Own
use alert_distributor.Base.{
  ℕ, Bool, not, Option, none, some, List, [], ◌∷◌, ◌++◌, Eq, ◌==◌, nat_eq, pair_eq, nat_beq, length,
  filter, is_empty, if◌then◌else◌, unwrap_or,
}
use alert_distributor.HashMap.{HashMap, get, remove, insert}

-- `mpsc::Sender` is the channel's; a connection only holds it.
pub record ConnectionContext (Sender : Type 0) : Type 0 where
  pub connection_id : ℕ
  pub user_id : ℕ
  pub organization_id : ℕ
  pub unit_ids : List ℕ
  pub sender : Sender

pub record RegistryState (Sender : Type 0) : Type 0 where
  pub connections : HashMap ℕ (ConnectionContext Sender)
  pub by_unit : HashMap ℕ (List ℕ)
  pub by_user : HashMap (ℕ × ℕ) (List ℕ)

abbrev pub no_connections : {Sender : Type 0} → RegistryState Sender
no_connections = record { connections = []; by_unit = []; by_user = [] }

module _ {K : Type 0} ⦃e : Eq K⦄ where
  abbrev pub ids_at : K → HashMap K (List ℕ) → List ℕ
  ids_at k m = unwrap_or (get k m) []

  -- `m.entry(k).or_default().push(id)`.
  unfoldable pub push_at : K → ℕ → HashMap K (List ℕ) → HashMap K (List ℕ)
  push_at k id m = insert k (ids_at k m ++ id ∷ []) m

  -- `if let Some(ids) = m.get_mut(k) { ids.retain(|x| x != id); if ids.is_empty() { m.remove(k) } }`.
  unfoldable pub retain_at : K → ℕ → HashMap K (List ℕ) → HashMap K (List ℕ)
  retain_at k id m = elim (get k m) [
    | none ↦ m
    | some ids ↦
        let kept = filter (λ x. not (nat_beq x id)) ids in
        if is_empty kept then remove k m else insert k kept m
  ]

  -- The two loops over the units of a connection.
  unfoldable pub push_all : List K → ℕ → HashMap K (List ℕ) → HashMap K (List ℕ)
  push_all [] id m = m
  push_all (k ∷ ks) id m = push_all ks id (push_at k id m)

  unfoldable pub retain_all : List K → ℕ → HashMap K (List ℕ) → HashMap K (List ℕ)
  retain_all [] id m = m
  retain_all (k ∷ ks) id m = retain_all ks id (retain_at k id m)

module _ {Sender : Type 0} where
  -- `connection_id` is the fresh `Uuid::new_v4()` that the method draws and returns.
  unfoldable pub add_connection :
      ℕ → ℕ → ℕ → List ℕ → Sender → RegistryState Sender → RegistryState Sender
  add_connection connection_id user org units sender s =
      let context : ConnectionContext Sender = record {
        connection_id = connection_id;
        user_id = user;
        organization_id = org;
        unit_ids = units;
        sender = sender;
      } in
      record {
        by_unit = push_all units connection_id s.by_unit;
        by_user = push_at (org, user) connection_id s.by_user;
        connections = insert connection_id context s.connections;
      }

  -- What `remove_connection` does once the connection is found.
  unfoldable pub forget : ℕ → ConnectionContext Sender → RegistryState Sender → RegistryState Sender
  forget id removed s = record {
    connections = remove id s.connections;
    by_unit = retain_all removed.unit_ids id s.by_unit;
    by_user = retain_at (removed.organization_id, removed.user_id) id s.by_user;
  }

  unfoldable pub remove_connection :
      ℕ → RegistryState Sender → Option (ConnectionContext Sender) × RegistryState Sender
  unfolding forget
  remove_connection id s = elim (get id s.connections) [
    | none ↦ (none, s)
    | some removed ↦ (some removed, forget id removed s)
  ]

  -- The loop over the ids of a unit.
  unfoldable pub targets : List ℕ → HashMap ℕ (ConnectionContext Sender) → List (ℕ × Sender)
  targets [] connections = []
  targets (id ∷ ids) connections =
      let rest = targets ids connections in
      elim (get id connections) [
        | none ↦ rest
        | some context ↦ (context.connection_id, context.sender) ∷ rest
      ]

  unfoldable pub senders_for_unit : ℕ → RegistryState Sender → List (ℕ × Sender)
  unfolding targets
  senders_for_unit unit s = targets (ids_at unit s.by_unit) s.connections

  unfoldable pub connections_for_user : ℕ → ℕ → RegistryState Sender → List ℕ
  connections_for_user org user s = ids_at (org, user) s.by_user

  unfoldable pub connection_count : RegistryState Sender → ℕ
  connection_count s = length s.connections
