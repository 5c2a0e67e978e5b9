-- ===== src/Websocket/Handler/Closing.antt =====
-- What the end of a connection leaves in the registry.
use alert_distributor.Base.{ℕ, ◌≡◌, false, none, List, map, arith, nat_eq, ==_iff, contains}
use alert_distributor.HashMap.{get}
use alert_distributor.Websocket.Auth.{AuthContext}
use alert_distributor.Websocket.Registry.{
  RegistryState, add_connection, remove_connection, senders_for_unit,
}
use alert_distributor.Websocket.Registry.Invariant.{
  IsIndexed, add_connection-IsIndexed, remove_connection-IsIndexed, contains-senders_for_unit,
}
use alert_distributor.Websocket.Dispatcher.Sends.{connection-remove}
use alert_distributor.Websocket.Handler.{Input, Transport, Live, socket_loop, handle_socket}

module _ {Message Sender : Type 0} (transport : Transport Message) (heartbeat_timeout : ℕ) where
  -- When a connection is opened under an unused id in a registry whose indexes agree, the other
  -- tasks keep that agreement, and its loop ends, the registry behind it still agrees, has no
  -- connection of that id, and lists it as a sender of no unit.
  pub handle_socket_closes :
      (connection_id : ℕ) (auth : AuthContext) (units : List ℕ) (sender : Sender)
      (inputs : List (Input Message)) (live : Live transport heartbeat_timeout)
      (others : RegistryState Sender → RegistryState Sender) (registry : RegistryState Sender)
      → get connection_id registry.connections ≡ none
      → IsIndexed registry
      → ((r : RegistryState Sender) → IsIndexed r → IsIndexed (others r))
      → socket_loop transport heartbeat_timeout inputs live ≡ none
      → (after : RegistryState Sender) × (after
          ≡ handle_socket transport heartbeat_timeout connection_id auth units sender inputs live
              others registry)
        × IsIndexed after
        × (get connection_id after.connections ≡ none)
        × ((unit : ℕ)
            → contains connection_id (map (λ t. t.0) (senders_for_unit unit after)) ≡ false)
  unfolding handle_socket
  handle_socket_closes id auth units sender inputs live others registry fresh v keeps over =
      let running =
        others (add_connection id auth.user_id auth.organization_id units sender registry) in
      let after = (remove_connection id running).1 in
      let w = remove_connection-IsIndexed id running (
        keeps _ (
          add_connection-IsIndexed id auth.user_id auth.organization_id units sender registry fresh
            v)) in
      let gone : get id after.connections ≡ none =
        ground (arith, connection-remove id id running, ==_iff id id) in
      (
        after,
        ground (arith, over),
        w,
        gone,
        λ unit. ground (arith, contains-senders_for_unit unit id after w, gone),
      )
