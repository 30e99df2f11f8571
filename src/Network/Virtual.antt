-- ===== src/Network/Virtual.antt =====
-- src/network/virtual_network.rs: the network over many bindings, with routes. `B` is a binding's handle,
-- and `J` the handle of a task.
pub mod Bindings
pub mod Runs
use mctp_emu.Prelude.{
  ℕ, zero, suc, ◌+◌, ◌^◌, ◌%◌, List, [], ◌∷◌, ◌++◌, Option, none, some, ltb, get_elem?,
  if◌then◌else◌,
}
use mctp_emu.Prelude.Int.{ℤ}
use mctp_emu.Emu.{
  MctpEmuError, MctpEmuResult, ok, err, panics, invalid_binding_error, other_network,
}
use mctp_emu.Network.Types.{SocketAddress, basic, extended, Client, Route, route_lookup}
use mctp_emu.Phys.Smbus.{NetworkBindingCallbackMsg}
use mctp_emu.Network.Clients
use mctp_emu.Network.Clients.{Clients, no_clients}

pub record VirtualNetwork (B J : Type 0) : Type 0 where
  pub sockets : Clients
  pub routes : List Route
  pub net_devs : List B
  pub num_bindings : ℕ
  pub callback_handles : List J

-- `VirtualNetwork::new`, with the handle of the callback handler's task.
abbrev pub new : {B J : Type 0} → J → VirtualNetwork B J
new handler = record {
  sockets = no_clients;
  routes = [];
  net_devs = [];
  num_bindings = 0;
  callback_handles = handler ∷ [];
}

-- `n - 1` in `u64`; `none` is the overflow.
abbrev pub u64_sub_one : ℕ → Option ℕ
u64_sub_one zero = none
u64_sub_one (suc n) = some n

abbrev pub or_invalid : {B : Type 0} → ℕ → Option B → MctpEmuResult B
or_invalid binding_id none = err (MctpEmuError.network (invalid_binding_error binding_id))
or_invalid binding_id (some binding) = ok binding

module _ {B J : Type 0} where
  -- `get_binding`.
  unfoldable pub get_binding : VirtualNetwork B J → ℕ → MctpEmuResult B
  get_binding net binding_id = elim (u64_sub_one net.num_bindings) [
    | none ↦ panics
    | some last ↦
        if ltb binding_id last
        then err (MctpEmuError.network (invalid_binding_error binding_id))
        else or_invalid binding_id (get_elem? net.net_devs binding_id)
  ]

  -- `get_client`.
  unfoldable pub get_client : VirtualNetwork B J → ℤ → MctpEmuResult Client
  get_client net sd = Clients.get_client net.sockets sd

  -- `socket`.
  unfoldable pub socket : VirtualNetwork B J → VirtualNetwork B J × ℤ
  socket net = let (t, sd) = Clients.socket net.sockets in (record net { sockets = t }, sd)

  -- `bind`.
  unfoldable pub bind :
      VirtualNetwork B J
      → ℤ
      → (address msg_type tag : ℕ) → VirtualNetwork B J × MctpEmuResult (Unit {0})
  bind net sd address msg_type tag = elim (Clients.bind net.sockets sd address msg_type tag) [
    | ok t ↦ (record net { sockets = t }, ok tt)
    | err e ↦ (net, err e)
    | panics ↦ (net, panics)
  ]

  -- One message of `callback_handler`: the binding is looked up, and the result dropped, unless the look-up
  -- panics.
  unfoldable pub callback :
      VirtualNetwork B J → NetworkBindingCallbackMsg → MctpEmuResult (Unit {0})
  callback net (NetworkBindingCallbackMsg.receive id buf) = elim (get_binding net id) [
    | ok binding ↦ ok tt
    | err e ↦ ok tt
    | panics ↦ panics
  ]

  -- `join_handles`: the handles are taken out.
  unfoldable pub join_handles : VirtualNetwork B J → VirtualNetwork B J × List J
  join_handles net = (record net { callback_handles = [] }, net.callback_handles)

  -- `add_physical_binding`; `bound` is the answer of the binding's own `bind` under the id that it gets.
  unfoldable pub add_physical_binding :
      (bound : ℕ → B → MctpEmuResult J)
      → VirtualNetwork B J
      → B
      → VirtualNetwork B J × MctpEmuResult (Unit {0})
  add_physical_binding bound net binding =
      let bind_id = net.num_bindings in
      let net' = record net {
        num_bindings = (net.num_bindings + 1) % 2 ^ 64;
        net_devs = net.net_devs ++ (binding ∷ []);
      } in
      elim (bound bind_id binding) [
        | ok handle ↦
            (record net' { callback_handles = net.callback_handles ++ (handle ∷ []) }, ok tt)
        | err e ↦ (net', err (MctpEmuError.network other_network))
        | panics ↦ (net', panics)
      ]

  -- `sendto`: it ends in `todo!()` once a route is found.
  unfoldable pub sendto : VirtualNetwork B J → SocketAddress → MctpEmuResult (Unit {0})
  sendto net (basic address msg_type tag) = panics
  sendto net (extended address network binding_id phy_addr) =
      elim (route_lookup net.routes network address) [
        | none ↦ err MctpEmuError.other
        | some route ↦ panics
      ]
