-- ===== src/Network/Types.antt =====
-- src/network/types.rs: socket addresses, clients and routes. The channels of a client are left out: no
-- code of the networks reads them.
pub mod Routes
pub mod Kernel
use mctp_emu.Prelude.{ℕ, List, [], ◌∷◌, Option, none, some, Bool, ◌&&◌, ◌==◌, leb, if◌then◌else◌}

pub data SocketAddress : Type 0 where
  basic : (address msg_type tag : ℕ) → SocketAddress
  extended : (address network binding_id phy_addr : ℕ) → SocketAddress

pub data ClientCallbackMsg : Type 0 where
  receive : (addr : SocketAddress) (buf : List ℕ) → ClientCallbackMsg

pub record Client : Type 0 where
  pub address : ℕ
  pub msg_type : ℕ
  pub tag : ℕ

pub record Route : Type 0 where
  pub min_eid : ℕ
  pub max_eid : ℕ
  pub net : ℕ
  pub mtu : ℕ
  pub route_type : ℕ

-- `Route::matches`.
unfoldable pub matches : Route → (dnet daddr : ℕ) → Bool
matches r dnet daddr = (dnet == r.net) && (leb r.min_eid daddr && leb daddr r.max_eid)

-- `VirtualNetwork::route_lookup`, over the network's routes.
unfoldable pub route_lookup : List Route → (dnet daddr : ℕ) → Option Route
route_lookup [] dnet daddr = none
route_lookup (route ∷ routes) dnet daddr =
    let rest = route_lookup routes dnet daddr in
    if matches route dnet daddr then some route else rest
