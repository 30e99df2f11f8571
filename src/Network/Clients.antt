-- ===== src/Network/Clients.antt =====
-- src/network/simple_network.rs: the sockets of a network, its `HashMap` of clients as a function. The
-- same code stands in src/network/virtual_network.rs.
pub mod Sockets
use mctp_emu.Prelude.{ℕ, Option, none, some, Bool, true, false, if◌then◌else◌}
use mctp_emu.Prelude.Int.{ℤ, lt_int, eq_int, i32_add_one, i32_sub_one}
use mctp_emu.Emu.{MctpEmuResult, ok, err, panics, network, invalid_socket_error}
use mctp_emu.Network.Types.{Client}

pub record Clients : Type 0 where
  pub clients : ℤ → Option Client
  pub num_clients : ℤ

-- `socket`: the descriptor is the count so far.
unfoldable pub socket : Clients → Clients × ℤ
socket t = (record t { num_clients = i32_add_one t.num_clients }, t.num_clients)

insert : ℤ → Client → Clients → Clients
insert sd client t = record t { clients = λ k. if eq_int k sd then some client else t.clients k }

-- `bind`; the subtraction can overflow.
unfoldable pub bind : Clients → ℤ → (address msg_type tag : ℕ) → MctpEmuResult Clients
unfolding insert
bind t sd address msg_type tag = elim (i32_sub_one t.num_clients) [
  | none ↦ panics
  | some last ↦
      if lt_int sd last
      then err (network (invalid_socket_error sd))
      else ok (insert sd (record { address = address; msg_type = msg_type; tag = tag }) t)
]

-- `get_client`.
unfoldable pub get_client : Clients → ℤ → MctpEmuResult Client
get_client t sd = elim (t.clients sd) [
  | some client ↦ ok client
  | none ↦ err (network (invalid_socket_error sd))
]

abbrev pub no_clients : Clients
no_clients = record { clients = λ sd. none; num_clients = mctp_emu.Prelude.Int.pos 0 }
