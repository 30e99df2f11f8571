-- ===== src/Network/Tests.antt =====
-- Networks, and the theorems on them at concrete sockets, routes, bindings and packets.
use mctp_emu.Prelude.{
  ℕ, ◌≡◌, ◌⊎◌, refl, List, [], ◌∷◌, some, none, Bool, true, false, arith, if◌then◌else◌, All, ◌++◌,
  ◌==◌, ◌<◌, ◌≤◌, length,
}
use mctp_emu.Prelude.Int.{ℤ, pos, eq_int}
use mctp_emu.Crates.Reference.{reference}
use mctp_emu.Emu.{
  MctpEmuError, MctpEmuResult, ok, err, panics, invalid_socket_error, invalid_binding_error,
}
use mctp_emu.Endpoint.Responder.Requests.{Front}
use mctp_emu.Network.Types.{Client, Route, extended, route_lookup}
use mctp_emu.Network.Types.Routes.{Leads, FirstRoute, route_lookup_lem}
use mctp_emu.Network.Clients.{Clients, bind, get_client}
use mctp_emu.Network.Clients.Sockets.{bind_cases}
use mctp_emu.Network.Interface.{simple_network, get_client-bind-socket}
use mctp_emu.Network.Simple.{NetworkBinding, SimpleNetwork}
use mctp_emu.Network.Virtual.{VirtualNetwork, get_binding, add_physical_binding}
use mctp_emu.Network.Virtual
use mctp_emu.Network.Virtual.Runs
use mctp_emu.Network.Virtual.Runs.{Reach, next, open_socket, add_binding, sendto-Reach}
use mctp_emu.Network.Virtual.Bindings.{get_binding-Reach}

abbrev pub client : Client
client = record { address = 8; msg_type = 0; tag = 2 }

-- Two sockets were handed out, and the second is bound.
abbrev pub table : Clients
table = record {
  clients = λ sd. if eq_int sd (pos 1) then some client else none;
  num_clients = pos 2;
}

bind_cases_example :
    ((◌<◌ 0 1)
      × (bind table (pos 0) 9 0 0 ≡ err (MctpEmuError.network (invalid_socket_error (pos 0)))))
    ⊎ ((1 ≤ 0)
        × (t' : Clients) × (bind table (pos 0) 9 0 0 ≡ ok t')
        × ((other : ℤ)
            → get_client t' other ≡ (
                if eq_int other (pos 0)
                then ok (record { address = 9; msg_type = 0; tag = 0 })
                else get_client table other)))
bind_cases_example = bind_cases table 1 0 9 0 0 refl

abbrev route : (min_eid max_eid : ℕ) → Route
route min_eid max_eid = record {
  min_eid = min_eid;
  max_eid = max_eid;
  net = 1;
  mtu = 64;
  route_type = 0;
}

route_lookup_lem_example :
    let routes = route 8 9 ∷ route 10 20 ∷ route 12 12 ∷ [] in
    (All (λ q. ¬ Leads q 1 12) routes × (route_lookup routes 1 12 ≡ none))
    ⊎ ((r : Route) × (route_lookup routes 1 12 ≡ some r) × FirstRoute routes 1 12 r)
route_lookup_lem_example = route_lookup_lem (route 8 9 ∷ route 10 20 ∷ route 12 12 ∷ []) 1 12

abbrev bound : ℕ → ℕ → MctpEmuResult ℕ
bound id binding = ok 303

-- A routed network to which two bindings were added.
abbrev two_bindings : VirtualNetwork ℕ ℕ
two_bindings = (add_physical_binding bound (add_physical_binding bound (Virtual.new 300) 70).0 71).0

get_binding-Reach_example :
    ((two_bindings.net_devs ≡ []) × (get_binding two_bindings 0 ≡ panics))
    ⊎ ((earlier : List ℕ) × (last : ℕ) × (two_bindings.net_devs ≡ earlier ++ (last ∷ []))
        × (get_binding two_bindings 0 ≡ (
            if 0 == length earlier
            then ok last
            else err (MctpEmuError.network (invalid_binding_error 0)))))
unfolding add_physical_binding
get_binding-Reach_example =
    get_binding-Reach 300 two_bindings 0
      (next (next Runs.start (add_binding bound 70)) (add_binding bound 71)) (omega arith)

-- A Get Endpoint ID request to EID 10 over a network with nothing pending.
abbrev pub simple : SimpleNetwork ℕ ℕ
simple = record { sockets = table; flows = []; poisoned = false; callback_handles = 300 ∷ [] }

abbrev pub working : NetworkBinding
working = record { transmit = λ buf phy_addr. ok tt }

abbrev pub listening : ℕ → Bool
listening resp = true

abbrev pub reply : List ℕ
reply = 1 ∷ 8 ∷ 10 ∷ 0xc2 ∷ 0 ∷ 5 ∷ 2 ∷ 0 ∷ 0 ∷ 0 ∷ 0 ∷ []

abbrev pub front : Front
front = record { version = 1; dst = 10; src = 8; flags = 0xca; first = 0; second = 0x85 }

-- A network with routes, a socket and a binding.
sendto-Reach_example :
    Virtual.sendto
      (add_physical_binding bound (Virtual.socket (Virtual.new 300)).0 72).0
      (extended 10 1 0 0x25)
    ≡ err MctpEmuError.other
sendto-Reach_example =
    sendto-Reach 300 _ 10 1 0 0x25 (next (next Runs.start open_socket) (add_binding bound 72))

-- The third socket of the network, and one bound before it.
get_client-bind-socket_example :
    let (net', sd) = simple_network.socket simple in
    let (net'', bound) = simple_network.bind net' sd 9 0 3 in
    (sd ≡ pos 2)
    × (bound ≡ ok tt)
    × ((simple_network.sockets_of net'').num_clients ≡ pos 3)
    × ((other : ℤ)
        → get_client (simple_network.sockets_of net'') other ≡ (
            if eq_int other (pos 2)
            then ok (record { address = 9; msg_type = 0; tag = 3 })
            else get_client table other))
get_client-bind-socket_example =
    get_client-bind-socket simple_network simple 2 9 0 3 refl (omega arith)
