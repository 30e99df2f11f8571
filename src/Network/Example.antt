-- ===== src/Network/Example.antt =====
-- examples/example_simple_network.rs: its `main`, up to the request that it sends. The set-up of the
-- traces is left out.
pub mod Answered
use mctp_emu.Prelude.{
  ℕ, ◌+◌, ◌*◌, ◌≡◌, refl, ap, sym, ◌∙◌, List, [], ◌∷◌, ◌++◌, drop, length, some, Bool, true, false,
  arith,
}
use mctp_emu.Prelude.Int.{ℤ, pos}
use mctp_emu.Crates.{Crates}
use mctp_emu.Base.Errors
use mctp_emu.Base.Wire.{to_bytes}
use mctp_emu.Base.TransportHeader
use mctp_emu.Control.Header
use mctp_emu.Control.CommandCode.{CommandCode}
use mctp_emu.Control.Payload
use mctp_emu.Control.Payload.{into_bytes}
use mctp_emu.Control.GetEid
use mctp_emu.Emu.{MctpEmuResult, ok, err, panics, ◌>>=◌, ◌>>◌}
use mctp_emu.Endpoint.Context.{MctpEndpointContext, returns}
use mctp_emu.Phys.Smbus
use mctp_emu.Phys.Smbus.{SmbusNetDevBinding}
use mctp_emu.Network.Types.{SocketAddress, extended}
use mctp_emu.Network.Simple
use mctp_emu.Network.Simple.{SimpleNetwork, socket, add_physical_binding}

-- `bind` of the binding, with the handle of the task that polls its socket.
abbrev pub bound : {J : Type 0} → J → ℕ → SmbusNetDevBinding → SmbusNetDevBinding × MctpEmuResult J
bound handle id b = let (b', r) = Smbus.bind id b in (b', (r >>= λ u. ok handle))

-- The binding, the network over it and the bound socket; `connected` is whether the UDP socket can be made.
unfoldable pub set_up :
    {S J : Type 0}
    → (connected : Bool) (handler handle : J)
    → MctpEmuResult (SmbusNetDevBinding × SimpleNetwork S J × ℤ)
set_up connected handler handle = do
  smbus_binding ← Smbus.new connected 0x10
  let ((binding, net), added) =
      add_physical_binding (bound handle) (Simple.new handler) smbus_binding
  added
  let (net', sd) = socket net
  let (net'', bound) = Simple.bind net' sd 0 0 0
  bound
  ok (binding, net'', sd)

-- The Get Endpoint ID request, of which `sendto` is given the part behind the transport header.
unfoldable pub request_bytes : ⦃c : Crates⦄ → List ℕ
request_bytes =
    let transport_hdr = TransportHeader.new 0 0 0 (some true) (some true) (some true) in
    let ctrl_hdr = Header.new CommandCode.get_endpoint_id 0 false true false in
    let req : GetEid.Request = record { hdr = ctrl_hdr } in
    drop 4 (into_bytes (Payload.new transport_hdr ctrl_hdr (to_bytes GetEid.request_wire req)))

abbrev pub dest_add : SocketAddress
dest_add = extended 0 1 1 0x25
