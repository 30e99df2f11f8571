-- ===== src/Network/Example/Answered.antt =====
-- examples/example_simple_network.rs run against the endpoint of examples/basic_bus_owner_loop.rs.
use mctp_emu.Prelude.{
  ◌<◌, length, ℕ, ◌≡◌, refl, ap, List, [], ◌∷◌, ◌++◌, drop, Bool, true, false, arith,
}
use mctp_emu.Prelude.Int.{pos}
use mctp_emu.Crates.{Crates}
use mctp_emu.Base.Errors
use mctp_emu.Control.CommandCode.{CommandCode}
use mctp_emu.Control.GetEid
use mctp_emu.Emu.{ok}
use mctp_emu.Endpoint.Context.{MctpEndpointContext, returns}
use mctp_emu.Endpoint.Responder.{handle_request}
use mctp_emu.Endpoint.Responder.Requests.{Front, get_endpoint_id_answer}
use mctp_emu.Endpoint.Flow.Matching.{NoAnswer}
use mctp_emu.Endpoint.Transport.{Transport, transmitted, receive_msg, handle_cmd}
use mctp_emu.Endpoint.Transport.Frames.{datagram}
use mctp_emu.Endpoint.BusOwner.Packets.{request_lem, control_hdr}
use mctp_emu.Phys.Smbus
use mctp_emu.Phys.Smbus.{
  SmbusNetDevBinding, sent, transmit, NetworkBindingCallbackMsg, set_address,
  validate_smbus_address,
}
use mctp_emu.Network.Types.{Client}
use mctp_emu.Network.Clients
use mctp_emu.Network.Clients.{get_client}
use mctp_emu.Network.Simple
use mctp_emu.Network.Simple.{
  SimpleNetwork, packet, sendto, callback, delivered, response, socket, add_physical_binding,
}
use mctp_emu.Network.Simple.Exchange.{sent_tag, packet_lem}
use mctp_emu.Network.Simple.OverSmbus.{smbus_binding, sendto-handle_cmd}
use mctp_emu.Network.Example.{set_up, request_bytes, dest_add}

-- What `set_up` makes.
abbrev pub client : Client
client = record { address = 0; msg_type = 0; tag = 0 }

abbrev pub binding : SmbusNetDevBinding
binding = record { address = 0x10; network_id = 1; socket = true }

set_up_lem :
    {S J : Type 0} (handler handle : J)
    → (net : SimpleNetwork S J) × (set_up true handler handle ≡ ok (binding, net, pos 0))
      × (get_client net.sockets (pos 0) ≡ ok client)
      × (net.flows ≡ [])
      × (net.poisoned ≡ false)
unfolding set_up Smbus.new set_address validate_smbus_address Smbus.bind add_physical_binding socket
    Simple.bind Clients.socket Clients.bind get_client
set_up_lem handler handle = (_, refl, refl, refl, refl)

-- The packet of the request, and the endpoint's answer.
abbrev pub msg : List ℕ
msg = 1 ∷ 0 ∷ 0 ∷ 0xc8 ∷ 0 ∷ 0x80 ∷ 2 ∷ []

abbrev pub answer : List ℕ
answer = 1 ∷ 0 ∷ 0 ∷ 0xc0 ∷ 0 ∷ 0 ∷ 2 ∷ 0 ∷ 0 ∷ 0 ∷ 0 ∷ []

module _ ⦃c : Crates⦄ where
  request_bytes_lem : request_bytes ≡ 0 ∷ 0x80 ∷ 2 ∷ []
  unfolding request_bytes
  request_bytes_lem =
      let req : GetEid.Request = record { hdr = control_hdr CommandCode.get_endpoint_id 0 } in
      ap (drop 4) (request_lem GetEid.request_message req 0 0 0 0 CommandCode.get_endpoint_id refl)

  packet-client : packet client 0 (0 ∷ 0x80 ∷ 2 ∷ []) ≡ msg
  packet-client = packet_lem client 0 (0 ∷ 0x80 ∷ 2 ∷ [])

  packet-size : length (packet client 0 (0 ∷ 0x80 ∷ 2 ∷ [])) < 256
  packet-size = rw packet-client (omega arith)

  answered :
      (ctx : MctpEndpointContext) (sum : ℕ)
      → handle_request ctx (packet client 0 (0 ∷ 0x80 ∷ 2 ∷ []) ++ (sum ∷ []))
        ≡ (ctx, returns (Errors.ok answer))
  answered ctx sum =
      let f : Front = record {
        version = 1;
        dst = 0;
        src = 0;
        flags = 0xc8;
        first = 0;
        second = 0x80;
      } in
      rw packet-client (
        get_endpoint_id_answer ctx f (sum ∷ [])
          (record { flags_byte = omega arith; second_byte = omega arith }))

  module _ {S J S' : Type 0} (pec : List ℕ → ℕ) (listening : S → Bool) (resp : S)
      (far : Transport S') (listening' : S' → Bool) where
    -- The exchange over a network as `set_up` makes it.
    abbrev Exchanged : SimpleNetwork S J → Type 0
    Exchanged net =
        let frame = 0x4a ∷ 0x0f ∷ 7 ∷ 0x21 ∷ (msg ++ (pec msg ∷ [])) in
        let sum = pec (0x60 ∷ 0x0f ∷ 12 ∷ 0x21 ∷ answer) in
        (net' : SimpleNetwork S J) × (sendto (smbus_binding pec binding (sent 12) (sent 12)) net
            resp (pos 0) request_bytes dest_add
          ≡ (net', ok msg))
        × ((transmit pec binding (sent 12) (sent 12) msg 0x25).0 ≡ frame ∷ frame ∷ [])
        × (handle_cmd pec true listening' far (receive_msg frame)
            ≡ (far, transmitted (datagram pec answer)))
        × (callback listening net' (NetworkBindingCallbackMsg.receive 1 (datagram pec answer))
            ≡ (net, delivered resp (response 1 (answer ++ (sum ∷ [])))))

    exchanged :
        (net : SimpleNetwork S J)
        → get_client net.sockets (pos 0) ≡ ok client
        → net.flows ≡ []
        → net.poisoned ≡ false
        → NoAnswer (sent_tag client 0) far.pending_cmd
        → listening resp ≡ true
        → Exchanged net
    exchanged net found empty alive quiet heard =
        let (net', s, t, h, r, _) =
          sendto-handle_cmd pec binding net listening far listening' (pos 0) client 0 1 0x25 0 0x80
            2 [] resp (sent 12) far.ctx answer (omega arith) (omega arith) (omega arith) refl
            packet-size found alive (rw empty tt) quiet
            (answered far.ctx (pec (packet client 0 (0 ∷ 0x80 ∷ 2 ∷ [])))) (omega arith) heard in
        (
          net',
          rw request_bytes_lem (rw packet-client at s),
          rw packet-client at t,
          rw packet-client at h,
          r,
        )

    -- The request that `main` of the example sends, over the network that it sets up, to the endpoint of
    -- the other example gets the answer of a simple endpoint with EID 0, whatever the endpoint's context
    -- is: where the sockets work, the endpoint waits for no such packet, and the channel is listened to,
    -- the datagram on the wire makes the endpoint send the datagram that the network hands to the channel.
    pub set_up-sendto :
        (handler handle : J)
        → let frame = 0x4a ∷ 0x0f ∷ 7 ∷ 0x21 ∷ (msg ++ (pec msg ∷ [])) in
          let sum = pec (0x60 ∷ 0x0f ∷ 12 ∷ 0x21 ∷ answer) in
          NoAnswer (sent_tag client 0) far.pending_cmd
          → listening resp ≡ true
          → (net : SimpleNetwork S J) × (set_up true handler handle ≡ ok (binding, net, pos 0))
            × (net' : SimpleNetwork S J) × (sendto
                  (smbus_binding pec binding (sent 12) (sent 12))
                  net
                  resp
                  (pos 0)
                  request_bytes
                  dest_add
                ≡ (net', ok msg))
            × ((transmit pec binding (sent 12) (sent 12) msg 0x25).0 ≡ frame ∷ frame ∷ [])
            × (handle_cmd pec true listening' far (receive_msg frame)
                ≡ (far, transmitted (datagram pec answer)))
            × (callback listening net' (NetworkBindingCallbackMsg.receive 1 (datagram pec answer))
                ≡ (net, delivered resp (response 1 (answer ++ (sum ∷ [])))))
    set_up-sendto handler handle quiet heard =
        let (net, made, found, empty, alive) = set_up_lem handler handle in
        let (net', s, t, h, r) = exchanged net found empty alive quiet heard in
        (net, made, net', s, t, h, r)
