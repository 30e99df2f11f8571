-- ===== src/Network/Simple/Tests.antt =====
-- The network over one binding: the theorems on it at concrete requests.
use mctp_emu.Prelude.{
  ℕ, ◌+◌, ◌≡◌, refl, length, List, [], ◌∷◌, ◌++◌, some, Bool, true, false, arith,
}
use mctp_emu.Prelude.Int.{pos}
use mctp_emu.Crates.Reference.{reference}
use mctp_emu.Emu.{MctpEmuError, ok, err, panics}
use mctp_emu.Endpoint.Responder.Tests.{start}
use mctp_emu.Endpoint.Responder.Requests.{get_endpoint_id_answer}
use mctp_emu.Endpoint.Flow.Matching.{create_tag_lem}
use mctp_emu.Crates.Mpsc.{Mpsc, list_channel}
use mctp_emu.Endpoint.Program
use mctp_emu.Endpoint.Context.{MctpEndpointContext, returns}
use mctp_emu.Base.Errors
use mctp_emu.Endpoint.Responder.{handle_request}
use mctp_emu.Endpoint.Program.Pass.{Awake}
use mctp_emu.Phys.Smbus.{poll_socket}
use mctp_emu.Network.Simple.{unclaimed}
use mctp_emu.Network.Simple.Requests.{Request}
use mctp_emu.Network.Simple.OverProgram.{hear, serve, sendto-serve}
use mctp_emu.Endpoint.Transport.{
  PhysicalTransportCommands, main_context, transmitted, receive_msg, handle_cmd,
}
use mctp_emu.Endpoint.Transport.Frames.{datagram}
use mctp_emu.Endpoint.Transport.Tests.{pec, fresh}
use mctp_emu.Phys.Smbus.{SmbusNetDevBinding, sent, transmit, NetworkBindingCallbackMsg}
use mctp_emu.Network.Types.{extended}
use mctp_emu.Network.Clients.{get_client}
use mctp_emu.Network.Simple.{
  NetworkBinding, SimpleNetwork, packet, response, sendto, callback, delivered, aborted, finish,
}
use mctp_emu.Network.Simple.Exchange.{packet_lem}
use mctp_emu.Network.Simple.Life.{Run}
use mctp_emu.Network.Simple.Abandoned.{sendto-abandoned}
use mctp_emu.Network.Simple.OverSmbus.{smbus_binding, sendto-handle_cmd}
use mctp_emu.Network.Example.{request_bytes, dest_add, set_up}
use mctp_emu.Network.Example.Answered
use mctp_emu.Network.Example.Answered.{set_up-sendto}
use mctp_emu.Network.Tests.{client, simple, listening, reply, front}

abbrev wire : SmbusNetDevBinding
wire = record { address = 0x10; network_id = 1; socket = true }

-- Every endpoint answers a request for its EID.
abbrev reply_of : ℕ → List ℕ
reply_of address = 1 ∷ 8 ∷ address ∷ 0xc2 ∷ 0 ∷ 5 ∷ 2 ∷ 0 ∷ 0 ∷ 0 ∷ 0 ∷ []

answers :
    (address : ℕ) (ctx : MctpEndpointContext)
    → handle_request ctx (packet client address (0 ∷ 0x85 ∷ 2 ∷ []) ++ (0x5a ∷ []))
      ≡ (ctx, returns (Errors.ok (reply_of address)))
answers address ctx = rw (packet_lem client address (0 ∷ 0x85 ∷ 2 ∷ [])) (
    get_endpoint_id_answer ctx (record front { dst = address }) (0x5a ∷ [])
      (record { flags_byte = omega arith; second_byte = omega arith }))

sendto-handle_cmd_example :
    let buf = packet client 10 (0 ∷ 0x85 ∷ 2 ∷ []) in
    let sent_frame = 0x4a ∷ 0x0f ∷ length buf ∷ 0x21 ∷ (buf ++ (0x5a ∷ [])) in
    (net' : SimpleNetwork ℕ ℕ) × (sendto
        (smbus_binding pec wire (sent 12) (sent (length buf + 5)))
        simple
        100
        (pos 1)
        (0 ∷ 0x85 ∷ 2 ∷ [])
        (extended 10 1 1 0x25)
      ≡ (net', ok buf))
    × ((transmit pec wire (sent 12) (sent (length buf + 5)) buf 0x25).0
        ≡ sent_frame ∷ sent_frame ∷ [])
    × (handle_cmd pec true (λ resp. true) fresh (receive_msg sent_frame)
        ≡ (fresh, transmitted (datagram pec reply)))
    × (callback listening net' (NetworkBindingCallbackMsg.receive 1 (datagram pec reply))
        ≡ (simple, delivered 100 (response 1 (reply ++ (0x5a ∷ [])))))
    × (finish (some (response 1 (reply ++ (0x5a ∷ []))))
        ≡ ok (extended 0 1 1 0, reply ++ (0x5a ∷ [])))
sendto-handle_cmd_example =
    sendto-handle_cmd pec wire simple listening fresh (λ resp. true) (pos 1) client 10 1 0x25 0 0x85
      2 [] 100 (sent 12) start reply (omega arith) (omega arith) (omega arith) refl
      (rw (packet_lem client 10 (0 ∷ 0x85 ∷ 2 ∷ [])) (omega arith)) (unfold get_client in refl) refl
      tt tt (answers 10 start) (omega arith) refl

-- A program as `main` starts it, at the far end of the wire.
abbrev channel :
    Mpsc Program.capacity (PhysicalTransportCommands ℕ) (List (PhysicalTransportCommands ℕ))
channel = list_channel Program.capacity (PhysicalTransportCommands ℕ)

abbrev far : Program.Program ℕ (List (PhysicalTransportCommands ℕ))
far = Program.start channel main_context

sendto-serve_example :
    let buf = packet client 10 (0 ∷ 0x85 ∷ 2 ∷ []) in
    let twice = datagram pec reply ∷ datagram pec reply ∷ [] in
    (net' : SimpleNetwork ℕ ℕ) × (sendto
        (smbus_binding pec wire (sent (length buf + 5)) (sent (length buf + 5)))
        simple
        100
        (pos 1)
        (0 ∷ 0x85 ∷ 2 ∷ [])
        (extended 10 1 1 0x25)
      ≡ (net', ok buf))
    × (far' : Program.Program ℕ (List (PhysicalTransportCommands ℕ))) × (serve channel pec listening
          far
          (transmit pec wire (sent (length buf + 5)) (sent (length buf + 5)) buf 0x25).0
        ≡ (far', twice))
    × Awake channel far'
    × (far'.transport ≡ fresh)
    × (hear listening net' (poll_socket 1 twice)
        ≡ (simple, delivered 100 (response 1 (reply ++ (0x5a ∷ []))) ∷ unclaimed ∷ []))
sendto-serve_example =
    sendto-serve pec wire simple listening channel far listening (pos 1) client 10 1 0x25 0 0x85 2
      [] 100 main_context main_context reply reply (omega arith) (omega arith) (omega arith) refl
      (rw (packet_lem client 10 (0 ∷ 0x85 ∷ 2 ∷ [])) (omega arith)) (unfold get_client in refl) refl
      tt (refl, [], refl, refl) tt (answers 10 main_context) (answers 10 main_context) (omega arith)
      (omega arith) refl

-- Requests of one client.
abbrev asking : (address resp : ℕ) → Request ℕ
asking address resp = record {
  sd = pos 1;
  client = client;
  address = address;
  network = 1;
  phy_addr = 0x25;
  first = 0;
  second = 0x85;
  command = 2;
  body = [];
  resp = resp;
  remote = start;
  remote' = start;
  reply = reply_of address;
}

-- A binding that does not get its packet out, and a channel that nobody listens to.
abbrev broken : NetworkBinding
broken = record { transmit = λ buf phy_addr. err MctpEmuError.other }

abbrev deaf : ℕ → Bool
deaf resp = false

sendto-abandoned_example :
    let after_send = sendto broken simple 100 (pos 1) (0 ∷ 0x85 ∷ 2 ∷ []) (extended 10 1 1 0x25) in
    let after_reply =
      callback deaf after_send.0
        (NetworkBindingCallbackMsg.receive 1 (0x20 ∷ 0x0f ∷ 11 ∷ 0x4b ∷ reply)) in
    (after_send.1 ≡ panics)
    × (after_reply.1 ≡ aborted 100)
    × ((asked gone : List ℕ) (net' : SimpleNetwork ℕ ℕ)
        → Run after_reply.0 asked gone net'
        → gone ≡ [])
sendto-abandoned_example =
    sendto-abandoned broken deaf simple 100 client 10 (pos 1) 1 0x25 (0 ∷ 0x85 ∷ 2 ∷ [])
      MctpEmuError.other 1 0x20 0x0f 11 0x4b reply (unfold get_client in refl) refl refl tt refl
      (create_tag_lem 1 8 10 0xc2 (0 ∷ 5 ∷ 2 ∷ 0 ∷ 0 ∷ 0 ∷ 0 ∷ []) (omega arith))

set_up-sendto_example :
    let frame = 0x4a ∷ 0x0f ∷ 7 ∷ 0x21 ∷ (Answered.msg ++ (0x5a ∷ [])) in
    (net : SimpleNetwork ℕ ℕ) × (set_up true 300 301 ≡ ok (wire, net, pos 0))
    × (net' : SimpleNetwork ℕ ℕ) × (sendto
          (smbus_binding pec wire (sent 12) (sent 12))
          net
          100
          (pos 0)
          request_bytes
          dest_add
        ≡ (net', ok Answered.msg))
    × ((transmit pec wire (sent 12) (sent 12) Answered.msg 0x25).0 ≡ frame ∷ frame ∷ [])
    × (handle_cmd pec true (λ resp. true) fresh (receive_msg frame)
        ≡ (fresh, transmitted (datagram pec Answered.answer)))
    × (callback listening net' (NetworkBindingCallbackMsg.receive 1 (datagram pec Answered.answer))
        ≡ (net, delivered 100 (response 1 (Answered.answer ++ (0x5a ∷ [])))))
set_up-sendto_example = set_up-sendto pec listening 100 fresh (λ resp. true) 300 301 tt refl
