-- ===== src/Network/Simple/OverSmbus.antt =====
-- A network over the SMBus binding of src/phys/smbus_netdev.rs, with the endpoint of
-- examples/basic_bus_owner_loop.rs on the other end, as examples/example_simple_network.rs sets it up.
use mctp_emu.Prelude.{
  ℕ, ◌+◌, ◌*◌, ◌≤◌, ◌<◌, ◌≡◌, refl, ap, ◌∙◌, List, [], ◌∷◌, ◌++◌, length, some, Bool, true, false,
  arith,
}
use mctp_emu.Prelude.Int.{ℤ}
use mctp_emu.Crates.{Crates}
use mctp_emu.Base.Errors
use mctp_emu.Emu.{ok}
use mctp_emu.Endpoint.Context.{MctpEndpointContext, returns}
use mctp_emu.Endpoint.Responder.{handle_request}
use mctp_emu.Endpoint.Flow.{create_tag}
use mctp_emu.Endpoint.Flow.Matching.{NoAnswer, create_tag_lem}
use mctp_emu.Endpoint.Transport.{Transport, transmitted, receive_msg, handle_cmd}
use mctp_emu.Endpoint.Transport.Frames.{datagram, receive_request_lem}
use mctp_emu.Phys.Smbus.{SmbusNetDevBinding, Sent, sent, transmit, NetworkBindingCallbackMsg}
use mctp_emu.Phys.Smbus.Frames.{transmit_lem}
use mctp_emu.Network.Types.{Client, extended}
use mctp_emu.Network.Clients.{get_client}
use mctp_emu.Network.Simple.{
  NetworkBinding, SimpleNetwork, packet, sendto, callback, delivered, response, finish,
}
use mctp_emu.Network.Simple.Exchange.{
  sent_tag, reply_tag, sent_flags, tag_with-sent, packet_lem, sendto-callback,
}

module _ ⦃c : Crates⦄ (pec : List ℕ → ℕ) where
  -- `impl NetworkBinding for SmbusNetDevBinding`, with what the socket answers to the two sends. The
  -- datagrams of `transmit` are those handed to the socket, whether it takes them or not.
  abbrev pub smbus_binding : SmbusNetDevBinding → (first second : Sent) → NetworkBinding
  smbus_binding b first second = record {
    transmit = λ buf phy_addr. (transmit pec b first second buf phy_addr).1;
  }

  pub create_tag-packet_pec :
      (client : Client) (address sum : ℕ) (payload : List ℕ)
      → create_tag (packet client address payload ++ (sum ∷ [])) ≡ some (sent_tag client address)
  create_tag-packet_pec client address sum payload =
      ap (λ l. create_tag (l ++ (sum ∷ []))) (packet_lem client address payload)
      ∙ create_tag_lem 1 address client.address (sent_flags client.tag) (payload ++ (sum ∷ []))
          (omega arith)
      ∙ ap some (tag_with-sent client address)

-- The two ends, and a request from the one to the other.
module _ ⦃c : Crates⦄ {S J S' : Type 0} (pec : List ℕ → ℕ) (b : SmbusNetDevBinding)
    (net : SimpleNetwork S J) (listening : S → Bool) (far : Transport S')
    (listening' : S' → Bool) where
  -- A request from a bound socket to an endpoint on the SMBus gets the endpoint's reply. The binding has a
  -- connected socket that takes the whole frame and a 7-bit address, the packet of the request is shorter
  -- than 256 bytes, and goes to a valid address; the endpoint replies in less than 255 bytes and waits for
  -- no such packet itself; no older flow waits for that same reply, the network's handler is alive, and
  -- the channel is listened to. Then the datagram that `sendto` puts on the wire makes the endpoint send a
  -- datagram that makes `sendto` return the reply, with the checksum behind it, and the network is as
  -- before.
  pub sendto-handle_cmd :
      (sd : ℤ) (client : Client) (address network phy_addr x y n : ℕ) (body : List ℕ) (resp : S)
      (first : Sent) (ctx : MctpEndpointContext) (reply : List ℕ)
      → let payload = x ∷ y ∷ n ∷ body in
        let msg = packet client address payload in
        let frame =
          (2 * phy_addr) ∷ 0x0f ∷ length msg ∷ (2 * b.address + 1) ∷ (msg ++ (pec msg ∷ [])) in
        let second = sent (length msg + 5) in
        let sum = pec (0x60 ∷ 0x0f ∷ (length reply + 1) ∷ 0x21 ∷ reply) in
        8 ≤ phy_addr
        → phy_addr ≤ 0x77
        → b.address < 128
        → b.socket ≡ true
        → length msg < 256
        → get_client net.sockets sd ≡ ok client
        → net.poisoned ≡ false
        → NoAnswer (reply_tag client address) net.flows
        → NoAnswer (sent_tag client address) far.pending_cmd
        → handle_request far.ctx (msg ++ (pec msg ∷ [])) ≡ (ctx, returns (Errors.ok reply))
        → length reply < 255
        → listening resp ≡ true
        → (net' : SimpleNetwork S J) × (sendto
              (smbus_binding pec b first second)
              net
              resp
              sd
              payload
              (extended address network 1 phy_addr)
            ≡ (net', ok msg))
          × ((transmit pec b first second msg phy_addr).0 ≡ frame ∷ frame ∷ [])
          × (handle_cmd pec true listening' far (receive_msg frame)
              ≡ (record far { ctx = ctx }, transmitted (datagram pec reply)))
          × (callback listening net' (NetworkBindingCallbackMsg.receive 1 (datagram pec reply))
              ≡ (net, delivered resp (response 1 (reply ++ (sum ∷ [])))))
          × (finish (some (response 1 (reply ++ (sum ∷ []))))
              ≡ ok (extended 0 1 1 0, reply ++ (sum ∷ [])))
  sendto-handle_cmd sd client address network phy_addr x y n body resp first ctx reply lo hi own up
        size found alive quiet quiet' replied short heard =
      let payload = x ∷ y ∷ n ∷ body in
      let msg = packet client address payload in
      let second = sent (length msg + 5) in
      let (wire, result) = transmit_lem pec b first second msg phy_addr lo hi own size up in
      let (net', s, r, f) =
        sendto-callback (smbus_binding pec b first second) listening net resp client address sd
          network phy_addr x y n body (pec msg ∷ []) far.ctx ctx reply 1 0x60 0x0f
          (length reply + 1) 0x21 (pec (0x60 ∷ 0x0f ∷ (length reply + 1) ∷ 0x21 ∷ reply) ∷ []) found
          (result.1 refl) replied alive quiet heard in
      (
        net',
        s,
        wire,
        receive_request_lem pec listening' far (2 * phy_addr) (length msg) (2 * b.address + 1)
            (msg ++ (pec msg ∷ [])) (sent_tag client address) ctx reply
            (create_tag-packet_pec pec client address (pec msg) payload) quiet' replied short,
        r,
        f,
      )
