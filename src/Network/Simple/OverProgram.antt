-- ===== src/Network/Simple/OverProgram.antt =====
-- The network over the SMBus binding, with the whole program of examples/basic_bus_owner_loop.rs at the other
-- end of the wire: its reader, channel and socket task, and on the way back the task that polls the socket of
-- the binding.
use mctp_emu.Prelude.{
  ℕ, ◌+◌, ◌*◌, ◌≤◌, ◌<◌, ◌≡◌, refl, ap, ◌∙◌, List, [], ◌∷◌, ◌++◌, length, length-append, Option,
  some, Bool, true, false, arith,
}
use mctp_emu.Prelude.Int.{ℤ}
use mctp_emu.Crates.{Crates}
use mctp_emu.Crates.Mpsc.{Mpsc}
use mctp_emu.Base.Errors
use mctp_emu.Emu.{ok}
use mctp_emu.Endpoint.Context.{MctpEndpointContext, returns}
use mctp_emu.Endpoint.Responder.{handle_request}
use mctp_emu.Endpoint.Flow.Matching.{NoAnswer, take_flow-NoAnswer}
use mctp_emu.Endpoint.Transport.{
  Transport, Done, transmitted, PhysicalTransportCommands, receive_msg, handle_cmd,
}
use mctp_emu.Endpoint.Transport.Frames.{datagram, receive_request_lem}
use mctp_emu.Endpoint.Program.{Program, capacity, receive, handle}
use mctp_emu.Endpoint.Program.Pass.{Awake, receive-handle}
use mctp_emu.Endpoint.Program.Served.{datagram-fits}
use mctp_emu.Phys.Smbus.{SmbusNetDevBinding, sent, transmit, NetworkBindingCallbackMsg, poll_socket}
use mctp_emu.Phys.Smbus.Polled.{poll_socket_short}
use mctp_emu.Network.Types.{Client, extended}
use mctp_emu.Network.Clients.{get_client}
use mctp_emu.Network.Simple.{
  SimpleNetwork, Received, packet, sendto, callback, delivered, unclaimed, response,
}
use mctp_emu.Network.Simple.Exchange.{sent_tag, reply_tag, callback_lem, create_tag-reply}
use mctp_emu.Network.Simple.OverSmbus.{smbus_binding, create_tag-packet_pec, sendto-handle_cmd}

-- The callback handler, over the messages that come.
module _ ⦃c : Crates⦄ {S J : Type 0} (listening : S → Bool) where
  unfoldable pub hear :
      SimpleNetwork S J → List NetworkBindingCallbackMsg → SimpleNetwork S J × List (Received S)
  hear net [] = (net, [])
  hear net (msg ∷ msgs) =
      let (net', r) = callback listening net msg in
      let (net'', rs) = hear net' msgs in (net'', r ∷ rs)

-- The program at the far end, each of whose datagrams is read and then handled.
module _ ⦃c : Crates⦄ {S Q : Type 0} (m : Mpsc capacity (PhysicalTransportCommands S) Q)
    (pec : List ℕ → ℕ) (listening : S → Bool) where
  abbrev pub said : Option (PhysicalTransportCommands S × Done S) → List (List ℕ) → List (List ℕ)
  said (some (cmd, transmitted d)) later = d ∷ later
  said _ later = later

  unfoldable pub serve : Program S Q → List (List ℕ) → Program S Q × List (List ℕ)
  serve p [] = (p, [])
  serve p (d ∷ ds) =
      let (p', r) = handle m pec true listening (receive m p d).0 in
      let (p'', later) = serve p' ds in (p'', said r later)

  abbrev answered : List ℕ → Program S Q × List (List ℕ) → Program S Q × List (List ℕ)
  answered d (p, later) = (p, d ∷ later)

  serve_none : (p : Program S Q) → serve p [] ≡ (p, [])
  unfolding serve
  serve_none p = refl

  -- A request in a frame that is answered.
  serve_request :
      (p : Program S Q) (a b d : ℕ) (buf : List ℕ) (ctx : MctpEndpointContext) (reply : List ℕ)
      (ds : List (List ℕ))
      → Awake m p
      → length buf < 512
      → length reply < 255
      → handle_cmd pec true listening p.transport (receive_msg (a ∷ 0x0f ∷ b ∷ d ∷ buf))
        ≡ (record p.transport { ctx = ctx }, transmitted (datagram pec reply))
      → (p' : Program S Q) × (serve p ((a ∷ 0x0f ∷ b ∷ d ∷ buf) ∷ ds)
          ≡ ((serve p' ds).0, datagram pec reply ∷ (serve p' ds).1))
        × Awake m p'
        × (p'.transport ≡ record p.transport { ctx = ctx })
  unfolding serve
  serve_request p a b d buf ctx reply ds awake size short done =
      let (p', r, w, t) =
        receive-handle m pec true listening p (a ∷ 0x0f ∷ b ∷ d ∷ buf) _ _ awake (omega arith)
          (omega (arith, size)) done (λ p q t. refl) in
      (p', rw r refl, w, t)

-- Two datagrams that fit.
poll_two :
    (network_id : ℕ) (d e : List ℕ)
    → 0 < length d
    → length d ≤ 4096
    → 0 < length e
    → length e ≤ 4096
    → poll_socket network_id (d ∷ e ∷ [])
      ≡ NetworkBindingCallbackMsg.receive network_id d
        ∷ NetworkBindingCallbackMsg.receive network_id e
        ∷ []
poll_two network_id d e h k h' k' =
    poll_socket_short network_id d (e ∷ []) h k
    ∙ ap (◌∷◌ (NetworkBindingCallbackMsg.receive network_id d)) (
        poll_socket_short network_id e [] h' k'
        ∙ ap (◌∷◌ (NetworkBindingCallbackMsg.receive network_id e)) (unfold poll_socket in refl))

-- A reply that comes when no flow waits for it.
hear_unclaimed :
    ⦃c : Crates⦄ {S J : Type 0}
    → (listening : S → Bool) (net : SimpleNetwork S J) (pec : List ℕ → ℕ) (client : Client)
      (address x y n : ℕ) (body tail : List ℕ) (remote remote' : MctpEndpointContext)
      (reply : List ℕ)
    → handle_request remote (packet client address (x ∷ y ∷ n ∷ body) ++ tail)
      ≡ (remote', returns (Errors.ok reply))
    → net.poisoned ≡ false
    → NoAnswer (reply_tag client address) net.flows
    → callback listening net (NetworkBindingCallbackMsg.receive 1 (datagram pec reply))
      ≡ (net, unclaimed)
hear_unclaimed listening net pec client address x y n body tail remote remote' reply replied alive
      quiet =
    let sum = pec (0x60 ∷ 0x0f ∷ (length reply + 1) ∷ 0x21 ∷ reply) in
    callback_lem listening net 1 0x60 0x0f (length reply + 1) 0x21 (reply ++ (sum ∷ [])) _ alive
      (create_tag-reply client address x y n body tail (sum ∷ []) remote remote' reply replied)
    ∙ rw (take_flow-NoAnswer (reply_tag client address) net.flows quiet) refl

module _ ⦃c : Crates⦄ {S J S' Q : Type 0} (pec : List ℕ → ℕ) (b : SmbusNetDevBinding)
    (net : SimpleNetwork S J) (listening : S → Bool)
    (m : Mpsc capacity (PhysicalTransportCommands S') Q) (far : Program S' Q)
    (listening' : S' → Bool) where
  -- A request from a bound socket to a whole program on the SMBus goes out twice, is answered twice, and its
  -- second answer is lost. The binding has a connected socket that takes the whole frame both times and a
  -- 7-bit address, the packet of the request is shorter than 256 bytes and goes to a valid address; all tasks of
  -- the program run, no command waits in it and it waits for no such packet itself; it replies to the
  -- request, and to the same request again, in less than 255 bytes each; no older flow waits for such a
  -- reply, the network's handler is alive and the channel is listened to. Then the binding puts two
  -- datagrams on the wire, the program handles the request both times and ends at rest, and of its two
  -- datagrams, which the binding polls, the first is handed to the channel of the request and the second is
  -- unclaimed, and the network is as before.
  pub sendto-serve :
      (sd : ℤ) (client : Client) (address network phy_addr x y n : ℕ) (body : List ℕ) (resp : S)
      (ctx ctx' : MctpEndpointContext) (reply reply' : List ℕ)
      → let payload = x ∷ y ∷ n ∷ body in
        let msg = packet client address payload in
        let whole = sent (length msg + 5) in
        let sum = pec (0x60 ∷ 0x0f ∷ (length reply + 1) ∷ 0x21 ∷ reply) in
        8 ≤ phy_addr
        → phy_addr ≤ 0x77
        → b.address < 128
        → b.socket ≡ true
        → length msg < 256
        → get_client net.sockets sd ≡ ok client
        → net.poisoned ≡ false
        → NoAnswer (reply_tag client address) net.flows
        → Awake m far
        → NoAnswer (sent_tag client address) far.transport.pending_cmd
        → handle_request far.transport.ctx (msg ++ (pec msg ∷ []))
          ≡ (ctx, returns (Errors.ok reply))
        → handle_request ctx (msg ++ (pec msg ∷ [])) ≡ (ctx', returns (Errors.ok reply'))
        → length reply < 255
        → length reply' < 255
        → listening resp ≡ true
        → (net' : SimpleNetwork S J) × (sendto
              (smbus_binding pec b whole whole)
              net
              resp
              sd
              payload
              (extended address network 1 phy_addr)
            ≡ (net', ok msg))
          × (far' : Program S' Q) × (serve m pec listening' far
                (transmit pec b whole whole msg phy_addr).0
              ≡ (far', datagram pec reply ∷ datagram pec reply' ∷ []))
          × Awake m far'
          × (far'.transport ≡ record far.transport { ctx = ctx' })
          × (hear listening net' (poll_socket 1 (datagram pec reply ∷ datagram pec reply' ∷ []))
              ≡ (net, delivered resp (response 1 (reply ++ (sum ∷ []))) ∷ unclaimed ∷ []))
  unfolding hear
  sendto-serve sd client address network phy_addr x y n body resp ctx ctx' reply reply' lo hi own up
        size found alive quiet awake quiet' replied replied' short short' heard =
      let msg = packet client address (x ∷ y ∷ n ∷ body) in
      let whole = sent (length msg + 5) in
      let (net', s, wire, h, r, _) =
        sendto-handle_cmd pec b net listening far.transport listening' sd client address network
          phy_addr x y n body resp whole ctx reply lo hi own up size found alive quiet quiet'
          replied short heard in
      let framed = msg ++ (pec msg ∷ []) in
      let frame = (2 * phy_addr) ∷ 0x0f ∷ length msg ∷ (2 * b.address + 1) ∷ framed in
      let fits : length framed < 512 = omega (arith, length-append msg (pec msg ∷ []), size) in
      let (far₁, e₁, w₁, t₁) =
        serve_request m pec listening' far (2 * phy_addr) (length msg) (2 * b.address + 1) framed
          ctx reply (frame ∷ []) awake fits short h in
      let again =
        receive_request_lem pec listening' (record far.transport { ctx = ctx }) (2 * phy_addr)
          (length msg) (2 * b.address + 1) framed (sent_tag client address) ctx' reply'
          (create_tag-packet_pec pec client address (pec msg) (x ∷ y ∷ n ∷ body)) quiet' replied'
          short' in
      let (far₂, e₂, w₂, t₂) =
        serve_request m pec listening' far₁ (2 * phy_addr) (length msg) (2 * b.address + 1) framed
          ctx' reply' [] w₁ fits short' (rw t₁ again) in
      let (some_bytes, small) = datagram-fits pec reply short in
      let (some_bytes', small') = datagram-fits pec reply' short' in
      let lost =
        hear_unclaimed listening net pec client address x y n body (pec msg ∷ []) ctx ctx' reply'
          replied' alive quiet in
      (
        net',
        s,
        far₂,
        ap (serve m pec listening' far) wire
            ∙ e₁
            ∙ ap (answered m pec listening' (datagram pec reply)) (
                e₂
                ∙ ap (answered m pec listening' (datagram pec reply'))
                    (serve_none m pec listening' far₂)),
        w₂,
        t₂ ∙ ap (λ (t : Transport S'). record t { ctx = ctx' }) t₁,
        rw
            (
              poll_two 1 (datagram pec reply) (datagram pec reply') some_bytes small some_bytes'
                  small',
              r,
              lost,
            )
            refl,
      )
