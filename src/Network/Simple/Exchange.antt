-- ===== src/Network/Simple/Exchange.antt =====
-- A request sent on a socket and the endpoint's reply to it: from `sendto` to the flow's channel.
use mctp_emu.Prelude.{
  ℕ, ◌+◌, ◌*◌, ◌/◌, ◌%◌, ◌-◌, ◌≤◌, ◌<◌, ◌≡◌, refl, ap, sym, ◌∙◌, List, [], ◌∷◌, ◌++◌, append-nil,
  drop, some, none, Bool, true, false, not, ◌==◌, IsByte, arith, length, le→ltb,
}
use mctp_emu.Prelude.Int.{ℤ}
use mctp_emu.Crates.{Crates}
use mctp_emu.Base.Errors
use mctp_emu.Base.Wire.{try_from}
use mctp_emu.Base.TransportHeader.Fields.{new-flags, new-version, new_transport_fields}
use mctp_emu.Control.Payload.Parse.{to_bytes-header}
use mctp_emu.Emu.{ok, ◌>>=◌}
use mctp_emu.Endpoint.Context.{MctpEndpointContext, returns}
use mctp_emu.Endpoint.Responder.{handle_request}
use mctp_emu.Endpoint.Responder.Packets.{answer_flags}
use mctp_emu.Endpoint.Responder.Requests.{Front}
use mctp_emu.Endpoint.Responder.Replies.{handle_request-IsAnswer}
use mctp_emu.Endpoint.Flow.{MsgFlowTag, create_tag, answers, take_flow}
use mctp_emu.Endpoint.Flow.Matching.{NoAnswer, create_tag_lem, take_flow-append}
use mctp_emu.Phys.Smbus.{NetworkBindingCallbackMsg}
use mctp_emu.Network.Types.{extended, Client}
use mctp_emu.Network.Clients.{get_client}
use mctp_emu.Network.Simple.{
  NetworkBinding, SimpleNetwork, get_binding, packet, begin, sendto, response, callback, delivered,
  hand_over, unwrap, finish,
}

-- The last byte of the header of a packet that a client sends.
abbrev pub sent_flags : ℕ → ℕ
sent_flags tag = tag % 8 + 8 + 64 + 128

abbrev pub sent_tag : Client → ℕ → MsgFlowTag
sent_tag client address = record {
  dest_eid = address;
  src_eid = client.address;
  msg_tag = client.tag % 8;
  tag_owner = true;
}

-- The tag of a reply to it.
abbrev pub reply_tag : Client → ℕ → MsgFlowTag
reply_tag client address = record {
  dest_eid = client.address;
  src_eid = address;
  msg_tag = client.tag % 8;
  tag_owner = false;
}

-- The tag of a packet from `s` to `d` with the flags `b`.
abbrev pub tag_with : (d s b : ℕ) → MsgFlowTag
tag_with d s b = record {
  dest_eid = d;
  src_eid = s;
  msg_tag = b % 8;
  tag_owner = not (b / 8 % 2 == 0);
}

pub tag_with-sent :
    (client : Client) (address : ℕ)
    → tag_with address client.address (sent_flags client.tag) ≡ sent_tag client address
tag_with-sent client address = ground arith

tag_with-reply :
    (client : Client) (address : ℕ)
    → tag_with client.address address (answer_flags (sent_flags client.tag))
      ≡ reply_tag client address
tag_with-reply client address = ground arith

pub sent_tag-answers :
    (client : Client) (address : ℕ)
    → answers (sent_tag client address) (reply_tag client address) ≡ true
unfolding answers
sent_tag-answers client address = ground arith

module _ ⦃c : Crates⦄ where
  pub packet_lem :
      (client : Client) (address : ℕ) (payload : List ℕ)
      → packet client address payload
        ≡ 1 ∷ address ∷ client.address ∷ sent_flags client.tag ∷ payload
  unfolding packet
  packet_lem client address payload =
      let t : mctp_emu.Prelude.Option Bool = some true in
      let fl = new-flags client.address address client.tag t t t in
      let v = new-version client.address address client.tag t t t in
      let f = new_transport_fields client.address address client.tag t t t in
      rw to_bytes-header (cc (fl, v, f.1, f.2))

  create_tag-packet :
      (client : Client) (address : ℕ) (payload : List ℕ)
      → create_tag (packet client address payload) ≡ some (sent_tag client address)
  create_tag-packet client address payload =
      ap create_tag (packet_lem client address payload)
      ∙ create_tag_lem 1 address client.address (sent_flags client.tag) payload (omega arith)
      ∙ ap some (tag_with-sent client address)

module _ ⦃c : Crates⦄ {S J : Type 0} (net : SimpleNetwork S J) (resp : S) where
  -- Up to the lock of the binding, a `sendto` on a bound socket makes one packet, with the client's EID and
  -- tag and the payload, and adds its flow behind the pending ones.
  pub begin_lem :
      (sd : ℤ) (client : Client) (payload : List ℕ) (address network phy_addr : ℕ)
      → get_client net.sockets sd ≡ ok client
      → net.poisoned ≡ false
      → begin net resp sd payload (extended address network 1 phy_addr) ≡ (
        record net { flows = net.flows ++ ((sent_tag client address, resp) ∷ []) },
        ok (packet client address payload),
      )
  unfolding begin get_binding
  begin_lem sd client payload address network phy_addr found alive =
      rw (found, create_tag-packet client address payload, alive)

  -- With the lock, the packet is handed to the binding; the flow stays also where the binding then fails.
  pub sendto_lem :
      (binding : NetworkBinding) (sd : ℤ) (client : Client) (payload : List ℕ)
      (address network phy_addr : ℕ)
      → get_client net.sockets sd ≡ ok client
      → let buf = 1 ∷ address ∷ client.address ∷ sent_flags client.tag ∷ payload in
        net.poisoned ≡ false
        → sendto binding net resp sd payload (extended address network 1 phy_addr) ≡ (
          record net { flows = net.flows ++ ((sent_tag client address, resp) ∷ []) },
          (unwrap (binding.transmit buf phy_addr) >>= λ sent. ok buf),
        )
  unfolding sendto
  sendto_lem binding sd client payload address network phy_addr found alive =
      rw
        (
          begin_lem sd client payload address network phy_addr found alive,
          packet_lem client address payload,
        )
        refl

module _ ⦃c : Crates⦄ {S J : Type 0} (listening : S → Bool) (net : SimpleNetwork S J) where
  open c use {read_u8_cons}

  -- A packet behind a complete SMBus header is matched by its tag.
  pub callback_lem :
      (id q0 q1 q2 q3 : ℕ) (buf : List ℕ) (recv_tag : MsgFlowTag)
      → net.poisoned ≡ false
      → create_tag buf ≡ some recv_tag
      → callback listening net (NetworkBindingCallbackMsg.receive id (q0 ∷ q1 ∷ q2 ∷ q3 ∷ buf))
        ≡ hand_over listening net (response id buf) (take_flow recv_tag net.flows)
  unfolding callback try_from
  callback_lem id q0 q1 q2 q3 buf recv_tag alive e =
      rw (alive, le→ltb (length (q0 ∷ q1 ∷ q2 ∷ q3 ∷ buf)) 4 (omega arith))
        (simp read_u8_cons (rw e))

-- The reply of an endpoint to a request of a client has the tag of a reply.
pub create_tag-reply :
    ⦃c : Crates⦄
    → (client : Client) (address first second n : ℕ) (body tail trail : List ℕ)
      (remote remote' : MctpEndpointContext) (reply : List ℕ)
    → handle_request remote (packet client address (first ∷ second ∷ n ∷ body) ++ tail)
      ≡ (remote', returns (Errors.ok reply))
    → create_tag (reply ++ trail) ≡ some (reply_tag client address)
create_tag-reply client address first second n body tail trail remote remote' reply replied =
    let p = packet_lem client address (first ∷ second ∷ n ∷ body) in
    let flags = sent_flags client.tag in
    let f : Front = record {
      version = 1;
      dst = address;
      src = client.address;
      flags = flags;
      first = first;
      second = second;
    } in
    let (rest, e) =
      handle_request-IsAnswer remote f n (body ++ tail) remote' reply (omega arith)
        (ap (λ (l : List ℕ). handle_request remote (l ++ tail)) (sym p) ∙ replied) in
    ap (λ (l : List ℕ). create_tag (l ++ trail)) e
    ∙ create_tag_lem 1 client.address address (answer_flags flags) (rest ++ trail) (omega arith)
    ∙ ap some (tag_with-reply client address)

-- A request that a client sends over the network, and the reply of an endpoint to it.
module _ ⦃c : Crates⦄ {S J : Type 0} (binding : NetworkBinding) (listening : S → Bool)
    (net : SimpleNetwork S J) (resp : S) (client : Client) (address : ℕ) where
  -- A request sent on a bound socket, to an extended address on binding 1, reaches its sender again
  -- as a response: where the network's handler is alive, the binding sends the packet, an endpoint
  -- that gets it, and whatever trails it, replies, no older flow is waiting for that same reply,
  -- and the channel of the request is still listened to, the callback handler hands the reply, and
  -- whatever trails it, to that channel and leaves the older flows as they were, and `sendto`
  -- returns it.
  pub sendto-callback :
      (sd : ℤ) (network phy_addr first second n : ℕ) (body : List ℕ) (tail : List ℕ)
      (remote remote' : MctpEndpointContext) (reply : List ℕ) (id q0 q1 q2 q3 : ℕ) (trail : List ℕ)
      → let payload = first ∷ second ∷ n ∷ body in
        let buf = packet client address payload in
        get_client net.sockets sd ≡ ok client
        → binding.transmit buf phy_addr ≡ ok tt
        → handle_request remote (buf ++ tail) ≡ (remote', returns (Errors.ok reply))
        → net.poisoned ≡ false
        → NoAnswer (reply_tag client address) net.flows
        → listening resp ≡ true
        → (net' : SimpleNetwork S J) × (sendto binding net resp sd payload
              (extended address network 1 phy_addr)
            ≡ (net', ok buf))
          × (callback listening net'
                (NetworkBindingCallbackMsg.receive id (q0 ∷ q1 ∷ q2 ∷ q3 ∷ (reply ++ trail)))
              ≡ (net, delivered resp (response id (reply ++ trail))))
          × (finish (some (response id (reply ++ trail))) ≡ ok (extended 0 1 id 0, reply ++ trail))
  sendto-callback sd network phy_addr first second n body tail remote remote' reply id q0 q1 q2 q3
        trail found sends replied alive quiet heard =
      let payload = first ∷ second ∷ n ∷ body in
      let p = packet_lem client address payload in
      let net' = record net { flows = net.flows ++ ((sent_tag client address, resp) ∷ []) } in
      let tagged =
        create_tag-reply client address first second n body tail trail remote remote' reply
          replied in
      let taken =
        take_flow-append (reply_tag client address) net.flows (sent_tag client address, resp) []
          quiet (sent_tag-answers client address) in
      (
        net',
        sendto_lem net resp binding sd client payload address network phy_addr found alive
            ∙ ap (λ (b : List ℕ). (net', (unwrap (binding.transmit b phy_addr) >>= λ sent. ok b)))
                (sym p)
            ∙ rw (sends),
        callback_lem listening net' id q0 q1 q2 q3 (reply ++ trail) _ alive tagged
            ∙ rw (taken, append-nil net.flows, heard),
        unfold finish in refl,
      )
