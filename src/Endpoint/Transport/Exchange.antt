-- ===== src/Endpoint/Transport/Exchange.antt =====
-- Two endpoints on one bus: a request of the one, and the response of the other.
use mctp_emu.Prelude.{
  ℕ, ◌+◌, ◌<◌, ◌≡◌, refl, ap, ◌∙◌, List, [], ◌∷◌, ◌++◌, append-nil, length, some, Bool, true, arith,
  IsByte,
}
use mctp_emu.Crates.{Crates}
use mctp_emu.Base.Errors.{ok}
use mctp_emu.Control.MessageType.{MessageType}
use mctp_emu.Endpoint.Context.{MctpEndpointContext, returns}
use mctp_emu.Endpoint.Responder.{handle_request}
use mctp_emu.Endpoint.Responder.Packets.{answer_flags}
use mctp_emu.Endpoint.Responder.Requests.{Front, request}
use mctp_emu.Endpoint.Responder.Replies.{handle_request-IsAnswer}
use mctp_emu.Endpoint.Flow.{MsgFlowTag, create_tag}
use mctp_emu.Endpoint.Flow.Matching.{NoAnswer, create_tag_lem, take_flow-append}
use mctp_emu.Endpoint.Flow.Correlation.{tag, answers-tag}
use mctp_emu.Endpoint.Transport.{
  Transport, transmitted, responded, send_msg, receive_msg, handle_cmd,
}
use mctp_emu.Endpoint.Transport.Frames.{
  datagram, send_msg_lem, receive_msg_lem, receive_request_lem,
}

-- The tags of a request and of the answer to it.
abbrev pub request_tag : Front → MsgFlowTag
request_tag f = tag f.dst f.src f.flags

abbrev pub answer_tag : Front → MsgFlowTag
answer_tag f = tag f.src f.dst (answer_flags f.flags)

module _ ⦃c : Crates⦄ where
  pub create_tag-request :
      (f : Front) (n : ℕ) (body : List ℕ)
      → IsByte f.flags
      → create_tag (request f n body) ≡ some (request_tag f)
  create_tag-request f n body h =
      create_tag_lem f.version f.dst f.src f.flags (f.first ∷ f.second ∷ n ∷ body) h

module _ ⦃c : Crates⦄ {S S' : Type 0} (pec : List ℕ → ℕ) (listening : S → Bool) (near : Transport S)
    (listening' : S' → Bool) (far : Transport S') where
  -- A request that one endpoint sends over the bus to another comes back to it as a response, the two
  -- frames around the packets included: where the other endpoint replies, both packets are shorter than
  -- 255 bytes, the sockets take the datagrams, no older flow waits for that same reply, the request
  -- answers no flow of the other endpoint, and the channel is still listened to, the reply with the
  -- checksum of its frame is handed to the channel, and the older flows stay as they were.
  pub handle_cmd-handle_cmd :
      (msg_type : MessageType) (f : Front) (n : ℕ) (body : List ℕ) (resp : S)
      (ctx : MctpEndpointContext) (reply : List ℕ)
      → let buf = request f n body in
        let sum = pec (0x60 ∷ 0x0f ∷ (length buf + 1) ∷ 0x21 ∷ buf) in
        let sum' = pec (0x60 ∷ 0x0f ∷ (length reply + 1) ∷ 0x21 ∷ reply) in
        IsByte f.flags
        → length buf < 255
        → length reply < 255
        → handle_request far.ctx (buf ++ (sum ∷ [])) ≡ (ctx, returns (ok reply))
        → NoAnswer (answer_tag f) near.pending_cmd
        → NoAnswer (request_tag f) far.pending_cmd
        → listening resp ≡ true
        → (near' : Transport S) × (handle_cmd pec true listening near
              (send_msg msg_type buf (some resp))
            ≡ (near', transmitted (datagram pec buf)))
          × (handle_cmd pec true listening' far (receive_msg (datagram pec buf))
              ≡ (record far { ctx = ctx }, transmitted (datagram pec reply)))
          × (handle_cmd pec true listening near' (receive_msg (datagram pec reply))
              ≡ (near, responded resp (reply ++ (sum' ∷ []))))
  handle_cmd-handle_cmd msg_type f n body resp ctx reply flags short short' replied quiet quiet'
        heard =
      let buf = request f n body in
      let sum = pec (0x60 ∷ 0x0f ∷ (length buf + 1) ∷ 0x21 ∷ buf) in
      let sum' = pec (0x60 ∷ 0x0f ∷ (length reply + 1) ∷ 0x21 ∷ reply) in
      let near' = record near { pending_cmd = near.pending_cmd ++ ((request_tag f, resp) ∷ []) } in
      let (rest, e) =
        handle_request-IsAnswer far.ctx f n (body ++ (sum ∷ [])) ctx reply flags replied in
      let tagged : create_tag (reply ++ (sum' ∷ [])) ≡ some (answer_tag f) =
        ap (λ (l : List ℕ). create_tag (l ++ (sum' ∷ []))) e
        ∙ create_tag_lem 1 f.src f.dst (answer_flags f.flags) (rest ++ (sum' ∷ [])) (omega arith) in
      let taken =
        take_flow-append (answer_tag f) near.pending_cmd (request_tag f, resp) [] quiet
          (answers-tag f.dst f.src f.flags) in
      (
        near',
        send_msg_lem pec listening near msg_type buf resp (request_tag f) short
            (create_tag-request f n body flags),
        receive_request_lem pec listening' far 0x60 (length buf + 1) 0x21 (buf ++ (sum ∷ []))
            (request_tag f) ctx reply (create_tag-request f n (body ++ (sum ∷ [])) flags) quiet'
            replied short',
        receive_msg_lem pec true listening near' 0x60 (length reply + 1) 0x21 (reply ++ (sum' ∷ []))
              (answer_tag f) tagged
            ∙ rw (taken, append-nil near.pending_cmd, heard) refl,
      )
