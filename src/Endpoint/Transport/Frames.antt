-- ===== src/Endpoint/Transport/Frames.antt =====
-- The datagrams of the task that owns the socket, byte for byte.
use mctp_emu.Prelude.{
  ℕ, ◌+◌, ◌%◌, ◌<◌, ◌≡◌, refl, ◌∙◌, List, [], ◌∷◌, ◌++◌, length, some, Bool, true, arith, le→ltb,
}
use mctp_emu.Crates.{Crates}
use mctp_emu.Base.Errors.{ok}
use mctp_emu.Control.MessageType.{MessageType}
use mctp_emu.Endpoint.Context.{MctpEndpointContext, returns}
use mctp_emu.Endpoint.Responder.{handle_request}
use mctp_emu.Endpoint.Flow.{MsgFlowTag, create_tag, take_flow}
use mctp_emu.Endpoint.Flow.Matching.{NoAnswer, take_flow-NoAnswer}
use mctp_emu.Endpoint.BusOwner.{u8_add}
use mctp_emu.Endpoint.Transport.{
  Transport, transmitted, send_msg, receive_msg, handle_cmd, send_cmd_closure, transmit, claim,
}

-- The datagram around a message.
abbrev pub datagram : (List ℕ → ℕ) → List ℕ → List ℕ
datagram pec buf =
    let framed = 0x60 ∷ 0x0f ∷ (length buf + 1) ∷ 0x21 ∷ buf in framed ++ (pec framed ∷ [])

u8_add_lem : (n : ℕ) → n < 255 → u8_add (n % 256) 1 ≡ returns (ok (n + 1))
unfolding u8_add
u8_add_lem n h = ground arith

module _ ⦃c : Crates⦄ {S : Type 0} (pec : List ℕ → ℕ) where
  pub transmit_lem :
      (t : Transport S) (buf : List ℕ)
      → length buf < 255
      → transmit pec true t buf ≡ (t, transmitted (datagram pec buf))
  transmit_lem t buf h = rw (u8_add_lem (length buf) h) refl

  -- A message whose response is awaited: its flow is added and its datagram goes out.
  pub send_msg_lem :
      (listening : S → Bool) (t : Transport S) (msg_type : MessageType) (buf : List ℕ) (resp : S)
      (tag : MsgFlowTag)
      → length buf < 255
      → create_tag buf ≡ some tag
      → handle_cmd pec true listening t (send_msg msg_type buf (some resp)) ≡ (
        record t { pending_cmd = t.pending_cmd ++ ((tag, resp) ∷ []) },
        transmitted (datagram pec buf),
      )
  unfolding handle_cmd send_cmd_closure
  send_msg_lem listening t msg_type buf resp tag h e =
      rw (e) (transmit_lem (record t { pending_cmd = t.pending_cmd ++ ((tag, resp) ∷ []) }) buf h)

  -- A datagram behind a frame's four bytes.
  pub receive_msg_lem :
      (socket_up : Bool) (listening : S → Bool) (t : Transport S) (a b c' : ℕ) (buf : List ℕ)
      (tag : MsgFlowTag)
      → create_tag buf ≡ some tag
      → handle_cmd pec socket_up listening t (receive_msg (a ∷ 0x0f ∷ b ∷ c' ∷ buf))
        ≡ claim pec socket_up listening t buf (take_flow tag t.pending_cmd)
  unfolding handle_cmd
  receive_msg_lem socket_up listening t a b c' buf tag e =
      rw (le→ltb (length (a ∷ 0x0f ∷ b ∷ c' ∷ buf)) 4 (omega arith), e) refl

  -- A request that answers no pending flow is answered with what `handle_request` returns.
  pub receive_request_lem :
      (listening : S → Bool) (t : Transport S) (a b c' : ℕ) (buf : List ℕ) (tag : MsgFlowTag)
      (ctx : MctpEndpointContext) (reply : List ℕ)
      → create_tag buf ≡ some tag
      → NoAnswer tag t.pending_cmd
      → handle_request t.ctx buf ≡ (ctx, returns (ok reply))
      → length reply < 255
      → handle_cmd pec true listening t (receive_msg (a ∷ 0x0f ∷ b ∷ c' ∷ buf))
        ≡ (record t { ctx = ctx }, transmitted (datagram pec reply))
  receive_request_lem listening t a b c' buf tag ctx reply e quiet replied h =
      receive_msg_lem true listening t a b c' buf tag e
      ∙ rw (take_flow-NoAnswer tag t.pending_cmd quiet, replied)
          (unfold send_cmd_closure in transmit_lem (record t { ctx = ctx }) reply h)
