-- ===== src/Endpoint/Transport/Assigned.antt =====
-- What a command of the task that owns the socket does to the context.
use mctp_emu.Prelude.{
  All, ℕ, List, drop, length, All-drop, IsByte, ltb, Option, some, none, Bool, if-cases, ◌||◌, not,
}
use mctp_emu.Crates.{Crates}
use mctp_emu.Base.Errors.{ok, err}
use mctp_emu.Control.MessageType.{MessageType}
use mctp_emu.Endpoint.Context.{MctpEndpointContext, Outcome, returns, panics}
use mctp_emu.Endpoint.Responder.{Handled, handle_request}
use mctp_emu.Endpoint.Responder.Assigned.{Sets, Assigned, handle_request-Assigned}
use mctp_emu.Endpoint.Flow.{MsgFlowTag, create_tag, take_flow}
use mctp_emu.Endpoint.Transport.{
  Transport, Done, PhysicalTransportCommands, receive_msg, send_msg, put_frame, transmit, track,
  send_cmd_closure, answer_request, claim, match_flow, is_mctp, handle_cmd,
}

module _ ⦃c : Crates⦄ {S : Type 0} (pec : List ℕ → ℕ) (socket_up : Bool)
    (Q : MctpEndpointContext → Type 0) where
  -- Q holds of the context.
  abbrev Keeps : Transport S × Done S → Type 0
  Keeps (t, d) = Q t.ctx

  put_frame-Keeps :
      (t : Transport S) (buf : List ℕ) (o : Outcome ℕ)
      → Q t.ctx
      → Keeps (put_frame pec socket_up t buf o)
  put_frame-Keeps t buf (returns (ok count)) q = q
  put_frame-Keeps t buf (returns (err e)) q = q
  put_frame-Keeps t buf panics q = q

  transmit-Keeps : (t : Transport S) (buf : List ℕ) → Q t.ctx → Keeps (transmit pec socket_up t buf)
  transmit-Keeps t buf q = put_frame-Keeps t buf _ q

  send-Keeps :
      (t : Transport S) (msg_type : MessageType) (buf : List ℕ) (resp : Option S)
      → Q t.ctx
      → Keeps (send_cmd_closure pec socket_up t msg_type buf resp)
  unfolding send_cmd_closure
  send-Keeps t msg_type buf none q = transmit-Keeps t buf q
  send-Keeps t msg_type buf (some resp) q = go (create_tag buf)
    where
      go : (o : Option MsgFlowTag) → Keeps (track pec socket_up t buf resp o)
      go none = q
      go (some tag) = transmit-Keeps _ buf q

  answer_request-Keeps :
      (t : Transport S) (h : Handled) → Q h.0 → Keeps (answer_request pec socket_up t h)
  unfolding send_cmd_closure
  answer_request-Keeps t (ctx, returns (ok reply)) q =
      transmit-Keeps (record t { ctx = ctx }) reply q
  answer_request-Keeps t (ctx, returns (err e)) q = q
  answer_request-Keeps t (ctx, panics) q = q

  module _ (listening : S → Bool) where
    match_flow-Keeps :
        (t : Transport S) (buf : List ℕ) (o : Option MsgFlowTag)
        → Q t.ctx
        → Q (handle_request t.ctx buf).0
        → Keeps (match_flow pec socket_up listening t buf o)
    match_flow-Keeps t buf none q r = q
    match_flow-Keeps t buf (some tag) q r = go (take_flow tag t.pending_cmd)
      where
        go :
            (o : Option ((MsgFlowTag × S) × List (MsgFlowTag × S)))
            → Keeps (claim pec socket_up listening t buf o)
        go none = answer_request-Keeps t (handle_request t.ctx buf) r
        go (some ((tag, resp), flows)) = q

-- A command with bytes.
abbrev pub IsCommand : {S : Type 0} → PhysicalTransportCommands S → Type 0
IsCommand (receive_msg buf) = All IsByte buf
IsCommand (send_msg msg_type buf resp) = All IsByte buf

-- A command is no datagram with a Set Endpoint ID request, or one with an EID of which P holds.
abbrev pub SetsEid : {S : Type 0} → (ℕ → Type 0) → PhysicalTransportCommands S → Type 0
SetsEid P (receive_msg buf) = Sets P (drop 4 buf)
SetsEid P (send_msg msg_type buf resp) = Unit {0}

-- A command with bytes changes the EID of the endpoint only if it is a datagram with a Set Endpoint ID request.
pub handle_cmd-Assigned :
    ⦃c : Crates⦄
    → {S : Type 0} (pec : List ℕ → ℕ) (socket_up : Bool) (listening : S → Bool) (P : ℕ → Type 0)
      (t : Transport S) (cmd : PhysicalTransportCommands S)
    → Assigned P t.ctx
    → IsCommand cmd
    → SetsEid P cmd
    → Assigned P (handle_cmd pec socket_up listening t cmd).0.ctx
unfolding handle_cmd
handle_cmd-Assigned pec socket_up listening P t (receive_msg buf) k w h =
    if-cases (Keeps pec socket_up (Assigned P))
      (ltb (length buf) 4 || not (is_mctp pec socket_up listening buf)) _ _ (λ e. k)
      (λ e.
        match_flow-Keeps pec socket_up (Assigned P) listening t (drop 4 buf) _ k
          (handle_request-Assigned P t.ctx (drop 4 buf) k (All-drop IsByte 4 buf w) h))
handle_cmd-Assigned pec socket_up listening P t (send_msg msg_type buf resp) k w h =
    send-Keeps pec socket_up (Assigned P) t msg_type buf resp k
