-- ===== src/Endpoint/Flow/Correlation.antt =====
-- A request meets its response: the endpoint's reply is matched with the flow of its request.
use mctp_emu.Prelude.{ℕ, ◌/◌, ◌%◌, ◌≡◌, ap, ◌∙◌, List, ◌∷◌, some, true, not, ◌==◌, arith, IsByte}
use mctp_emu.Crates.{Crates}
use mctp_emu.Base.Errors.{ok}
use mctp_emu.Endpoint.Context.{MctpEndpointContext, returns}
use mctp_emu.Endpoint.Responder.{handle_request}
use mctp_emu.Endpoint.Responder.Packets.{answer_flags}
use mctp_emu.Endpoint.Responder.Requests.{Front, request}
use mctp_emu.Endpoint.Responder.Replies.{handle_request-IsAnswer}
use mctp_emu.Endpoint.Flow.{MsgFlowTag, create_tag, answers}
use mctp_emu.Endpoint.Flow.Matching.{create_tag_lem}

-- The tag of a packet from `s` to `d` with the flags `b`.
abbrev pub tag : (d s b : ℕ) → MsgFlowTag
tag d s b = record { dest_eid = d; src_eid = s; msg_tag = b % 8; tag_owner = not (b / 8 % 2 == 0) }

pub answers-tag : (d s b : ℕ) → answers (tag d s b) (tag s d (answer_flags b)) ≡ true
unfolding answers
answers-tag d s b = ground arith

module _ ⦃c : Crates⦄ where
  -- Where the endpoint replies to a request, whose last transport byte is a byte, both packets have
  -- a flow tag, and the tag of the reply answers that of the request.
  pub handle_request-answers :
      (ctx : MctpEndpointContext) (f : Front) (n : ℕ) (body : List ℕ) (ctx' : MctpEndpointContext)
      (reply : List ℕ)
      → IsByte f.flags
      → handle_request ctx (request f n body) ≡ (ctx', returns (ok reply))
      → (sent : MsgFlowTag) × (received : MsgFlowTag) × (create_tag (request f n body) ≡ some sent)
        × (create_tag reply ≡ some received)
        × (answers sent received ≡ true)
  handle_request-answers ctx f n body ctx' reply h q =
      let (rest, e) = handle_request-IsAnswer ctx f n body ctx' reply h q in
      (
        tag f.dst f.src f.flags,
        tag f.src f.dst (answer_flags f.flags),
        create_tag_lem f.version f.dst f.src f.flags (f.first ∷ f.second ∷ n ∷ body) h,
        ap create_tag e ∙ create_tag_lem 1 f.src f.dst (answer_flags f.flags) rest (omega arith),
        answers-tag f.dst f.src f.flags,
      )
