-- ===== src/Endpoint/Responder/Replies.antt =====
-- Every reply of the endpoint, whatever the request, is addressed to the sender of the request.
use mctp_emu.Prelude.{ℕ, true, ◌≡◌, ap, sym, ◌∙◌, List, ◌∷◌, IsByte}
use mctp_emu.Crates.{Crates}
use mctp_emu.Base.Errors.{Result, ok, err}
use mctp_emu.Control.CommandCode.{CommandCode, command_code_from}
use mctp_emu.Control.Payload.{ControlPayload, known_code, try_from_payload, new, command_code}
use mctp_emu.Control.Payload.Parse.{header_of, control_header_of, parse_lem}
use mctp_emu.Control.Message.{Message}
use mctp_emu.Control.CompletionCode.{success, error_unsupported_cmd}
use mctp_emu.Control.Empty
use mctp_emu.Control.SetEid
use mctp_emu.Control.SetEid.Enums.{no_pool_support, accepted}
use mctp_emu.Control.GetEid
use mctp_emu.Control.GetEid.Enums.{dynamic, simple}
use mctp_emu.Control.GetRoutingTable
use mctp_emu.Endpoint.Context.{MctpEndpointContext, Outcome, returns}
use mctp_emu.Endpoint.Responder.{
  Handled, and_then, dispatch, handle_request, respond, handle_unsupported,
}
use mctp_emu.Endpoint.Responder.Packets.{answer_flags, respond_lem}
use mctp_emu.Endpoint.Responder.Requests.{Front, request}

-- A reply that begins with the transport header that answers the packet's.
abbrev pub IsAnswer : ControlPayload → List ℕ → Type 0
IsAnswer p reply =
    (rest : List ℕ) × (reply
      ≡ 1
        ∷ p.hdr.source_eid
        ∷ p.hdr.destination_eid
        ∷ answer_flags p.hdr.msg_tag_tag_owner_packet_seq_eom_som
        ∷ rest)

returned : Outcome (List ℕ) → List ℕ → List ℕ
returned (returns (ok reply)) d = reply
returned _ d = d

module _ ⦃c : Crates⦄ where
  -- A handler that parses a struct and answers with a message.
  and_then-IsAnswer :
      {A T : Type 0} (ctx : MctpEndpointContext) (r : Result A) (m : Message T) (p : ControlPayload)
      (next : A → MctpEndpointContext) (resp : A → T) (ctx' : MctpEndpointContext) (reply : List ℕ)
      → IsByte p.hdr.msg_tag_tag_owner_packet_seq_eom_som
      → and_then ctx r (λ a. (next a, returns (ok (respond m p (resp a)))))
        ≡ (ctx', returns (ok reply))
      → IsAnswer p reply
  unfolding returned
  and_then-IsAnswer ctx (err e) m p next resp ctx' reply h q =
      absurd (cc (ap (λ (x : Handled). x.1) q))
  and_then-IsAnswer ctx (ok a) m p next resp ctx' reply h q =
      (_, sym (ap (λ (x : Handled). returned x.1 reply) q) ∙ respond_lem m p (resp a) h)

module _ ⦃c : Crates⦄ (ctx : MctpEndpointContext) (p : ControlPayload) (ctx' : MctpEndpointContext)
    (reply : List ℕ) (h : IsByte p.hdr.msg_tag_tag_owner_packet_seq_eom_som) where
  unsupported-IsAnswer : handle_unsupported ctx p ≡ (ctx', returns (ok reply)) → IsAnswer p reply
  unfolding handle_unsupported
  unsupported-IsAnswer q =
      and_then-IsAnswer ctx (try_from_payload Empty.request_wire p) Empty.response_message p
        (λ req. ctx) (λ req. Empty.from req error_unsupported_cmd) ctx' reply h q

  dispatch-IsAnswer :
      (code : CommandCode)
      → dispatch ctx p (known_code code) ≡ (ctx', returns (ok reply))
      → IsAnswer p reply
  unfolding dispatch
  dispatch-IsAnswer CommandCode.set_endpoint_id q =
      and_then-IsAnswer ctx (try_from_payload SetEid.request_wire p) SetEid.response_message p
        (λ req. record ctx { assigned_eid = req.eid })
        (λ req. SetEid.from req success no_pool_support accepted req.eid 0) ctx' reply h q
  dispatch-IsAnswer CommandCode.get_endpoint_id q =
      and_then-IsAnswer ctx (try_from_payload GetEid.request_wire p) GetEid.response_message p
        (λ req. ctx) (λ req. GetEid.from req success 0 dynamic simple 0) ctx' reply h q
  dispatch-IsAnswer CommandCode.discovery_notify q =
      and_then-IsAnswer ctx (try_from_payload Empty.request_wire p) Empty.response_message p
        (λ req. record ctx { perform_discovery = true }) (λ req. Empty.from req success) ctx' reply
        h q
  dispatch-IsAnswer CommandCode.get_routing_table_entries q =
      and_then-IsAnswer ctx (try_from_payload GetRoutingTable.request_wire p)
        GetRoutingTable.response_message p (λ req. ctx)
        (λ req. GetRoutingTable.from req success 0xff 0) ctx' reply h q
  dispatch-IsAnswer CommandCode.unknown q = absurd (cc (ap (λ (x : Handled). x.1) q))
  dispatch-IsAnswer _ q = unsupported-IsAnswer q

module _ ⦃c : Crates⦄ where
  -- Whatever the endpoint replies to a request begins with the transport header that answers the
  -- request's: the two EIDs swapped, the same tag, the owner bit flipped, start and end of message.
  pub handle_request-IsAnswer :
      (ctx : MctpEndpointContext) (f : Front) (n : ℕ) (body : List ℕ) (ctx' : MctpEndpointContext)
      (reply : List ℕ)
      → IsByte f.flags
      → handle_request ctx (request f n body) ≡ (ctx', returns (ok reply))
      → (rest : List ℕ) × (reply ≡ 1 ∷ f.src ∷ f.dst ∷ answer_flags f.flags ∷ rest)
  unfolding handle_request command_code
  handle_request-IsAnswer ctx f n body ctx' reply h q =
      let p : ControlPayload =
        new (header_of f.version f.dst f.src f.flags) (control_header_of f.first f.second n)
          (f.first ∷ f.second ∷ n ∷ body) in
      dispatch-IsAnswer ctx p ctx' reply h (command_code_from n) (rw parse_lem at q)
