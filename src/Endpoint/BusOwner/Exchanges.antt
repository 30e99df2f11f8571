-- ===== src/Endpoint/BusOwner/Exchanges.antt =====
-- The requests of the bus owner to an endpoint behind its bus, and what comes of them.
use mctp_emu.Prelude.{ℕ, ◌≡◌, List, [], ◌∷◌, arith}
use mctp_emu.Crates.{Crates}
use mctp_emu.Base.Errors.{ok}
use mctp_emu.Control.CommandCode.{CommandCode}
use mctp_emu.Control.GetEid
use mctp_emu.Control.SetEid
use mctp_emu.Endpoint.Context.{MctpEndpointContext, returns}
use mctp_emu.Endpoint.Responder.Requests.{answer, get_endpoint_id_answer, set_endpoint_id_answer}
use mctp_emu.Control.SetEid.Enums.{set_eid}
use mctp_emu.Endpoint.BusOwner.Serves.{Serves}
use mctp_emu.Endpoint.BusOwner.{Owner, Reply}
use mctp_emu.Endpoint.BusOwner.Requests.{send_get_eid_request, send_set_eid_request}
use mctp_emu.Endpoint.BusOwner.Packets.{control_hdr, front-IsFront}
use mctp_emu.Endpoint.BusOwner.Replies.{asked, next_front, get_eid_reply, set_eid_reply}

-- The two exchanges over a bus with an endpoint.
module _ ⦃c : Crates⦄ {B : Type 0} {bus : B → List ℕ → B × Reply} {remote : B → MctpEndpointContext}
    {Ready : B → Type 0} (v : Serves bus remote Ready) where
  pub get_eid_lem :
      (dst : ℕ) (s : Owner B)
      → Ready s.bus
      → (resp : GetEid.Response) × (b : B) × (send_get_eid_request bus dst s
          ≡ (record s { ctx = asked s.ctx; bus = b }, returns (ok resp)))
        × (resp.completion_code ≡ 0)
        × (resp.eid_endpoint_type ≡ 0)
        × Ready b
        × (remote b ≡ remote s.bus)
  get_eid_lem dst s ready =
      let f = next_front dst s in
      let h = front-IsFront s.ctx.assigned_eid dst s.ctx.next_msg_tag s.ctx.next_instance_id in
      let (b, trail, reply, ready', same) =
        v.serve s.bus f 0x02 [] (remote s.bus) (answer f 0x02 (0 ∷ 0 ∷ 0 ∷ 0 ∷ [])) ready h
          (omega arith) (omega arith) (λ trail. get_endpoint_id_answer (remote s.bus) f trail h) in
      let (resp, e, x, y) = get_eid_reply bus dst s b 0 0 0 0 trail reply in
      (resp, b, e, x, y, ready', same)

  pub set_eid_lem :
      (eid : ℕ) (s : Owner B)
      → Ready s.bus
      → (resp : SetEid.Response) × (b : B) × (send_set_eid_request bus eid s
          ≡ (record s { ctx = asked s.ctx; bus = b }, returns (ok resp)))
        × (resp.completion_code ≡ 0)
        × (resp.eid_allocation_status_reserved1_eid_assignment_status_reserved2 ≡ 0)
        × (resp.eid_pool_size ≡ 0)
        × Ready b
        × (remote b ≡ record (remote s.bus) { assigned_eid = eid })
  set_eid_lem eid s ready =
      let f = next_front 0 s in
      let h = front-IsFront s.ctx.assigned_eid 0 s.ctx.next_msg_tag s.ctx.next_instance_id in
      let hdr = control_hdr CommandCode.set_endpoint_id s.ctx.next_instance_id in
      let op = (SetEid.new_request hdr set_eid eid).operation_reserved in
      let (b, trail, reply, ready', same) =
        v.serve s.bus f 0x01 (op ∷ eid ∷ []) (record (remote s.bus) { assigned_eid = eid })
          (answer f 0x01 (0 ∷ 0 ∷ eid ∷ 0 ∷ [])) ready h (omega arith) (omega arith)
          (λ trail. set_endpoint_id_answer (remote s.bus) f op eid trail h) in
      let (resp, e, x, y, z) = set_eid_reply bus eid s b 0 0 eid 0 trail reply in
      (resp, b, e, x, y, z, ready', same)
