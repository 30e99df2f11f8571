-- ===== src/Endpoint/BusOwner/Replies.antt =====
-- What the bus owner reads in the packets of the answers, and a request with its answer.
use mctp_emu.Prelude.{ℕ, ◌+◌, ◌%◌, ◌≡◌, refl, List, [], ◌∷◌, arith, le→ltb, length}
use mctp_emu.Crates.{Crates}
use mctp_emu.Base.Errors.{ok}
use mctp_emu.Base.Wire.{try_from}
use mctp_emu.Control.CommandCode.{CommandCode}
use mctp_emu.Control.Payload.{ControlPayload, new, try_to_response}
use mctp_emu.Control.Payload.Parse.{parse_lem, control_header_of, header_of}
use mctp_emu.Control.GetEid
use mctp_emu.Control.SetEid
use mctp_emu.Control.AllocateEids
use mctp_emu.Control.SetEid.Enums.{set_eid}
use mctp_emu.Endpoint.Context.{MctpEndpointContext, returns}
use mctp_emu.Endpoint.Responder.Packets.{answer_flags}
use mctp_emu.Endpoint.Responder.Requests.{Front, request, answer}
use mctp_emu.Endpoint.BusOwner.{Owner, Reply, packet, ◌>>=◌}
use mctp_emu.Endpoint.BusOwner.Requests.{
  new_transport_hdr, new_control_hdr, send_and_decode, send_get_eid_request, send_set_eid_request,
  send_allocate_eids_request,
}
use mctp_emu.Endpoint.BusOwner.Packets.{
  control_hdr, front, request_lem, sent_set_eid, sent_allocate_eids,
}

-- The context after a request.
abbrev pub asked : MctpEndpointContext → MctpEndpointContext
asked ctx = record ctx {
  next_msg_tag = (ctx.next_msg_tag + 1) % 256;
  next_instance_id = (ctx.next_instance_id + 1) % 256;
}

-- The headers of the next request.
abbrev pub next_front : ⦃c : Crates⦄ → {B : Type 0} → ℕ → Owner B → Front
next_front dst s = front s.ctx.assigned_eid dst s.ctx.next_msg_tag s.ctx.next_instance_id

module _ ⦃c : Crates⦄ where
  open c use {read_u8_cons}

  read_get_eid :
      (f : Front) (code eid types medium : ℕ) (trail : List ℕ)
      → (p : ControlPayload) × (resp : GetEid.Response) × (try_to_response GetEid.response_wire
            (answer f 0x02 (code ∷ eid ∷ types ∷ medium ∷ trail))
          ≡ ok (p, resp))
        × (resp.completion_code ≡ code)
        × (resp.eid_endpoint_type ≡ types)
  unfolding try_to_response try_from
  read_get_eid f code eid types medium trail =
      let hdr = header_of 1 f.src f.dst (answer_flags f.flags) in
      let ctrl = control_header_of f.first (f.second % 128) 2 in
      let body = f.first ∷ (f.second % 128) ∷ 2 ∷ code ∷ eid ∷ types ∷ medium ∷ trail in
      (
        new hdr ctrl body,
        record {
          hdr = ctrl;
          completion_code = code;
          eid = eid;
          eid_endpoint_type = types;
          medium_specific = medium;
        },
        rw (parse_lem, le→ltb (length body) 7 (omega arith)) (simp read_u8_cons),
        refl,
        refl,
      )

  read_set_eid :
      (f : Front) (code status eid pool : ℕ) (trail : List ℕ)
      → (p : ControlPayload) × (resp : SetEid.Response) × (try_to_response SetEid.response_wire
            (answer f 0x01 (code ∷ status ∷ eid ∷ pool ∷ trail))
          ≡ ok (p, resp))
        × (resp.completion_code ≡ code)
        × (resp.eid_allocation_status_reserved1_eid_assignment_status_reserved2 ≡ status)
        × (resp.eid_pool_size ≡ pool)
  unfolding try_to_response try_from
  read_set_eid f code status eid pool trail =
      let hdr = header_of 1 f.src f.dst (answer_flags f.flags) in
      let ctrl = control_header_of f.first (f.second % 128) 1 in
      let body = f.first ∷ (f.second % 128) ∷ 1 ∷ code ∷ status ∷ eid ∷ pool ∷ trail in
      (
        new hdr ctrl body,
        record {
          hdr = ctrl;
          completion_code = code;
          eid_allocation_status_reserved1_eid_assignment_status_reserved2 = status;
          eid_setting = eid;
          eid_pool_size = pool;
        },
        rw (parse_lem, le→ltb (length body) 7 (omega arith)) (simp read_u8_cons),
        refl,
        refl,
        refl,
      )

  read_allocate_eids :
      (f : Front) (code status pool first : ℕ) (trail : List ℕ)
      → (p : ControlPayload) × (resp : AllocateEids.Response) × (try_to_response
            AllocateEids.response_wire
            (answer f 0x08 (code ∷ status ∷ pool ∷ first ∷ trail))
          ≡ ok (p, resp))
        × (resp.completion_code ≡ code)
        × (resp.allocation_status_reserved ≡ status)
  unfolding try_to_response try_from
  read_allocate_eids f code status pool first trail =
      let hdr = header_of 1 f.src f.dst (answer_flags f.flags) in
      let ctrl = control_header_of f.first (f.second % 128) 8 in
      let body = f.first ∷ (f.second % 128) ∷ 8 ∷ code ∷ status ∷ pool ∷ first ∷ trail in
      (
        new hdr ctrl body,
        record {
          hdr = ctrl;
          completion_code = code;
          allocation_status_reserved = status;
          eid_pool_size = pool;
          first_eid = first;
        },
        rw (parse_lem, le→ltb (length body) 7 (omega arith)) (simp read_u8_cons),
        refl,
        refl,
      )

-- A request of the bus owner, when the bus gives an answer to its packet.
module _ ⦃c : Crates⦄ {B : Type 0} (bus : B → List ℕ → B × Reply) where
  pub get_eid_reply :
      (dst : ℕ) (s : Owner B) (b : B) (code eid types medium : ℕ) (trail : List ℕ)
      → let f = next_front dst s in
        bus s.bus (request f 0x02 [])
          ≡ (b, packet (answer f 0x02 (code ∷ eid ∷ types ∷ medium ∷ trail)))
        → (resp : GetEid.Response) × (send_get_eid_request bus dst s
            ≡ (record s { ctx = asked s.ctx; bus = b }, returns (ok resp)))
          × (resp.completion_code ≡ code)
          × (resp.eid_endpoint_type ≡ types)
  unfolding send_get_eid_request ◌>>=◌ new_transport_hdr new_control_hdr send_and_decode
  get_eid_reply dst s b code eid types medium trail reply =
      let id = s.ctx.next_instance_id in
      let req : GetEid.Request = record { hdr = control_hdr CommandCode.get_endpoint_id id } in
      let sent =
        request_lem GetEid.request_message req s.ctx.assigned_eid dst s.ctx.next_msg_tag id
          CommandCode.get_endpoint_id refl in
      let (p, resp, e, x, y) = read_get_eid (next_front dst s) code eid types medium trail in
      (resp, rw (sent, reply, e) refl, x, y)

  pub set_eid_reply :
      (eid : ℕ) (s : Owner B) (b : B) (code status eid' pool : ℕ) (trail : List ℕ)
      → let f = next_front 0 s in
        let hdr = control_hdr CommandCode.set_endpoint_id s.ctx.next_instance_id in
        bus s.bus
            (request f 0x01 ((SetEid.new_request hdr set_eid eid).operation_reserved ∷ eid ∷ []))
          ≡ (b, packet (answer f 0x01 (code ∷ status ∷ eid' ∷ pool ∷ trail)))
        → (resp : SetEid.Response) × (send_set_eid_request bus eid s
            ≡ (record s { ctx = asked s.ctx; bus = b }, returns (ok resp)))
          × (resp.completion_code ≡ code)
          × (resp.eid_allocation_status_reserved1_eid_assignment_status_reserved2 ≡ status)
          × (resp.eid_pool_size ≡ pool)
  unfolding send_set_eid_request ◌>>=◌ new_transport_hdr new_control_hdr send_and_decode
  set_eid_reply eid s b code status eid' pool trail reply =
      let sent = sent_set_eid s.ctx.assigned_eid s.ctx.next_msg_tag s.ctx.next_instance_id eid in
      let (p, resp, e, x, y, z) = read_set_eid (next_front 0 s) code status eid' pool trail in
      (resp, rw (sent, reply, e) refl, x, y, z)

  pub allocate_eids_reply :
      (start n : ℕ) (s : Owner B) (b : B) (code status pool first : ℕ) (trail : List ℕ)
      → let f = next_front 0 s in
        bus s.bus (request f 0x08 (0 ∷ n ∷ start ∷ []))
          ≡ (b, packet (answer f 0x08 (code ∷ status ∷ pool ∷ first ∷ trail)))
        → (resp : AllocateEids.Response) × (send_allocate_eids_request bus start n s
            ≡ (record s { ctx = asked s.ctx; bus = b }, returns (ok resp)))
          × (resp.completion_code ≡ code)
          × (resp.allocation_status_reserved ≡ status)
  unfolding send_allocate_eids_request ◌>>=◌ new_transport_hdr new_control_hdr send_and_decode
  allocate_eids_reply start n s b code status pool first trail reply =
      let sent =
        sent_allocate_eids s.ctx.assigned_eid s.ctx.next_msg_tag s.ctx.next_instance_id n start in
      let (p, resp, e, x, y) = read_allocate_eids (next_front 0 s) code status pool first trail in
      (resp, rw (sent, reply, e) refl, x, y)
