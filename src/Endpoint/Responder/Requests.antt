-- ===== src/Endpoint/Responder/Requests.antt =====
-- What the endpoint answers to each request, byte for byte.
use mctp_emu.Prelude.{
  ℕ, ◌%◌, ◌≡◌, refl, ◌∙◌, List, [], ◌∷◌, arith, IsByte, length, some, le→ltb, true,
}
use mctp_emu.Crates.{Crates}
use mctp_emu.Base.Errors.{ok}
use mctp_emu.Base.Wire.{try_from}
use mctp_emu.Control.Header
use mctp_emu.Control.Header.{ControlMsgHeader, set_rq}
use mctp_emu.Control.Header.Fields.{set_rq_bytes}
use mctp_emu.Control.CommandCode.{CommandCode, command_code_as_u8, command_code_repr}
use mctp_emu.Control.EnumWire.{from_u8-as_u8}
use mctp_emu.Control.Payload.{ControlPayload, new, try_from_payload, command_code, known_code}
use mctp_emu.Control.Payload.Parse.{header_of, parse_lem}
use mctp_emu.Control.Message.{Message}
use mctp_emu.Control.Empty
use mctp_emu.Control.CompletionCode.{success, error_unsupported_cmd}
use mctp_emu.Control.SetEid.Enums.{no_pool_support, accepted}
use mctp_emu.Control.SetEid
use mctp_emu.Control.SetEid.Fields.{from-status}
use mctp_emu.Control.GetEid
use mctp_emu.Control.GetEid.Enums.{dynamic, simple}
use mctp_emu.Control.GetEid.Fields.{from-types}
use mctp_emu.Control.GetRoutingTable
use mctp_emu.Endpoint.Context.{MctpEndpointContext, returns}
use mctp_emu.Endpoint.Responder.{handle_request, dispatch, respond, handle_unsupported}
use mctp_emu.Endpoint.Responder.Packets.{answer_flags, respond_lem}

-- The bytes of the two headers of a request, up to its command code.
pub record Front : Type 0 where
  pub version : ℕ
  pub dst : ℕ
  pub src : ℕ
  pub flags : ℕ
  pub first : ℕ
  pub second : ℕ

-- A request, and the answer to it: to the sender, with the request bit cleared.
abbrev pub request : Front → ℕ → List ℕ → List ℕ
request f code body = f.version ∷ f.dst ∷ f.src ∷ f.flags ∷ f.first ∷ f.second ∷ code ∷ body

abbrev pub answer : Front → ℕ → List ℕ → List ℕ
answer f code body =
    1 ∷ f.src ∷ f.dst ∷ answer_flags f.flags ∷ f.first ∷ (f.second % 128) ∷ code ∷ body

pub record IsFront (f : Front) : Type 0 where
  pub flags_byte : IsByte f.flags
  pub second_byte : IsByte f.second

-- The listed commands that the endpoint does not handle.
abbrev pub IsUnsupported : CommandCode → Type 0
IsUnsupported CommandCode.set_endpoint_id = ⊥
IsUnsupported CommandCode.get_endpoint_id = ⊥
IsUnsupported CommandCode.discovery_notify = ⊥
IsUnsupported CommandCode.get_routing_table_entries = ⊥
IsUnsupported CommandCode.unknown = ⊥
IsUnsupported _ = Unit {0}

module _ ⦃c : Crates⦄ (ctx : MctpEndpointContext) where
  dispatch_unsupported :
      (code : CommandCode) (p : ControlPayload)
      → IsUnsupported code
      → dispatch ctx p (known_code code) ≡ handle_unsupported ctx p
  unfolding dispatch
  dispatch_unsupported CommandCode.set_endpoint_id p u = absurd u
  dispatch_unsupported CommandCode.get_endpoint_id p u = absurd u
  dispatch_unsupported CommandCode.discovery_notify p u = absurd u
  dispatch_unsupported CommandCode.get_routing_table_entries p u = absurd u
  dispatch_unsupported CommandCode.unknown p u = absurd u
  dispatch_unsupported _ p u = refl

module _ ⦃c : Crates⦄ (ctx : MctpEndpointContext) (f : Front) where
  open c use {write_u8_lem, read_u8_cons}

  -- The payload that a request with a known command code parses to.
  parsed : CommandCode → List ℕ → ControlPayload
  parsed code body =
      new (header_of f.version f.dst f.src f.flags)
        (record {
          msg_type_integrity_check_instance_id_rsvd_d_bit_rq = (f.first, f.second);
          command_code = code;
        })
        (f.first ∷ f.second ∷ command_code_as_u8 code ∷ body)

  handle_lem :
      (code : CommandCode) (body : List ℕ)
      → handle_request ctx (request f (command_code_as_u8 code) body)
        ≡ dispatch ctx (parsed code body) (command_code (parsed code body))
  unfolding handle_request parsed
  handle_lem code body = rw (parse_lem, from_u8-as_u8 command_code_repr code)

  code_lem :
      (code : CommandCode) (body : List ℕ) → command_code (parsed code body) ≡ known_code code
  unfolding command_code parsed
  code_lem code body = refl

  abbrev header : CommandCode → ControlMsgHeader
  header code = record {
    msg_type_integrity_check_instance_id_rsvd_d_bit_rq = (f.first, f.second);
    command_code = code;
  }

  read_control_header :
      (code : CommandCode) (body : List ℕ)
      → Header.wire.deserialize (f.first ∷ f.second ∷ command_code_as_u8 code ∷ body)
        ≡ some (header code, body)
  read_control_header code body = simp read_u8_cons (rw (from_u8-as_u8 command_code_repr code))

  -- An answer made over the request's header with its request bit cleared.
  answer_lem :
      {T : Type 0} (m : Message T) (code : CommandCode) (body : List ℕ) (resp : T)
      → IsFront f
      → m.hdr resp ≡ set_rq 0 (header code)
      → respond m (parsed code body) resp ≡ answer f (command_code_as_u8 code) (m.body resp)
  unfolding parsed
  answer_lem m code body resp h e =
      respond_lem m (parsed code body) resp h.flags_byte
      ∙ rw (e, set_rq_bytes f.first f.second code h.second_byte)

  read_empty :
      (code : CommandCode) (rest : List ℕ)
      → try_from_payload Empty.request_wire (parsed code rest) ≡ ok (record { hdr = header code })
  unfolding try_from_payload try_from parsed
  read_empty code rest = rw (
    le→ltb (length (f.first ∷ f.second ∷ command_code_as_u8 code ∷ rest)) 3 (omega arith),
    read_control_header code,
  )

  -- A Set Endpoint ID request that has its EID, with headers of bytes, stores that EID and is
  -- answered with success and the EID, whatever its operation.
  pub set_endpoint_id_answer :
      (op eid : ℕ) (rest : List ℕ)
      → IsFront f
      → handle_request ctx (request f 0x01 (op ∷ eid ∷ rest))
        ≡ (record ctx { assigned_eid = eid }, returns (ok (answer f 0x01 (0 ∷ 0 ∷ eid ∷ 0 ∷ []))))
  set_endpoint_id_answer op eid rest h =
      let code = CommandCode.set_endpoint_id in
      let p = parsed code (op ∷ eid ∷ rest) in
      let req : SetEid.Request = record { hdr = header code; operation_reserved = op; eid = eid } in
      let read : try_from_payload SetEid.request_wire p ≡ ok req =
        unfold try_from_payload try_from parsed in
        rw (le→ltb (length p.payload) 5 (unfold parsed in omega arith), read_control_header code)
          (simp read_u8_cons) in
      let resp = SetEid.from req success no_pool_support accepted eid 0 in
      let reply : respond SetEid.response_message p resp ≡ answer f 0x01 (0 ∷ 0 ∷ eid ∷ 0 ∷ []) =
        answer_lem SetEid.response_message code (op ∷ eid ∷ rest) resp h
          (unfold SetEid.from in refl)
        ∙ simp (write_u8_lem, from-status) (unfold SetEid.from in refl) in
      handle_lem code (op ∷ eid ∷ rest)
      ∙ rw (code_lem code (op ∷ eid ∷ rest)) (unfold dispatch in rw (read, reply))

  -- A Get Endpoint ID request, with headers of bytes, is answered with success, EID 0, a dynamic
  -- EID and a simple endpoint, whatever EID is assigned, and changes nothing.
  pub get_endpoint_id_answer :
      (rest : List ℕ)
      → IsFront f
      → handle_request ctx (request f 0x02 rest)
        ≡ (ctx, returns (ok (answer f 0x02 (0 ∷ 0 ∷ 0 ∷ 0 ∷ []))))
  get_endpoint_id_answer rest h =
      let code = CommandCode.get_endpoint_id in
      let p = parsed code rest in
      let req : GetEid.Request = record { hdr = header code } in
      let read : try_from_payload GetEid.request_wire p ≡ ok req =
        unfold try_from_payload try_from parsed in
        rw (le→ltb (length p.payload) 3 (unfold parsed in omega arith), read_control_header code) in
      let resp = GetEid.from req success 0 dynamic simple 0 in
      let reply : respond GetEid.response_message p resp ≡ answer f 0x02 (0 ∷ 0 ∷ 0 ∷ 0 ∷ []) =
        answer_lem GetEid.response_message code rest resp h (unfold GetEid.from in refl)
        ∙ simp (write_u8_lem, from-types) (unfold GetEid.from in refl) in
      handle_lem code rest ∙ rw (code_lem code rest) (unfold dispatch in rw (read, reply))

  -- A Discovery Notify request, with headers of bytes, is answered with success and sets the flag
  -- that asks for a discovery.
  pub discovery_notify_answer :
      (rest : List ℕ)
      → IsFront f
      → handle_request ctx (request f 0x0d rest)
        ≡ (record ctx { perform_discovery = true }, returns (ok (answer f 0x0d (0 ∷ []))))
  discovery_notify_answer rest h =
      let code = CommandCode.discovery_notify in
      let p = parsed code rest in
      let req : Empty.EmptyRequest = record { hdr = header code } in
      let read = read_empty code rest in
      let resp = Empty.from req success in
      let reply : respond Empty.response_message p resp ≡ answer f 0x0d (0 ∷ []) =
        answer_lem Empty.response_message code rest resp h (unfold Empty.from in refl)
        ∙ simp write_u8_lem (unfold Empty.from in refl) in
      handle_lem code rest ∙ rw (code_lem code rest) (unfold dispatch in rw (read, reply))

  -- A Get Routing Table Entries request that has its entry handle, with headers of bytes, is
  -- answered with success, no next entry and no entries, and changes nothing.
  pub get_routing_table_answer :
      (handle : ℕ) (rest : List ℕ)
      → IsFront f
      → handle_request ctx (request f 0x0a (handle ∷ rest))
        ≡ (ctx, returns (ok (answer f 0x0a (0 ∷ 0xff ∷ 0 ∷ []))))
  get_routing_table_answer handle rest h =
      let code = CommandCode.get_routing_table_entries in
      let p = parsed code (handle ∷ rest) in
      let req : GetRoutingTable.Request = record { hdr = header code; entry_handle = handle } in
      let read : try_from_payload GetRoutingTable.request_wire p ≡ ok req =
        unfold try_from_payload try_from parsed in
        rw (le→ltb (length p.payload) 4 (unfold parsed in omega arith), read_control_header code)
          (simp read_u8_cons) in
      let resp = GetRoutingTable.from req success 0xff 0 in
      let reply : respond GetRoutingTable.response_message p resp
          ≡ answer f 0x0a (0 ∷ 0xff ∷ 0 ∷ []) =
        answer_lem GetRoutingTable.response_message code (handle ∷ rest) resp h
          (unfold GetRoutingTable.from in refl)
        ∙ simp write_u8_lem (unfold GetRoutingTable.from in refl) in
      handle_lem code (handle ∷ rest)
      ∙ rw (code_lem code (handle ∷ rest)) (unfold dispatch in rw (read, reply))

  -- A request of a command that is listed but not handled, with headers of bytes, is answered with
  -- "unsupported command" and changes nothing.
  pub unsupported_answer :
      (code : CommandCode) (rest : List ℕ)
      → IsFront f
      → IsUnsupported code
      → handle_request ctx (request f (command_code_as_u8 code) rest)
        ≡ (ctx, returns (ok (answer f (command_code_as_u8 code) (5 ∷ []))))
  unsupported_answer code rest h u =
      let p = parsed code rest in
      let req : Empty.EmptyRequest = record { hdr = header code } in
      let resp = Empty.from req error_unsupported_cmd in
      let reply : respond Empty.response_message p resp
          ≡ answer f (command_code_as_u8 code) (5 ∷ []) =
        answer_lem Empty.response_message code rest resp h (unfold Empty.from in refl)
        ∙ simp write_u8_lem (unfold Empty.from in refl) in
      handle_lem code rest
      ∙ rw (code_lem code rest, dispatch_unsupported ctx code p u)
          (unfold handle_unsupported in rw (read_empty code rest, reply))
