-- ===== src/Endpoint/BusOwner/Packets.antt =====
-- The packets of the requests of the bus owner.
use mctp_emu.Prelude.{
  ℕ, ◌+◌, ◌*◌, ◌%◌, ◌≡◌, refl, ap, sym, ◌∙◌, [], ◌∷◌, Bool, true, false, arith, Option, some,
}
use mctp_emu.Crates.{Crates}
use mctp_emu.Base.Wire.{to_bytes}
use mctp_emu.Base.TransportHeader
use mctp_emu.Base.TransportHeader.{TransportHeader}
use mctp_emu.Base.TransportHeader.Fields.{new-flags, new-flags-IsByte}
use mctp_emu.Control.Header
use mctp_emu.Control.Header.{ControlMsgHeader}
use mctp_emu.Control.CommandCode.{CommandCode, command_code_as_u8}
use mctp_emu.Control.Message.{Message}
use mctp_emu.Control.Payload.{new, into_bytes}
use mctp_emu.Control.SetEid
use mctp_emu.Control.Payload.Layout.{into_bytes-new}
use mctp_emu.Endpoint.Responder.Requests.{Front, IsFront, request}
use mctp_emu.Control.SetEid.Enums.{set_eid}
use mctp_emu.Control.AllocateEids
use mctp_emu.Control.AllocateEids.Enums.{allocate_eids}
use mctp_emu.Control.AllocateEids.Fields.{new_request-operation}

module _ ⦃c : Crates⦄ where
  open c use {read_u8_cons}

  -- The headers of a request: the source, the destination, and the two counters.
  abbrev pub transport_hdr : (src dst tag : ℕ) → TransportHeader
  transport_hdr src dst tag = TransportHeader.new src dst tag (some true) (some true) (some true)

  abbrev pub control_hdr : CommandCode → ℕ → ControlMsgHeader
  control_hdr code id = Header.new code id false true false

  abbrev pub front : (src dst tag id : ℕ) → Front
  front src dst tag id = record {
    version = 1;
    dst = dst;
    src = src;
    flags = (transport_hdr src dst tag).msg_tag_tag_owner_packet_seq_eom_som;
    first = 0;
    second = id % 32 + 128;
  }

  pub request_lem :
      {T : Type 0} (m : Message T) (t : T) (src dst tag id : ℕ) (code : CommandCode)
      → m.hdr t ≡ control_hdr code id
      → into_bytes (new (transport_hdr src dst tag) (m.hdr t) (to_bytes m.wire t))
        ≡ request (front src dst tag id) (command_code_as_u8 code) (m.body t)
  request_lem m t src dst tag id code h =
      let yes : Option Bool = some true in
      let flags = new-flags src dst tag yes yes yes in
      let second : id % 32 + 64 * 0 + 128 * 1 ≡ id % 32 + 128 = omega arith in
      into_bytes-new m t src dst tag yes yes yes code id false true false h ∙ cc (flags, second)

  pub front-IsFront : (src dst tag id : ℕ) → IsFront (front src dst tag id)
  front-IsFront src dst tag id = record {
    flags_byte = new-flags-IsByte src dst tag (some true) (some true) (some true);
    second_byte = omega arith;
  }

module _ ⦃c : Crates⦄ where
  open c use {write_u8_lem}

  set_request_lem :
      (hdr : ControlMsgHeader) (eid : ℕ)
      → let r = SetEid.new_request hdr set_eid eid in
        (r.hdr ≡ hdr) × (SetEid.request_message.body r ≡ r.operation_reserved ∷ eid ∷ [])
  unfolding SetEid.new_request
  set_request_lem hdr eid = (refl, simp write_u8_lem)

  pub sent_set_eid :
      (src tag id eid : ℕ)
      → let hdr = control_hdr CommandCode.set_endpoint_id id in
        let req = SetEid.new_request hdr set_eid eid in
        into_bytes (new (transport_hdr src 0 tag) hdr (to_bytes SetEid.request_wire req))
        ≡ request (front src 0 tag id) 0x01 (req.operation_reserved ∷ eid ∷ [])
  sent_set_eid src tag id eid =
      let hdr = control_hdr CommandCode.set_endpoint_id id in
      let req = SetEid.new_request hdr set_eid eid in
      let (same, body) = set_request_lem hdr eid in
      ap (λ h. into_bytes (new (transport_hdr src 0 tag) h (to_bytes SetEid.request_wire req)))
        (sym same)
      ∙ request_lem SetEid.request_message req src 0 tag id CommandCode.set_endpoint_id same
      ∙ ap (request (front src 0 tag id) 0x01) body

  -- The operation of the request is 0, to allocate.
  allocate_request_lem :
      (hdr : ControlMsgHeader) (n start : ℕ)
      → let r = AllocateEids.new_request hdr allocate_eids n start in
        (r.hdr ≡ hdr) × (AllocateEids.request_message.body r ≡ 0 ∷ n ∷ start ∷ [])
  allocate_request_lem hdr n start =
      let r = AllocateEids.new_request hdr allocate_eids n start in
      let body : AllocateEids.request_message.body r ≡ r.operation_reserved ∷ n ∷ start ∷ [] =
        unfold AllocateEids.new_request in simp write_u8_lem in
      (
        unfold AllocateEids.new_request in refl,
        body ∙ ap (λ b. b ∷ n ∷ start ∷ []) (new_request-operation hdr allocate_eids n start),
      )

  pub sent_allocate_eids :
      (src tag id n start : ℕ)
      → let hdr = control_hdr CommandCode.allocate_endpoint_ids id in
        let req = AllocateEids.new_request hdr allocate_eids n start in
        into_bytes (new (transport_hdr src 0 tag) hdr (to_bytes AllocateEids.request_wire req))
        ≡ request (front src 0 tag id) 0x08 (0 ∷ n ∷ start ∷ [])
  sent_allocate_eids src tag id n start =
      let hdr = control_hdr CommandCode.allocate_endpoint_ids id in
      let req = AllocateEids.new_request hdr allocate_eids n start in
      let (same, body) = allocate_request_lem hdr n start in
      ap
        (λ h. into_bytes (new (transport_hdr src 0 tag) h (to_bytes AllocateEids.request_wire req)))
        (sym same)
      ∙ request_lem AllocateEids.request_message req src 0 tag id CommandCode.allocate_endpoint_ids
          same
      ∙ ap (request (front src 0 tag id) 0x08) body
