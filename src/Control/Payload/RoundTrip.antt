-- ===== src/Control/Payload/RoundTrip.antt =====
-- Control packets are written as they were read, and read as they were written.
use mctp_emu.Prelude.{
  ℕ, ◌≤◌, ◌<◌, ◌≡◌, sym, ap, ◌∙◌, List, [], ◌∷◌, ◌++◌, arith, length, ◌⊎◌, inl, inr, append-nil,
}
use mathlib.Core.Path.{ap₂}
use mctp_emu.Crates.{Crates}
use mctp_emu.Base.Errors.{ok, err, invalid_payload_size}
use mctp_emu.Base.Wire.{to_bytes, try_from}
use mctp_emu.Base.Wire.Conversion.{try_from-to_bytes}
use mctp_emu.Base.TransportHeader.{TransportHeader}
use mctp_emu.Control.Header
use mctp_emu.Control.Header.{ControlMsgHeader}
use mctp_emu.Control.Message.{Message}
use mctp_emu.Control.EnumWire.{from_u8-as_u8}
use mctp_emu.Control.CommandCode.{command_code_repr, command_code_as_u8}
use mctp_emu.Control.Payload.{ControlPayload, new, into_bytes, try_from_bytes, try_to_response}
use mctp_emu.Control.Payload.Parse.{
  to_bytes-header, to_bytes-control_header, parse_lem, parse_short, Packet-cases, header_of,
  control_header_of,
}

module _ ⦃c : Crates⦄ where
  ok_injective : {A : Type 0} {a b : A} → ok a ≡ ok b → a ≡ b
  ok_injective h = cc

  pub into_bytes_lem :
      (p : ControlPayload)
      → into_bytes p
        ≡ p.hdr.header_version_rsvd ∷ p.hdr.destination_eid ∷ p.hdr.source_eid
          ∷ p.hdr.msg_tag_tag_owner_packet_seq_eom_som ∷ p.payload
  unfolding into_bytes
  into_bytes_lem p = rw to_bytes-header

  -- A packet parses exactly when it holds both headers, seven bytes, and a shorter one is refused with
  -- the size that was found.
  pub try_from_bytes_total :
      (bytes : List ℕ)
      → ((7 ≤ length bytes) × (p : ControlPayload) × (try_from_bytes bytes ≡ ok p))
        ⊎ ((length bytes < 7)
            × (try_from_bytes bytes ≡ err (invalid_payload_size 7 (length bytes))))
  try_from_bytes_total bytes = elim (Packet-cases bytes) [
    | inl short ↦ inr (short, parse_short bytes short)
    | inr p ↦ inl (
      omega (arith, ap length p.shape),
      new (header_of p.b0 p.b1 p.b2 p.b3) (control_header_of p.x p.y p.n) _,
      ap try_from_bytes p.shape ∙ parse_lem p.b0 p.b1 p.b2 p.b3 p.x p.y p.n p.body,
    )
  ]

  -- A parsed packet is written back byte for byte, also where its command code is none of the listed.
  pub into_bytes-try_from_bytes :
      (bytes : List ℕ) (p : ControlPayload) → try_from_bytes bytes ≡ ok p → into_bytes p ≡ bytes
  into_bytes-try_from_bytes bytes p h = elim (Packet-cases bytes) [
    | inl short ↦ cc (parse_short bytes short)
    | inr q ↦
        let e = parse_lem q.b0 q.b1 q.b2 q.b3 q.x q.y q.n q.body in
        ap into_bytes (ok_injective (sym h ∙ ap try_from_bytes q.shape ∙ e))
        ∙ into_bytes_lem _
        ∙ sym q.shape
  ]

  -- A packet whose body begins with its control header is read back as it was written.
  pub try_from_bytes-into_bytes :
      (p : ControlPayload) (body : List ℕ)
      → p.payload ≡ to_bytes Header.wire p.control_hdr ++ body
      → try_from_bytes (into_bytes p) ≡ ok p
  try_from_bytes-into_bytes p body h =
      let bits = p.control_hdr.msg_type_integrity_check_instance_id_rsvd_d_bit_rq in
      let code = command_code_as_u8 p.control_hdr.command_code in
      let e : p.payload ≡ bits.0 ∷ bits.1 ∷ code ∷ body =
        h ∙ ap (λ l. l ++ body) (to_bytes-control_header p.control_hdr) in
      let f = p.hdr.msg_tag_tag_owner_packet_seq_eom_som in
      let v = p.hdr.header_version_rsvd in
      let d = p.hdr.destination_eid in
      let s = p.hdr.source_eid in
      ap try_from_bytes (into_bytes_lem p ∙ ap (λ l. v ∷ d ∷ s ∷ f ∷ l) e)
      ∙ parse_lem v d s f bits.0 bits.1 code body
      ∙ ap₂ (λ k l. ok (new p.hdr (record p.control_hdr { command_code = k }) l))
          (from_u8-as_u8 command_code_repr p.control_hdr.command_code) (sym e)

  -- A request or response sent in a packet is received as it was sent, with the same headers.
  pub try_to_response-into_bytes :
      {T : Type 0} (m : Message T) (hdr : TransportHeader) (t : T)
      → try_to_response m.wire (into_bytes (new hdr (m.hdr t) (to_bytes m.wire t)))
        ≡ ok (new hdr (m.hdr t) (to_bytes m.wire t), t)
  unfolding try_to_response
  try_to_response-into_bytes m hdr t = rw (
    try_from_bytes-into_bytes (new hdr (m.hdr t) (to_bytes m.wire t)) (m.body t)
        (unfold to_bytes in m.serialize-hdr t),
    ap (try_from m.wire) (sym (append-nil (to_bytes m.wire t))) ∙ try_from-to_bytes m.wire t [],
  )
