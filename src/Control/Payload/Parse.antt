-- ===== src/Control/Payload/Parse.antt =====
-- Parsing a control packet, byte by byte.
use mctp_emu.Prelude.{
  ℕ, ◌<◌, ◌≡◌, refl, ap, ◌∙◌, ◌++◌, List, [], ◌∷◌, arith, length, le→ltb, lt→ltb, ◌⊎◌, inl, inr,
}
use mctp_emu.Crates.{Crates}
use mctp_emu.Base.Errors.{ok, err, invalid_payload_size}
use mctp_emu.Base.Wire.{to_bytes, try_from}
use mctp_emu.Base.TransportHeader
use mctp_emu.Base.TransportHeader.{TransportHeader}
use mctp_emu.Control.Header
use mctp_emu.Control.Header.{ControlMsgHeader}
use mctp_emu.Control.CommandCode.{command_code_from, command_code_as_u8}
use mctp_emu.Control.Message.{Message}
use mctp_emu.Control.Payload.{new, try_from_bytes}

abbrev pub header_of : (b0 b1 b2 b3 : ℕ) → TransportHeader
header_of b0 b1 b2 b3 = record {
  header_version_rsvd = b0;
  destination_eid = b1;
  source_eid = b2;
  msg_tag_tag_owner_packet_seq_eom_som = b3;
}

module _ ⦃c : Crates⦄ where
  open c use {write_u8_lem, read_u8_cons}

  abbrev pub control_header_of : (x y n : ℕ) → ControlMsgHeader
  control_header_of x y n = record {
    msg_type_integrity_check_instance_id_rsvd_d_bit_rq = (x, y);
    command_code = command_code_from n;
  }

  pub to_bytes-header :
      (h : TransportHeader)
      → to_bytes TransportHeader.wire h
        ≡ h.header_version_rsvd ∷ h.destination_eid ∷ h.source_eid
          ∷ h.msg_tag_tag_owner_packet_seq_eom_som ∷ []
  unfolding to_bytes
  to_bytes-header h = simp write_u8_lem

  pub to_bytes-control_header :
      (h : ControlMsgHeader)
      → to_bytes Header.wire h
        ≡ h.msg_type_integrity_check_instance_id_rsvd_d_bit_rq.0
          ∷ h.msg_type_integrity_check_instance_id_rsvd_d_bit_rq.1
          ∷ command_code_as_u8 h.command_code
          ∷ []
  unfolding to_bytes
  to_bytes-control_header h = simp write_u8_lem

  pub to_bytes-message :
      {T : Type 0} (m : Message T) (t : T)
      → to_bytes m.wire t
        ≡ (m.hdr t).msg_type_integrity_check_instance_id_rsvd_d_bit_rq.0
          ∷ (m.hdr t).msg_type_integrity_check_instance_id_rsvd_d_bit_rq.1
          ∷ command_code_as_u8 (m.hdr t).command_code
          ∷ m.body t
  to_bytes-message m t =
      let whole : to_bytes m.wire t ≡ to_bytes Header.wire (m.hdr t) ++ m.body t =
        unfold to_bytes in m.serialize-hdr t in
      whole ∙ ap (λ l. l ++ m.body t) (to_bytes-control_header (m.hdr t))

  pub try_from-header :
      (b0 b1 b2 b3 : ℕ) (rest : List ℕ)
      → try_from TransportHeader.wire (b0 ∷ b1 ∷ b2 ∷ b3 ∷ rest) ≡ ok (header_of b0 b1 b2 b3)
  unfolding try_from
  try_from-header b0 b1 b2 b3 rest =
      rw (le→ltb (length (b0 ∷ b1 ∷ b2 ∷ b3 ∷ rest)) 4 (omega arith)) (simp read_u8_cons)

  pub try_from-control_header :
      (x y n : ℕ) (rest : List ℕ)
      → try_from Header.wire (x ∷ y ∷ n ∷ rest) ≡ ok (control_header_of x y n)
  unfolding try_from
  try_from-control_header x y n rest =
      rw (le→ltb (length (x ∷ y ∷ n ∷ rest)) 3 (omega arith)) (simp read_u8_cons)

  pub parse_lem :
      (b0 b1 b2 b3 x y n : ℕ) (body : List ℕ)
      → try_from_bytes (b0 ∷ b1 ∷ b2 ∷ b3 ∷ x ∷ y ∷ n ∷ body)
        ≡ ok (new (header_of b0 b1 b2 b3) (control_header_of x y n) (x ∷ y ∷ n ∷ body))
  unfolding try_from_bytes
  parse_lem b0 b1 b2 b3 x y n body = rw (
    le→ltb (length (b0 ∷ b1 ∷ b2 ∷ b3 ∷ x ∷ y ∷ n ∷ body)) 7 (omega arith),
    try_from-header b0 b1 b2 b3 [],
    try_from-control_header x y n [],
  )

  pub parse_short :
      (bytes : List ℕ)
      → length bytes < 7
      → try_from_bytes bytes ≡ err (invalid_payload_size 7 (length bytes))
  unfolding try_from_bytes
  parse_short bytes h = rw (lt→ltb (length bytes) 7 h)

-- Bytes that hold both headers.
pub record Packet (bytes : List ℕ) : Type 0 where
  pub b0 : ℕ
  pub b1 : ℕ
  pub b2 : ℕ
  pub b3 : ℕ
  pub x : ℕ
  pub y : ℕ
  pub n : ℕ
  pub body : List ℕ
  pub shape : bytes ≡ b0 ∷ b1 ∷ b2 ∷ b3 ∷ x ∷ y ∷ n ∷ body

pub Packet-cases : (bytes : List ℕ) → (length bytes < 7) ⊎ Packet bytes
Packet-cases (b0 ∷ b1 ∷ b2 ∷ b3 ∷ x ∷ y ∷ n ∷ body) =
    inr (record {
      b0 = b0;
      b1 = b1;
      b2 = b2;
      b3 = b3;
      x = x;
      y = y;
      n = n;
      body = body;
      shape = refl;
    })
Packet-cases [] = inl (omega arith)
Packet-cases (_ ∷ []) = inl (omega arith)
Packet-cases (_ ∷ _ ∷ []) = inl (omega arith)
Packet-cases (_ ∷ _ ∷ _ ∷ []) = inl (omega arith)
Packet-cases (_ ∷ _ ∷ _ ∷ _ ∷ []) = inl (omega arith)
Packet-cases (_ ∷ _ ∷ _ ∷ _ ∷ _ ∷ []) = inl (omega arith)
Packet-cases (_ ∷ _ ∷ _ ∷ _ ∷ _ ∷ _ ∷ []) = inl (omega arith)
