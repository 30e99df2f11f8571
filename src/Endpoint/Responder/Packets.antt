-- ===== src/Endpoint/Responder/Packets.antt =====
-- The bytes of the endpoint's answer, from the bytes of the request.
use mctp_emu.Prelude.{ℕ, ◌+◌, ◌-◌, ◌*◌, ◌/◌, ◌%◌, ◌≡◌, ◌∷◌, IsByte}
use mctp_emu.Crates.{Crates}
use mctp_emu.Base.TransportHeader.Fields.{create_response_bytes}
use mctp_emu.Control.Message.{Message}
use mctp_emu.Control.CommandCode.{command_code_as_u8}
use mctp_emu.Control.Payload.{ControlPayload, create_response_payload}
use mctp_emu.Control.Payload.Parse.{to_bytes-message}
use mctp_emu.Control.Payload.RoundTrip.{into_bytes_lem}
use mctp_emu.Endpoint.Responder.{respond}

-- The last byte of the transport header of an answer: the tag, the flipped owner bit, start and end.
abbrev pub answer_flags : ℕ → ℕ
answer_flags b = b % 8 + 8 * (1 - b / 8 % 2) + 64 + 128

module _ ⦃c : Crates⦄ where
  -- An answer goes back to the source of the request and begins with the answer's control header.
  pub respond_lem :
      {T : Type 0} (m : Message T) (p : ControlPayload) (resp : T)
      → IsByte p.hdr.msg_tag_tag_owner_packet_seq_eom_som
      → respond m p resp
        ≡ 1
          ∷ p.hdr.source_eid
          ∷ p.hdr.destination_eid
          ∷ answer_flags p.hdr.msg_tag_tag_owner_packet_seq_eom_som
          ∷ (m.hdr resp).msg_type_integrity_check_instance_id_rsvd_d_bit_rq.0
          ∷ (m.hdr resp).msg_type_integrity_check_instance_id_rsvd_d_bit_rq.1
          ∷ command_code_as_u8 (m.hdr resp).command_code
          ∷ m.body resp
  unfolding respond create_response_payload
  respond_lem m p resp h =
      rw (into_bytes_lem, create_response_bytes p.hdr h, to_bytes-message m resp)
