-- ===== src/Control/Header.antt =====
-- mctp-base-lib/src/control/models.rs: the three-byte header of control messages.
pub mod Fields
use mctp_emu.Prelude.{ℕ, refl, Bool, true, ◌==◌, not, bit}
use mctp_emu.Crates.{Crates}
use mctp_emu.Base.Wire.{Wire, u8, pair, struct}
use mctp_emu.Base.TransportHeader.{TransportHeader, tag_owner}
use mctp_emu.Control.CommandCode.{CommandCode, unknown}
use mctp_emu.Control.CommandCode
use mctp_emu.Control.EnumWire.{enum_wire}

-- The `[u8; 2]` is the pair of its bytes; bits 8 to 15 are those of the second byte.
pub record ControlMsgHeader : Type 0 where
  pub msg_type_integrity_check_instance_id_rsvd_d_bit_rq : ℕ × ℕ
  pub command_code : CommandCode

abbrev pub default_header : ControlMsgHeader
default_header = record {
  msg_type_integrity_check_instance_id_rsvd_d_bit_rq = (0, 0);
  command_code = unknown;
}

module _ ⦃c : Crates⦄ where
  open c use {get_bits, set_bits}

  get_first : ℕ → ℕ → ControlMsgHeader → ℕ
  get_first lo hi h = get_bits h.msg_type_integrity_check_instance_id_rsvd_d_bit_rq.0 lo hi

  get_second : ℕ → ℕ → ControlMsgHeader → ℕ
  get_second lo hi h = get_bits h.msg_type_integrity_check_instance_id_rsvd_d_bit_rq.1 lo hi

  pub msg_type : ControlMsgHeader → ℕ
  unfolding get_first
  msg_type h = get_first 0 6 h

  pub integrity_check : ControlMsgHeader → ℕ
  unfolding get_first
  integrity_check h = get_first 7 7 h

  pub instance_id : ControlMsgHeader → ℕ
  unfolding get_second
  instance_id h = get_second 0 4 h

  pub d_bit : ControlMsgHeader → ℕ
  unfolding get_second
  d_bit h = get_second 6 6 h

  pub rq : ControlMsgHeader → ℕ
  unfolding get_second
  rq h = get_second 7 7 h

  set_first : ℕ → ℕ → ℕ → ControlMsgHeader → ControlMsgHeader
  set_first lo hi v h =
      let (first, second) = h.msg_type_integrity_check_instance_id_rsvd_d_bit_rq in
      record h {
        msg_type_integrity_check_instance_id_rsvd_d_bit_rq = (set_bits first lo hi v, second);
      }

  set_second : ℕ → ℕ → ℕ → ControlMsgHeader → ControlMsgHeader
  set_second lo hi v h =
      let (first, second) = h.msg_type_integrity_check_instance_id_rsvd_d_bit_rq in
      record h {
        msg_type_integrity_check_instance_id_rsvd_d_bit_rq = (first, set_bits second lo hi v);
      }

  set_integrity_check : ℕ → ControlMsgHeader → ControlMsgHeader
  unfolding set_first
  set_integrity_check v h = set_first 7 7 v h

  set_instance_id : ℕ → ControlMsgHeader → ControlMsgHeader
  unfolding set_second
  set_instance_id v h = set_second 0 4 v h

  set_d_bit : ℕ → ControlMsgHeader → ControlMsgHeader
  unfolding set_second
  set_d_bit v h = set_second 6 6 v h

  unfoldable pub set_rq : ℕ → ControlMsgHeader → ControlMsgHeader
  unfolding set_second
  set_rq v h = set_second 7 7 v h

  -- `ControlMsgHeader::new`; the cascade's setters in the order in which they run.
  pub new :
      (cmd_code : CommandCode) (instance_id : ℕ) (integ_check request datagram : Bool)
      → ControlMsgHeader
  unfolding set_integrity_check set_instance_id set_d_bit set_rq
  new cmd_code id integ_check request datagram =
      let h₁ = set_rq (bit request) default_header in
      let h₂ = set_instance_id id h₁ in
      let h₃ = set_integrity_check (bit integ_check) h₂ in
      let h₄ = set_d_bit (bit datagram) h₃ in record h₄ { command_code = cmd_code }

  -- `impl From<TransportHeader> for ControlMsgHeader`.
  pub from_transport : TransportHeader → ControlMsgHeader
  from_transport transport_hdr =
      let is_req = not (tag_owner transport_hdr == 0) in
      let is_datagram = transport_hdr.destination_eid == 0xff in
      new unknown 0 true is_req is_datagram

  abbrev pub wire : Wire ControlMsgHeader
  wire =
      struct (pair (pair u8 u8) (enum_wire CommandCode.command_code_repr))
        (λ t. record {
          msg_type_integrity_check_instance_id_rsvd_d_bit_rq = t.0;
          command_code = t.1;
        })
        (λ h. (h.msg_type_integrity_check_instance_id_rsvd_d_bit_rq, h.command_code)) (λ h. refl)
