-- ===== src/Base/TransportHeader.antt =====
-- mctp-base-lib/src/base/models.rs: the four-byte MCTP transport header.
pub mod Fields
use mctp_emu.Prelude.{ℕ, refl, Option, some, Bool, true, false, ◌==◌, bit}
use mctp_emu.Crates.{Crates, get_or}
use mctp_emu.Base.Wire.{Wire, u8, pair, struct}

abbrev pub mctp_base_protocol_supported_hdr_version : ℕ
mctp_base_protocol_supported_hdr_version = 1

-- Each `[u8; 1]` is its one byte.
pub record TransportHeader : Type 0 where
  pub header_version_rsvd : ℕ
  pub destination_eid : ℕ
  pub source_eid : ℕ
  pub msg_tag_tag_owner_packet_seq_eom_som : ℕ

module _ ⦃c : Crates⦄ where
  open c use {get_bits, set_bits}

  pub header_version : TransportHeader → ℕ
  header_version h = get_bits h.header_version_rsvd 0 3

  pub msg_tag : TransportHeader → ℕ
  msg_tag h = get_bits h.msg_tag_tag_owner_packet_seq_eom_som 0 2

  pub tag_owner : TransportHeader → ℕ
  tag_owner h = get_bits h.msg_tag_tag_owner_packet_seq_eom_som 3 3

  pub packet_seq : TransportHeader → ℕ
  packet_seq h = get_bits h.msg_tag_tag_owner_packet_seq_eom_som 4 5

  pub eom : TransportHeader → ℕ
  eom h = get_bits h.msg_tag_tag_owner_packet_seq_eom_som 6 6

  pub som : TransportHeader → ℕ
  som h = get_bits h.msg_tag_tag_owner_packet_seq_eom_som 7 7

  set_header_version : ℕ → TransportHeader → TransportHeader
  set_header_version v h = record h { header_version_rsvd = set_bits h.header_version_rsvd 0 3 v }

  set_flags : ℕ → ℕ → ℕ → TransportHeader → TransportHeader
  set_flags lo hi v h = record h {
    msg_tag_tag_owner_packet_seq_eom_som = set_bits h.msg_tag_tag_owner_packet_seq_eom_som lo hi v;
  }

  set_msg_tag : ℕ → TransportHeader → TransportHeader
  unfolding set_flags
  set_msg_tag v h = set_flags 0 2 v h

  set_tag_owner : ℕ → TransportHeader → TransportHeader
  unfolding set_flags
  set_tag_owner v h = set_flags 3 3 v h

  set_eom : ℕ → TransportHeader → TransportHeader
  unfolding set_flags
  set_eom v h = set_flags 6 6 v h

  set_som : ℕ → TransportHeader → TransportHeader
  unfolding set_flags
  set_som v h = set_flags 7 7 v h

  -- `TransportHeader::new`; the cascade's setters in the order in which they run.
  pub new :
      (src_eid dst_eid msg_tag : ℕ) (tag_owner start_of_msg end_of_msg : Option Bool)
      → TransportHeader
  unfolding set_header_version set_msg_tag set_tag_owner set_som set_eom
  new src_eid dst_eid tag owner start_of_msg end_of_msg =
      let h₀ : TransportHeader = record {
        header_version_rsvd = 0;
        destination_eid = dst_eid;
        source_eid = src_eid;
        msg_tag_tag_owner_packet_seq_eom_som = 0;
      } in
      let h₁ = set_header_version mctp_base_protocol_supported_hdr_version h₀ in
      let h₂ = set_msg_tag tag h₁ in
      let h₃ = set_tag_owner (bit (get_or owner false)) h₂ in
      let h₄ = set_som (bit (get_or start_of_msg false)) h₃ in
      set_eom (bit (get_or end_of_msg false)) h₄

  -- `TransportHeader::create_response`.
  pub create_response : TransportHeader → TransportHeader
  create_response h =
      new h.destination_eid h.source_eid (msg_tag h) (some (tag_owner h == 0)) (some true)
        (some true)

  -- serde's derived traversal: the fields in the order of their declaration.
  abbrev pub wire : Wire TransportHeader
  wire =
      struct (pair u8 (pair u8 (pair u8 u8)))
        (λ t. record {
          header_version_rsvd = t.0;
          destination_eid = t.1.0;
          source_eid = t.1.1.0;
          msg_tag_tag_owner_packet_seq_eom_som = t.1.1.1;
        })
        (λ h. (
          h.header_version_rsvd,
          (h.destination_eid, (h.source_eid, h.msg_tag_tag_owner_packet_seq_eom_som)),
        ))
        (λ h. refl)
