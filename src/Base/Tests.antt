-- ===== src/Base/Tests.antt =====
-- Transport headers, and the theorems on them at concrete values.
use mctp_emu.Prelude.{◌≡◌, ◌-◌, arith}
use mctp_emu.Crates.Reference.{reference}
use mctp_emu.Base.TransportHeader.{
  TransportHeader, header_version, msg_tag, tag_owner, packet_seq, eom, som, create_response,
}
use mctp_emu.Base.TransportHeader.Fields.{create_response_fields}

abbrev header : TransportHeader
header = record {
  header_version_rsvd = 1;
  destination_eid = 10;
  source_eid = 8;
  msg_tag_tag_owner_packet_seq_eom_som = 0xca;
}

create_response_fields_example :
    let r = create_response header in
    (r.destination_eid ≡ 8)
    × (r.source_eid ≡ 10)
    × (msg_tag r ≡ msg_tag header)
    × (tag_owner r ≡ 1 - tag_owner header)
    × (som r ≡ 1)
    × (eom r ≡ 1)
    × (packet_seq r ≡ 0)
    × (header_version r ≡ 1)
create_response_fields_example = create_response_fields header (omega arith)
