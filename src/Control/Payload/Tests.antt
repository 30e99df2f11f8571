-- ===== src/Control/Payload/Tests.antt =====
-- Packets, and the theorems on them at concrete bytes.
use mctp_emu.Prelude.{ℕ, ◌≤◌, ◌<◌, ◌≡◌, ◌⊎◌, List, [], ◌∷◌, length}
use mctp_emu.Crates.Reference.{reference}
use mctp_emu.Base.Errors.{ok, err, invalid_payload_size}
use mctp_emu.Base.Wire.{to_bytes}
use mctp_emu.Control.Header.{ControlMsgHeader}
use mctp_emu.Control.CommandCode.{set_endpoint_id}
use mctp_emu.Control.SetEid
use mctp_emu.Control.SetEid.{Request, request_message}
use mctp_emu.Control.Payload.{ControlPayload, new, into_bytes, try_from_bytes, try_to_response}
use mctp_emu.Prelude.{refl, some, none, true, false}
use mctp_emu.Base.TransportHeader
use mctp_emu.Control.Header
use mctp_emu.Control.GetEid
use mctp_emu.Control.CommandCode.{get_endpoint_id}
use mctp_emu.Control.Payload.Layout.{into_bytes-new}
use mctp_emu.Control.Payload.Parse.{header_of, control_header_of, parse_lem}
use mctp_emu.Control.Payload.RoundTrip.{
  try_from_bytes_total, into_bytes-try_from_bytes, try_to_response-into_bytes,
}

-- A discovery notification, with a byte behind its header.
abbrev notify : List ℕ
notify = 1 ∷ 0 ∷ 9 ∷ 0xc8 ∷ 0 ∷ 0x80 ∷ 0x0d ∷ 0x55 ∷ []

abbrev parsed : ControlPayload
parsed = new (header_of 1 0 9 0xc8) (control_header_of 0 0x80 0x0d) (0 ∷ 0x80 ∷ 0x0d ∷ 0x55 ∷ [])

abbrev header : ControlMsgHeader
header = record {
  msg_type_integrity_check_instance_id_rsvd_d_bit_rq = (0, 0x81);
  command_code = set_endpoint_id;
}

abbrev set_eid : Request
set_eid = record { hdr = header; operation_reserved = 0; eid = 12 }

try_from_bytes_total_example :
    ((7 ≤ length notify) × (p : ControlPayload) × (try_from_bytes notify ≡ ok p))
    ⊎ ((length notify < 7) × (try_from_bytes notify ≡ err (invalid_payload_size 7 (length notify))))
try_from_bytes_total_example = try_from_bytes_total notify

into_bytes-try_from_bytes_example : into_bytes parsed ≡ notify
into_bytes-try_from_bytes_example =
    into_bytes-try_from_bytes notify parsed (parse_lem 1 0 9 0xc8 0 0x80 0x0d (0x55 ∷ []))

try_to_response-into_bytes_example :
    try_to_response SetEid.request_wire
      (into_bytes (new (header_of 1 10 8 0xca) header (to_bytes SetEid.request_wire set_eid)))
    ≡ ok (new (header_of 1 10 8 0xca) header (to_bytes SetEid.request_wire set_eid), set_eid)
try_to_response-into_bytes_example =
    try_to_response-into_bytes request_message (header_of 1 10 8 0xca) set_eid

abbrev get_eid : GetEid.Request
get_eid = record { hdr = Header.new get_endpoint_id 35 false true false }

into_bytes-new_example :
    into_bytes (
      new
        (TransportHeader.new 8 10 13 (some true) none (some true))
        get_eid.hdr
        (to_bytes GetEid.request_wire get_eid))
    ≡ 1 ∷ 10 ∷ 8 ∷ 0x4d ∷ 0 ∷ 0x83 ∷ 2 ∷ []
into_bytes-new_example =
    into_bytes-new GetEid.request_message get_eid 8 10 13 (some true) none (some true)
      get_endpoint_id 35 false true false refl
