-- ===== src/Control/Payload.antt =====
-- mctp-base-lib/src/control.rs: a control message in a packet, the transport header before the bytes
-- of a struct that begins with the control header.
pub mod Parse
pub mod RoundTrip
pub mod Layout
pub mod Tests
use mctp_emu.Prelude.{ℕ, ◌+◌, ◌-◌, List, ◌++◌, length, take, drop, ltb, if◌then◌else◌}
use mctp_emu.Crates.{Crates}
use mctp_emu.Base.Errors.{Result, ok, err, invalid_payload_size, unknown_value, other, ◌>>=◌}
use mctp_emu.Base.Wire.{Wire, to_bytes, try_from}
use mctp_emu.Base.TransportHeader
use mctp_emu.Base.TransportHeader.{TransportHeader}
use mctp_emu.Control.Header
use mctp_emu.Control.Header.{ControlMsgHeader}
use mctp_emu.Control.CommandCode.{CommandCode, unknown, command_code_as_u8}

pub record ControlPayload : Type 0 where
  pub hdr : TransportHeader
  pub control_hdr : ControlMsgHeader
  pub payload : List ℕ

-- `ControlPayload::new`; the body is given as its bytes.
abbrev pub new : TransportHeader → ControlMsgHeader → List ℕ → ControlPayload
new hdr control_hdr payload = record { hdr = hdr; control_hdr = control_hdr; payload = payload }

-- `Bytes::slice(from..to)` within the bytes.
abbrev pub slice : (from to : ℕ) → List ℕ → List ℕ
slice from to bytes = take (to - from) (drop from bytes)

module _ ⦃c : Crates⦄ where
  -- `impl From<ControlPayload> for Bytes`; the stored control header is not written again.
  pub into_bytes : ControlPayload → List ℕ
  into_bytes p = to_bytes TransportHeader.wire p.hdr ++ p.payload

  -- `impl From<ControlPayload> for Vec<u8>`.
  abbrev pub into_vec : ControlPayload → List ℕ
  into_vec t = into_bytes t

  -- `impl TryFrom<Bytes> for ControlPayload`.
  unfoldable pub try_from_bytes : List ℕ → Result ControlPayload
  try_from_bytes bytes =
      let hdr_size = TransportHeader.wire.size_of in
      let control_hdr_size = Header.wire.size_of in
      let total_hdr_size = hdr_size + control_hdr_size in
      if ltb (length bytes) total_hdr_size
      then err (invalid_payload_size total_hdr_size (length bytes))
      else do
        hdr ← try_from TransportHeader.wire (slice 0 hdr_size bytes)
        control_hdr ← try_from Header.wire (slice hdr_size total_hdr_size bytes)
        ok (new hdr control_hdr (drop hdr_size bytes))

  -- `impl TryFrom<ControlPayload> for T`, derived by `FromControlPayload`.
  unfoldable pub try_from_payload : {T : Type 0} → Wire T → ControlPayload → Result T
  try_from_payload w p = try_from w p.payload

  -- The result of `T::try_from` in `try_to_response`; its error is replaced by a message.
  abbrev pub paired : {T : Type 0} → ControlPayload → Result T → Result (ControlPayload × T)
  paired p (ok t) = ok (p, t)
  paired p (err e) = err other

  -- `ControlPayload::try_to_response`.
  unfoldable pub try_to_response : {T : Type 0} → Wire T → List ℕ → Result (ControlPayload × T)
  try_to_response w bytes = do p ← try_from_bytes bytes; paired p (try_from w p.payload)

  -- `ControlPayload::create_response_payload`.
  unfoldable pub create_response_payload :
      ControlPayload → ControlMsgHeader → List ℕ → ControlPayload
  create_response_payload p control_hdr response_body =
      new (TransportHeader.create_response p.hdr) control_hdr response_body

abbrev pub known_code : CommandCode → Result CommandCode
known_code unknown = err (unknown_value (command_code_as_u8 unknown))
known_code code = ok code

-- `ControlPayload::command_code`.
unfoldable pub command_code : ControlPayload → Result CommandCode
command_code p = known_code p.control_hdr.command_code
