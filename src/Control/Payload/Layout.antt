-- ===== src/Control/Payload/Layout.antt =====
-- The bytes of a packet with new headers, field by field.
use mctp_emu.Prelude.{ℕ, ◌+◌, ◌*◌, ◌%◌, ◌≡◌, ◌∷◌, Bool, bit, Option, false}
use mctp_emu.Crates.{Crates, get_or}
use mctp_emu.Base.Wire.{to_bytes}
use mctp_emu.Base.TransportHeader
use mctp_emu.Base.TransportHeader.Fields.{new_transport_fields, new-flags, new-version}
use mctp_emu.Control.CommandCode.{CommandCode, command_code_as_u8}
use mctp_emu.Control.Header
use mctp_emu.Control.Header.Fields.{new-first, new-second, new_control_fields}
use mctp_emu.Control.Message.{Message}
use mctp_emu.Control.Payload.{new, into_bytes}
use mctp_emu.Control.Payload.RoundTrip.{into_bytes_lem}
use mctp_emu.Control.Payload.Parse.{to_bytes-message}

module _ ⦃c : Crates⦄ where
  -- A packet with headers that `new` made is laid out bit by bit, whatever it is made of: the version 1, the
  -- two EIDs, a byte with the message tag in bits 0 to 2, the tag owner in bit 3, the end of message in bit 6
  -- and the start of message in bit 7 (an absent flag is 0), a byte with the integrity check in bit 7, one
  -- with the instance id in bits 0 to 4, the datagram bit in bit 6 and the request bit in bit 7, the command
  -- code, and the fields of the message behind its header.
  pub into_bytes-new :
      {T : Type 0} (m : Message T) (t : T) (src dst tag : ℕ) (owner som eom : Option Bool)
      (code : CommandCode) (id : ℕ) (integ_check request datagram : Bool)
      → m.hdr t ≡ Header.new code id integ_check request datagram
      → into_bytes
          (new (TransportHeader.new src dst tag owner som eom) (m.hdr t) (to_bytes m.wire t))
        ≡ 1
          ∷ dst
          ∷ src
          ∷ (tag % 8
              + 8 * bit (get_or owner false)
              + 64 * bit (get_or eom false)
              + 128 * bit (get_or som false))
          ∷ (128 * bit integ_check)
          ∷ (id % 32 + 64 * bit datagram + 128 * bit request)
          ∷ command_code_as_u8 code
          ∷ m.body t
  into_bytes-new m t src dst tag owner som eom code id integ_check request datagram h =
      let f = new_transport_fields src dst tag owner som eom in
      let version = new-version src dst tag owner som eom in
      let flags = new-flags src dst tag owner som eom in
      let first = new-first code id integ_check request datagram in
      let second = new-second code id integ_check request datagram in
      let same = (new_control_fields code id integ_check request datagram).0 in
      rw (into_bytes_lem, to_bytes-message m t, h, first, second, same)
        (cc (version, f.1, f.2, flags))
