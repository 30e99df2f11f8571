-- ===== src/Base/TransportHeader/Fields.antt =====
-- What the transport header's constructors write, bit by bit.
use mctp_emu.Prelude.{
  ℕ, ◌+◌, ◌-◌, ◌*◌, ◌/◌, ◌%◌, ◌≤◌, ◌<◌, ◌≡◌, refl, Option, some, Bool, true, false, arith, ◌==◌,
  bit, IsByte, bit-lt,
}
use mctp_emu.Crates.{Crates, get_or}
use mctp_emu.Crates.Bits.{set_bits_clear}
use mctp_emu.Base.TransportHeader.{
  TransportHeader, header_version, msg_tag, tag_owner, packet_seq, eom, som, new, create_response,
}

module _ ⦃c : Crates⦄ where
  open c use {set_bits, get_bits_lem, set_bits_lem}

  pub new-flags :
      (src dst tag : ℕ) (o s e : Option Bool)
      → (new src dst tag o s e).msg_tag_tag_owner_packet_seq_eom_som
        ≡ tag % 8
          + 8 * bit (get_or o false)
          + 64 * bit (get_or e false)
          + 128 * bit (get_or s false)
  unfolding new
  new-flags src dst tag o s e =
      let x = bit (get_or o false) in
      let y = bit (get_or s false) in
      let z = bit (get_or e false) in
      let hx : x < 2 = bit-lt (get_or o false) in
      let hy : y < 2 = bit-lt (get_or s false) in
      let hz : z < 2 = bit-lt (get_or e false) in
      let a = set_bits 0 0 2 tag in
      let ea : a ≡ tag % 8 =
        omega (
          arith,
          set_bits_clear 0 0 2 tag (omega arith) (omega arith) (omega arith) (omega arith),
        ) in
      let b = set_bits a 3 3 x in
      let eb : b ≡ a + 8 * x =
        omega
          (arith, set_bits_clear a 3 3 x (omega arith) (omega arith) (omega arith) (omega arith)) in
      let d = set_bits b 7 7 y in
      let ed : d ≡ b + 128 * y =
        omega
          (arith, set_bits_clear b 7 7 y (omega arith) (omega arith) (omega arith) (omega arith)) in
      omega (arith, set_bits_clear d 6 6 z (omega arith) (omega arith) (omega arith) (omega arith))

  pub new-version :
      (src dst tag : ℕ) (o s e : Option Bool) → (new src dst tag o s e).header_version_rsvd ≡ 1
  unfolding new
  new-version src dst tag o s e =
      rw (set_bits_lem 0 0 3 1 (omega arith) (omega arith) (omega arith))

  -- The accessors as arithmetic on the header's last byte.
  pub flags_fields :
      (h : TransportHeader)
      → IsByte h.msg_tag_tag_owner_packet_seq_eom_som
      → let b = h.msg_tag_tag_owner_packet_seq_eom_som in
        (msg_tag h ≡ b % 8)
        × (tag_owner h ≡ b / 8 % 2)
        × (packet_seq h ≡ b / 16 % 4)
        × (eom h ≡ b / 64 % 2)
        × (som h ≡ b / 128)
  unfolding msg_tag tag_owner packet_seq eom som
  flags_fields h hb =
      let law = λ (lo hi : ℕ) (p : lo ≤ hi) (q : hi < 8).
        get_bits_lem h.msg_tag_tag_owner_packet_seq_eom_som lo hi hb p q in
      (
        omega (arith, law 0 2 (omega arith) (omega arith)),
        omega (arith, law 3 3 (omega arith) (omega arith)),
        omega (arith, law 4 5 (omega arith) (omega arith)),
        omega (arith, law 6 6 (omega arith) (omega arith)),
        omega (arith, law 7 7 (omega arith) (omega arith)),
      )

  pub new-flags-IsByte :
      (src dst tag : ℕ) (o s e : Option Bool)
      → IsByte (new src dst tag o s e).msg_tag_tag_owner_packet_seq_eom_som
  new-flags-IsByte src dst tag o s e = omega (
    arith,
    new-flags src dst tag o s e,
    bit-lt (get_or o false),
    bit-lt (get_or s false),
    bit-lt (get_or e false),
  )

  -- `TransportHeader::new` stores every argument: a getter returns what the constructor was given,
  -- with the tag cut to three bits, an absent flag as 0, version 1 and packet sequence 0.
  pub new_transport_fields :
      (src dst tag : ℕ) (o s e : Option Bool)
      → let h = new src dst tag o s e in
        (header_version h ≡ 1)
        × (h.destination_eid ≡ dst)
        × (h.source_eid ≡ src)
        × (msg_tag h ≡ tag % 8)
        × (tag_owner h ≡ bit (get_or o false))
        × (packet_seq h ≡ 0)
        × (eom h ≡ bit (get_or e false))
        × (som h ≡ bit (get_or s false))
  new_transport_fields src dst tag o s e =
      let h = new src dst tag o s e in
      let flags = new-flags src dst tag o s e in
      let fields = flags_fields h (new-flags-IsByte src dst tag o s e) in
      let x = bit-lt (get_or o false) in
      let y = bit-lt (get_or s false) in
      let z = bit-lt (get_or e false) in
      (
        unfold header_version in
            omega (
              arith,
              new-version src dst tag o s e,
              get_bits_lem h.header_version_rsvd 0 3 (omega (arith, new-version src dst tag o s e))
                  (omega arith) (omega arith),
            ),
        unfold new in refl,
        unfold new in refl,
        omega (arith, flags, fields, x, y, z),
        omega (arith, flags, fields, x, y, z),
        omega (arith, flags, fields, x, y, z),
        omega (arith, flags, fields, x, y, z),
        omega (arith, flags, fields, x, y, z),
      )

  not_bit : (n : ℕ) → n < 2 → bit (n == 0) ≡ 1 - n
  not_bit n h = ground arith

  -- The response to a packet whose last header byte is a byte goes back to its source under the
  -- same tag, in one packet (start and end of message set, sequence number 0, version 1), with the
  -- tag owner bit flipped.
  pub create_response_fields :
      (h : TransportHeader)
      → IsByte h.msg_tag_tag_owner_packet_seq_eom_som
      → let r = create_response h in
        (r.destination_eid ≡ h.source_eid)
        × (r.source_eid ≡ h.destination_eid)
        × (msg_tag r ≡ msg_tag h)
        × (tag_owner r ≡ 1 - tag_owner h)
        × (som r ≡ 1)
        × (eom r ≡ 1)
        × (packet_seq r ≡ 0)
        × (header_version r ≡ 1)
  unfolding create_response
  create_response_fields h hb =
      let f =
        new_transport_fields h.destination_eid h.source_eid (msg_tag h) (some (tag_owner h == 0))
          (some true) (some true) in
      let g = flags_fields h hb in
      let owner = not_bit (tag_owner h) (omega (arith, g)) in
      (f.1, f.2, omega (arith, f, g), omega (arith, f, g, owner), f.7, f.6, f.5, f.0)

  -- The bytes of the response's header, from those of the request's.
  pub create_response_bytes :
      (h : TransportHeader)
      → IsByte h.msg_tag_tag_owner_packet_seq_eom_som
      → let b = h.msg_tag_tag_owner_packet_seq_eom_som in
        create_response h ≡ record {
          header_version_rsvd = 1;
          destination_eid = h.source_eid;
          source_eid = h.destination_eid;
          msg_tag_tag_owner_packet_seq_eom_som = b % 8 + 8 * (1 - b / 8 % 2) + 64 + 128;
        }
  create_response_bytes h hb =
      let b = h.msg_tag_tag_owner_packet_seq_eom_som in
      let t = some (tag_owner h == 0) in
      let r = create_response h in
      let version : r.header_version_rsvd ≡ 1 =
        unfold create_response in
        new-version h.destination_eid h.source_eid (msg_tag h) t (some true) (some true) in
      let flags : r.msg_tag_tag_owner_packet_seq_eom_som ≡ b % 8 + 8 * (1 - b / 8 % 2) + 64 + 128 =
        unfold create_response in
        omega (
          arith,
          flags_fields h hb,
          not_bit (tag_owner h),
          new-flags h.destination_eid h.source_eid (msg_tag h) t (some true) (some true),
        ) in
      unfold create_response new in
      λ i. record {
        header_version_rsvd = version i;
        destination_eid = h.source_eid;
        source_eid = h.destination_eid;
        msg_tag_tag_owner_packet_seq_eom_som = flags i;
      }
