-- ===== src/Control/Header/Fields.antt =====
-- What the control header's constructors write, bit by bit.
use mctp_emu.Prelude.{ℕ, ◌+◌, ◌*◌, ◌/◌, ◌%◌, ◌≡◌, refl, Bool, arith, bit, IsByte, bit-lt}
use mctp_emu.Crates.{Crates}
use mctp_emu.Crates.Bits.{set_bits_clear}
use mctp_emu.Control.CommandCode.{CommandCode}
use mctp_emu.Control.Header.{
  ControlMsgHeader, msg_type, integrity_check, instance_id, d_bit, rq, set_rq, new,
}

-- Both bytes are `u8`s.
pub record IsPacked (h : ControlMsgHeader) : Type 0 where
  pub first : IsByte h.msg_type_integrity_check_instance_id_rsvd_d_bit_rq.0
  pub second : IsByte h.msg_type_integrity_check_instance_id_rsvd_d_bit_rq.1

module _ ⦃c : Crates⦄ where
  open c use {set_bits, get_bits_lem, set_bits_lem}

  pub new-first :
      (code : CommandCode) (id : ℕ) (i q d : Bool)
      → (new code id i q d).msg_type_integrity_check_instance_id_rsvd_d_bit_rq.0 ≡ 128 * bit i
  unfolding new
  new-first code id i q d = omega (
    arith,
    bit-lt i,
    set_bits_clear 0 7 7 (bit i) (omega arith) (omega arith) (omega arith) (omega arith),
  )

  pub new-second :
      (code : CommandCode) (id : ℕ) (i q d : Bool)
      → (new code id i q d).msg_type_integrity_check_instance_id_rsvd_d_bit_rq.1
        ≡ id % 32 + 64 * bit d + 128 * bit q
  unfolding new
  new-second code id i q d =
      let hq = bit-lt q in
      let hd = bit-lt d in
      let x = set_bits 0 7 7 (bit q) in
      let ex : x ≡ 128 * bit q = omega (
        arith,
        set_bits_clear 0 7 7 (bit q) (omega arith) (omega arith) (omega arith) (omega arith),
      ) in
      let y = set_bits x 0 4 id in
      let ey : y ≡ x + id % 32 =
        omega (
          arith,
          set_bits_clear x 0 4 id (omega arith) (omega arith) (omega arith) (omega arith),
        ) in
      omega (
        arith,
        set_bits_clear y 6 6 (bit d) (omega arith) (omega arith) (omega arith) (omega arith),
      )

  -- The accessors as arithmetic on the header's two bytes.
  pub packed_fields :
      (h : ControlMsgHeader)
      → IsPacked h
      → let b = h.msg_type_integrity_check_instance_id_rsvd_d_bit_rq in
        (msg_type h ≡ b.0 % 128)
        × (integrity_check h ≡ b.0 / 128)
        × (instance_id h ≡ b.1 % 32)
        × (d_bit h ≡ b.1 / 64 % 2)
        × (rq h ≡ b.1 / 128)
  unfolding msg_type integrity_check instance_id d_bit rq
  packed_fields h p =
      let b = h.msg_type_integrity_check_instance_id_rsvd_d_bit_rq in
      (
        omega (arith, get_bits_lem b.0 0 6 p.first (omega arith) (omega arith)),
        omega (arith, p.first, get_bits_lem b.0 7 7 p.first (omega arith) (omega arith)),
        omega (arith, get_bits_lem b.1 0 4 p.second (omega arith) (omega arith)),
        omega (arith, get_bits_lem b.1 6 6 p.second (omega arith) (omega arith)),
        omega (arith, p.second, get_bits_lem b.1 7 7 p.second (omega arith) (omega arith)),
      )

  pub new-IsPacked : (code : CommandCode) (id : ℕ) (i q d : Bool) → IsPacked (new code id i q d)
  new-IsPacked code id i q d = record {
    first = omega (arith, new-first code id i q d, bit-lt i);
    second = omega (arith, new-second code id i q d, bit-lt q, bit-lt d);
  }

  -- `ControlMsgHeader::new` stores every argument: a getter returns what the constructor was given,
  -- with the instance id cut to five bits and message type 0 (control).
  pub new_control_fields :
      (code : CommandCode) (id : ℕ) (i q d : Bool)
      → let h = new code id i q d in
        (h.command_code ≡ code)
        × (msg_type h ≡ 0)
        × (integrity_check h ≡ bit i)
        × (instance_id h ≡ id % 32)
        × (d_bit h ≡ bit d)
        × (rq h ≡ bit q)
  new_control_fields code id i q d =
      let h = new code id i q d in
      let a = new-first code id i q d in
      let b = new-second code id i q d in
      let f = packed_fields h (new-IsPacked code id i q d) in
      let x = bit-lt i in
      let y = bit-lt q in
      let z = bit-lt d in
      (
        unfold new in refl,
        omega (arith, a, f, x),
        omega (arith, a, f, x),
        omega (arith, b, f, y, z),
        omega (arith, b, f, y, z),
        omega (arith, b, f, y, z),
      )

  set_rq-second :
      (h : ControlMsgHeader)
      → IsPacked h
      → (set_rq 0 h).msg_type_integrity_check_instance_id_rsvd_d_bit_rq.1
        ≡ h.msg_type_integrity_check_instance_id_rsvd_d_bit_rq.1 % 128
  unfolding set_rq
  set_rq-second h p =
      let b = h.msg_type_integrity_check_instance_id_rsvd_d_bit_rq.1 in
      omega (arith, p.second, set_bits_lem b 7 7 0 p.second (omega arith) (omega arith))

  pub set_rq_bytes :
      (x y : ℕ) (code : CommandCode)
      → IsByte y
      → set_rq 0 (record {
        msg_type_integrity_check_instance_id_rsvd_d_bit_rq = (x, y);
        command_code = code;
      })
        ≡ record {
          msg_type_integrity_check_instance_id_rsvd_d_bit_rq = (x, y % 128);
          command_code = code;
        }
  unfolding set_rq
  set_rq_bytes x y code hy =
      let e : set_bits y 7 7 0 ≡ y % 128 =
        omega (arith, set_bits_lem y 7 7 0 hy (omega arith) (omega arith)) in
      rw e

  pub set_rq-IsPacked : (h : ControlMsgHeader) → IsPacked h → IsPacked (set_rq 0 h)
  set_rq-IsPacked h p = record {
    first = unfold set_rq in p.first;
    second = omega (arith, set_rq-second h p);
  }

  -- Clearing the request bit of a header of bytes leaves its command code and its other fields.
  pub set_rq_fields :
      (h : ControlMsgHeader)
      → IsPacked h
      → let r = set_rq 0 h in
        (rq r ≡ 0)
        × (r.command_code ≡ h.command_code)
        × (msg_type r ≡ msg_type h)
        × (integrity_check r ≡ integrity_check h)
        × (instance_id r ≡ instance_id h)
        × (d_bit r ≡ d_bit h)
  set_rq_fields h p =
      let e = set_rq-second h p in
      let f = packed_fields h p in
      let g = packed_fields (set_rq 0 h) (set_rq-IsPacked h p) in
      (
        omega (arith, e, g),
        unfold set_rq in refl,
        unfold set_rq msg_type in refl,
        unfold set_rq integrity_check in refl,
        omega (arith, e, f, g),
        omega (arith, e, f, g),
      )
