-- ===== src/Crates/Bits.antt =====
-- Consequences of the bit-field accessors' laws.
use mctp_emu.Prelude.{ℕ, ◌+◌, ◌-◌, ◌*◌, ◌/◌, ◌%◌, ◌^◌, ◌≤◌, ◌<◌, ◌≡◌, arith}
use mctp_emu.Crates.{Crates}

module _ ⦃c : Crates⦄ where
  open c use {get_bits, set_bits, get_bits_lem, set_bits_lem}

  -- A write to a field that holds 0 adds the value, cut to the field's width.
  pub set_bits_clear :
      (b lo hi v : ℕ)
      → b < 256
      → lo ≤ hi
      → hi < 8
      → b / 2 ^ lo % 2 ^ (hi + 1 - lo) ≡ 0
      → set_bits b lo hi v ≡ b + v % 2 ^ (hi + 1 - lo) * 2 ^ lo
  set_bits_clear b lo hi v p q r z = rw (set_bits_lem b lo hi v p q r, z) (omega arith)
