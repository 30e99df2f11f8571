-- ===== src/Crates/Reference.antt =====
-- Concrete functions that satisfy the laws of the crates' interfaces, for tests and witnesses.
use mctp_emu.Prelude.{ℕ, ◌+◌, ◌-◌, ◌*◌, ◌/◌, ◌%◌, ◌^◌, refl, List, [], ◌∷◌, Option, none, some}
use mctp_emu.Crates.{Bincode, Bitfields, NumEnum, Crates, get_or, find_variant}

abbrev first_byte : List ℕ → Option (ℕ × List ℕ)
first_byte [] = none
first_byte (b ∷ bs) = some (b, bs)

abbrev pub reference_bincode : Bincode
reference_bincode = record {
  write_u8 = λ b. b ∷ [];
  read_u8 = first_byte;
  write_u8_lem = λ b. refl;
  read_u8_nil = refl;
  read_u8_cons = λ b bs. refl;
}

abbrev pub reference_bitfields : Bitfields
reference_bitfields = record {
  get_bits = λ b lo hi. b / 2 ^ lo % 2 ^ (hi + 1 - lo);
  set_bits =
      λ b lo hi v. b - b / 2 ^ lo % 2 ^ (hi + 1 - lo) * 2 ^ lo + v % 2 ^ (hi + 1 - lo) * 2 ^ lo;
  get_bits_lem = λ b lo hi p q r. refl;
  set_bits_lem = λ b lo hi v p q r. refl;
}

abbrev pub reference_num_enum : NumEnum
reference_num_enum = record {
  from_u8 = λ E r n. get_or (find_variant r.as_u8 r.variants n) r.default_variant;
  from_u8_lem = λ E r n. refl;
}

instance abbrev pub reference : Crates
reference = record {
  bincode = reference_bincode;
  bitfields = reference_bitfields;
  num_enum = reference_num_enum;
}
