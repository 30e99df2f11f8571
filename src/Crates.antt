-- ===== src/Crates.antt =====
-- The third-party crates that the code calls, as interfaces: `bincode`, `c2rust_bitfields` and
-- `num_enum`. Each record holds the operations and, as named laws, the crate's documented behaviour.
-- The code's definitions take them as one instance argument; `Reference` shows a model of the laws.
-- `Mpsc` is the bounded channel of `tokio`, which the program as a whole takes.
pub mod Reference
pub mod Bits
pub mod Mpsc
use mctp_emu.Prelude.{
  ℕ, ◌+◌, ◌-◌, ◌*◌, ◌/◌, ◌%◌, ◌^◌, ◌≤◌, ◌<◌, ◌≡◌, List, [], ◌∷◌, Option, none, some, ◌==◌,
  if◌then◌else◌,
}

-- A fixed-width `bincode` of `u8`: one byte each, and an error at the end of the input.
pub record Bincode : Type 0 where
  pub write_u8 : ℕ → List ℕ
  pub read_u8 : List ℕ → Option (ℕ × List ℕ)
  pub write_u8_lem : (b : ℕ) → write_u8 b ≡ b ∷ []
  pub read_u8_nil : read_u8 [] ≡ none
  pub read_u8_cons : (b : ℕ) (bs : List ℕ) → read_u8 (b ∷ bs) ≡ some (b, bs)

-- The accessors that `BitfieldStruct` derives, on the byte of the storage that holds the bits
-- `lo..=hi` (no field of the code straddles two bytes). A value too wide for its field is cut.
pub record Bitfields : Type 0 where
  pub get_bits : ℕ → ℕ → ℕ → ℕ
  pub set_bits : ℕ → ℕ → ℕ → ℕ → ℕ
  pub get_bits_lem :
      (b lo hi : ℕ) → b < 256 → lo ≤ hi → hi < 8 → get_bits b lo hi ≡ b / 2 ^ lo % 2 ^ (hi + 1 - lo)
  pub set_bits_lem :
      (b lo hi v : ℕ)
      → b < 256
      → lo ≤ hi
      → hi < 8
      → set_bits b lo hi v
        ≡ b - b / 2 ^ lo % 2 ^ (hi + 1 - lo) * 2 ^ lo + v % 2 ^ (hi + 1 - lo) * 2 ^ lo

module _ {E : Type 0} (as_u8 : E → ℕ) where
  -- The first variant with the discriminant `n`.
  abbrev pub find_variant : List E → ℕ → Option E
  find_variant [] n = none
  find_variant (e ∷ es) n = if as_u8 e == n then some e else find_variant es n

-- An enum declared `repr(u8)`: its discriminants, its variants and its `#[default]`. By `known` the
-- list is complete and the discriminants are distinct.
pub record ReprU8 (E : Type 0) : Type 0 where
  pub as_u8 : E → ℕ
  pub variants : List E
  pub default_variant : E
  pub known : (e : E) → find_variant as_u8 variants (as_u8 e) ≡ some e

abbrev pub get_or {ℓ} : {A : Type ℓ} → Option A → A → A
get_or none d = d
get_or (some a) d = a

-- `FromPrimitive`: the variant with that discriminant, or the default.
pub record NumEnum : Type 1 where
  pub from_u8 : (E : Type 0) → ReprU8 E → ℕ → E
  pub from_u8_lem :
      (E : Type 0) (r : ReprU8 E) (n : ℕ)
      → from_u8 E r n ≡ get_or (find_variant r.as_u8 r.variants n) r.default_variant

pub record Crates : Type 1 where
  pub bincode : Bincode
  pub open bincode use *
  pub bitfields : Bitfields
  pub open bitfields use *
  pub num_enum : NumEnum
  pub open num_enum use *
