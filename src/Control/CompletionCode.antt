-- ===== src/Control/CompletionCode.antt =====
-- mctp-base-lib/src/control/enums.rs: the completion codes of responses.
use mctp_emu.Prelude.{ℕ, ◌≡◌, refl, List, [], ◌∷◌, some}
use mctp_emu.Crates.{Crates, ReprU8, find_variant}

pub data CompletionCode : Type 0 where
  success error error_invalid_data error_invalid_length error_not_ready error_unsupported_cmd :
      CompletionCode

-- The discriminants: `self as u8`.
abbrev pub completion_code_as_u8 : CompletionCode → ℕ
completion_code_as_u8 success = 0x00
completion_code_as_u8 error = 0x01
completion_code_as_u8 error_invalid_data = 0x02
completion_code_as_u8 error_invalid_length = 0x03
completion_code_as_u8 error_not_ready = 0x04
completion_code_as_u8 error_unsupported_cmd = 0x05

abbrev completion_code_variants : List CompletionCode
completion_code_variants =
    success ∷ error ∷ error_invalid_data ∷ error_invalid_length ∷ error_not_ready
    ∷ error_unsupported_cmd ∷ []

pub completion_code_known :
    (e : CompletionCode)
    → find_variant completion_code_as_u8 completion_code_variants (completion_code_as_u8 e) ≡ some e
completion_code_known success = refl
completion_code_known _ = refl

abbrev pub completion_code_repr : ReprU8 CompletionCode
completion_code_repr = record {
  as_u8 = completion_code_as_u8;
  variants = completion_code_variants;
  default_variant = error_unsupported_cmd;
  known = completion_code_known;
}

-- `CompletionCode::from(u8)`.
abbrev pub completion_code_from : ⦃c : Crates⦄ → ℕ → CompletionCode
completion_code_from ⦃c⦄ n = c.from_u8 CompletionCode completion_code_repr n
