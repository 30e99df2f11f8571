-- ===== src/Control/Tests.antt =====
-- Control messages, and the theorems on them at concrete values.
use mctp_emu.Prelude.{◌≡◌, refl}
use mctp_emu.Crates.Reference.{reference}
use mctp_emu.Control.CompletionCode.{
  error_unsupported_cmd, error_invalid_data, completion_code_from,
}

-- The source's own tests of the completion codes.
invalid_data : completion_code_from 2 ≡ error_invalid_data
invalid_data = refl

unlisted_code : completion_code_from 0x55 ≡ error_unsupported_cmd
unlisted_code = refl
