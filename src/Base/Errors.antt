-- ===== src/Base/Errors.antt =====
-- mctp-base-lib/src/base/errors.rs. The sizes stand as numbers where the code keeps their decimal text.
use mctp_emu.Prelude.{ℕ, ◌≡◌}

pub data MctpBaseLibError : Type 0 where
  invalid_payload_size : (expected found : ℕ) → MctpBaseLibError
  unknown_value : (value : ℕ) → MctpBaseLibError
  other : MctpBaseLibError

-- `MctpBaseLibResult`.
pub data Result {ℓ} (A : Type ℓ) : Type ℓ where
  ok : A → Result A
  err : MctpBaseLibError → Result A

infixl 5 ◌>>=◌
abbrev pub ◌>>=◌ {ℓ κ} : {A : Type ℓ} {B : Type κ} → Result A → (A → Result B) → Result B
ok a >>= f = f a
err e >>= f = err e

-- `.map_err(|err| MctpBaseLibError::Other(err))` after `bincode::deserialize`.
abbrev pub or_other {ℓ} : {A : Type ℓ} → mctp_emu.Prelude.Option A → Result A
or_other mctp_emu.Prelude.none = err other
or_other (mctp_emu.Prelude.some a) = ok a
