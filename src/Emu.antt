-- ===== src/Emu.antt =====
-- src/lib.rs, src/phys/error.rs and src/network/error.rs: the errors of the emulator.
use mctp_emu.Prelude.{ℕ}
use mctp_emu.Prelude.Int.{ℤ}
use mctp_emu.Base.Errors.{MctpBaseLibError}

-- `phys::Error`; an incomplete transfer keeps the two byte counts of its text.
pub data PhysError : Type 0 where
  socket_error : PhysError
  transmit_error : (sent len : ℕ) → PhysError
  invalid_address : (addr : ℕ) → PhysError
  other_phys unknown_phys : PhysError

-- `network::Error`.
pub data NetworkError : Type 0 where
  invalid_socket_error : (sd : ℤ) → NetworkError
  invalid_binding_error : (binding_id : ℕ) → NetworkError
  other_network unknown_network : NetworkError

-- `endpoint::Error`.
pub data EndpointError : Type 0 where
  other_endpoint unknown_endpoint : EndpointError

pub data MctpEmuError : Type 0 where
  base : MctpBaseLibError → MctpEmuError
  endpoint : EndpointError → MctpEmuError
  phys : PhysError → MctpEmuError
  network : NetworkError → MctpEmuError
  other unknown : MctpEmuError

-- `MctpEmuResult`, and a panic (`todo!()`, an `unwrap` that fails, an overflow).
pub data MctpEmuResult {ℓ} (A : Type ℓ) : Type ℓ where
  ok : A → MctpEmuResult A
  err : MctpEmuError → MctpEmuResult A
  panics : MctpEmuResult A

infixl 5 ◌>>=◌ ◌>>◌
abbrev pub ◌>>=◌ {ℓ κ} :
    {A : Type ℓ} {B : Type κ} → MctpEmuResult A → (A → MctpEmuResult B) → MctpEmuResult B
ok a >>= f = f a
err e >>= f = err e
panics >>= f = panics

abbrev pub ◌>>◌ {ℓ} : {B : Type ℓ} → MctpEmuResult (Unit {0}) → MctpEmuResult B → MctpEmuResult B
m >> k = m >>= λ _. k
