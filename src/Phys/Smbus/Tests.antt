-- ===== src/Phys/Smbus/Tests.antt =====
-- Frames, and the theorems on them at concrete messages.
use mctp_emu.Prelude.{ℕ, ◌≤◌, ◌≡◌, ◌⊎◌, ◌↔◌, refl, List, [], ◌∷◌, true, arith}
use mctp_emu.Crates.Reference.{reference}
use mctp_emu.Emu.{phys, invalid_address, ok, err}
use mctp_emu.Phys.Smbus.{SmbusNetDevBinding, validate_smbus_address, sent, failed, transmit}
use mctp_emu.Phys.Smbus.Frames.{validate_smbus_address_iff, transmit_lem}

-- Some checksum.
abbrev no_pec : List ℕ → ℕ
no_pec msg = 0

abbrev device : SmbusNetDevBinding
device = record { address = 0x10; network_id = 1; socket = true }

-- The source's own test of an address.
test_invalid_address : validate_smbus_address 0x86 ≡ err (phys (invalid_address 0x86))
unfolding validate_smbus_address
test_invalid_address = refl

validate_smbus_address_iff_example :
    ((validate_smbus_address 0x78 ≡ ok tt) ↔ ((8 ≤ 0x78) × (0x78 ≤ 0x77)))
    × ((validate_smbus_address 0x78 ≡ ok tt)
        ⊎ (validate_smbus_address 0x78 ≡ err (phys (invalid_address 0x78))))
validate_smbus_address_iff_example = validate_smbus_address_iff 0x78

transmit_lem_example :
    let datagram : List ℕ = 0x4a ∷ 0x0f ∷ 2 ∷ 0x21 ∷ 7 ∷ 9 ∷ 0 ∷ [] in
    ((transmit no_pec device failed (sent 7) (7 ∷ 9 ∷ []) 0x25).0 ≡ datagram ∷ datagram ∷ [])
    × (((transmit no_pec device failed (sent 7) (7 ∷ 9 ∷ []) 0x25).1 ≡ ok tt) ↔ (sent 7 ≡ sent 7))
transmit_lem_example =
    transmit_lem no_pec device failed (sent 7) (7 ∷ 9 ∷ []) 0x25 (omega arith) (omega arith)
      (omega arith) (omega arith) refl
