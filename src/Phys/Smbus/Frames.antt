-- ===== src/Phys/Smbus/Frames.antt =====
-- Which addresses are valid, and what a transmission puts on the wire.
use mctp_emu.Prelude.{
  ℕ, ◌+◌, ◌*◌, ◌%◌, ◌≤◌, ◌<◌, ◌≡◌, ap, ◌∙◌, ◌↔◌, List, [], ◌∷◌, ◌++◌, true, false, length,
  length-append, arith, leb, ◌⊎◌, inl, inr,
}
use mctp_emu.Crates.{Crates}
use mctp_emu.Base.Wire.{to_bytes}
use mctp_emu.Emu.{phys, invalid_address, MctpEmuResult, ok, err}
use mctp_emu.Phys.Smbus.{
  validate_smbus_address, SmbusNetDevBinding, new, Sent, sent, failed, sent_result, frame, transmit,
  set_address,
}

-- The addresses that may be used on the bus are 0x08 to 0x77; every other one is refused with an error
-- that names it.
pub validate_smbus_address_iff :
    (addr : ℕ)
    → ((validate_smbus_address addr ≡ ok tt) ↔ ((8 ≤ addr) × (addr ≤ 0x77)))
      × ((validate_smbus_address addr ≡ ok tt)
          ⊎ (validate_smbus_address addr ≡ err (phys (invalid_address addr))))
unfolding validate_smbus_address
validate_smbus_address_iff addr =
    ((λ h. (ground arith, ground arith), λ h. ground arith), ground arith)

leb-false : (n : ℕ) → n < 256 → leb 256 n ≡ false
leb-false n h = ground arith

sent_result_iff : (len : ℕ) (s : Sent) → (sent_result len s ≡ ok tt) ↔ (s ≡ sent len)
sent_result_iff len (sent n) = (λ h. ground arith, λ h. ground arith)
sent_result_iff len failed = (λ h. cc, λ h. cc)

bytes-eq :
    {a a' b b' d d' : ℕ} {l : List ℕ}
    → a ≡ a'
    → b ≡ b'
    → d ≡ d'
    → a ∷ 0x0f ∷ b ∷ d ∷ l ≡ a' ∷ 0x0f ∷ b' ∷ d' ∷ l
bytes-eq p q r = cc

module _ ⦃c : Crates⦄ (pec : List ℕ → ℕ) where
  open c use {write_u8_lem}

  -- The bytes of a frame: the SMBus header, the message and its checksum.
  pub frame_lem :
      (dest own : ℕ) (msg : List ℕ)
      → frame pec dest own msg
        ≡ (dest * 2 % 256)
          ∷ 0x0f
          ∷ (length msg % 256)
          ∷ (own * 2 % 256 + 1)
          ∷ (msg ++ (pec msg ∷ []))
  unfolding frame to_bytes
  frame_lem dest own msg = simp write_u8_lem

  -- From a binding with a connected socket and a 7-bit address, a message of less than 256 bytes
  -- for a valid address is handed to the socket twice, in the same frame: the two addresses shifted
  -- left, the destination even and the source odd, the message's length, the message and its
  -- checksum. The call succeeds exactly when the second send takes the whole frame.
  pub transmit_lem :
      (b : SmbusNetDevBinding) (first second : Sent) (msg : List ℕ) (phy_addr : ℕ)
      → 8 ≤ phy_addr
      → phy_addr ≤ 0x77
      → b.address < 128
      → length msg < 256
      → b.socket ≡ true
      → let datagram =
          (2 * phy_addr) ∷ 0x0f ∷ length msg ∷ (2 * b.address + 1) ∷ (msg ++ (pec msg ∷ [])) in
        ((transmit pec b first second msg phy_addr).0 ≡ datagram ∷ datagram ∷ [])
        × (((transmit pec b first second msg phy_addr).1 ≡ ok tt)
            ↔ (second ≡ sent (length msg + 5)))
  transmit_lem b first second msg phy_addr lo hi own len sock =
      let f = frame pec (phy_addr % 128) b.address msg in
      let e = frame_lem (phy_addr % 128) b.address msg in
      let eval : transmit pec b first second msg phy_addr
          ≡ (f ∷ f ∷ [], sent_result (length f) second) =
        unfold transmit in
        rw (
          (validate_smbus_address_iff phy_addr).0.1 (lo, hi),
          transmit,
          leb-false (length msg) len,
          sock,
        ) in
      let size : length f ≡ length msg + 5 =
        ap length e ∙ omega (arith, length-append msg (pec msg ∷ [])) in
      let shape : f
          ≡ (2 * phy_addr) ∷ 0x0f ∷ length msg ∷ (2 * b.address + 1) ∷ (msg ++ (pec msg ∷ [])) =
        e ∙ bytes-eq (omega arith) (omega arith) (omega arith) in
      (
        ap (λ (r : List (List ℕ) × MctpEmuResult (Unit {0})). r.0) eval
            ∙ ap (λ g. g ∷ g ∷ []) shape,
        rw (eval, size) (sent_result_iff (length msg + 5) second),
      )

  -- Nothing is sent to an address that is not valid.
  pub transmit_invalid :
      (b : SmbusNetDevBinding) (first second : Sent) (msg : List ℕ) (phy_addr : ℕ)
      → ¬ ((8 ≤ phy_addr) × (phy_addr ≤ 0x77))
      → transmit pec b first second msg phy_addr ≡ ([], err (phys (invalid_address phy_addr)))
  unfolding transmit
  transmit_invalid b first second msg phy_addr h =
      let (iff, cases) = validate_smbus_address_iff phy_addr in
      elim cases [ inl e ↦ absurd (h (iff.0 e)) | inr e ↦ rw (e, transmit) ]

set_address_invalid :
    (address : ℕ) (b : SmbusNetDevBinding)
    → validate_smbus_address address ≡ err (phys (invalid_address address))
    → set_address address b ≡ (b, err (phys (invalid_address address)))
unfolding set_address
set_address_invalid address b e = rw (e, set_address)

-- A binding made with an address that is not valid, and a socket that connects, is made
-- nevertheless, with address 0.
pub new_invalid :
    (address : ℕ)
    → ¬ ((8 ≤ address) × (address ≤ 0x77))
    → new true address ≡ ok (record { address = 0; network_id = 0; socket = true })
unfolding new
new_invalid address h =
    let (iff, cases) = validate_smbus_address_iff address in
    elim cases [ inl e ↦ absurd (h (iff.0 e)) | inr e ↦ rw (set_address_invalid address _ e) ]
