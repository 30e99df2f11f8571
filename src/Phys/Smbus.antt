-- ===== src/Phys/Smbus.antt =====
-- src/phys/smbus_types.rs and src/phys/smbus_netdev.rs: MCTP over SMBus, in UDP datagrams. The socket
-- answers each `try_send` with a `Sent`, and `pec` is the checksum of the crate `smbus_pec`.
pub mod Frames
pub mod Polled
pub mod Tests
use mctp_emu.Prelude.{
  ℕ, ◌+◌, ◌*◌, ◌/◌, ◌%◌, refl, List, [], ◌∷◌, ◌++◌, take, Option, none, some, Bool, true, false,
  ◌||◌, ltb, leb, ◌==◌, length, if◌then◌else◌,
}
use mctp_emu.Crates.{Crates}
use mctp_emu.Base.Wire.{Wire, u8, pair, struct, to_bytes}
use mctp_emu.Emu.{
  phys, socket_error, transmit_error, invalid_address, MctpEmuResult, ok, err, panics,
}

abbrev pub smbus_command_code_mctp : ℕ
smbus_command_code_mctp = 0x0f

pub record SmbusPhysTransportHeader : Type 0 where
  pub dest_addr : ℕ
  pub command_code : ℕ
  pub byte_count : ℕ
  pub src_addr : ℕ

-- `SmbusPhysTransportHeader::new`; a `u8` shifted left by one loses its top bit.
abbrev pub new_header : (dest_addr_7bit src_addr_7bit byte_count : ℕ) → SmbusPhysTransportHeader
new_header dest src byte_count = record {
  dest_addr = dest * 2 % 256;
  command_code = smbus_command_code_mctp;
  byte_count = byte_count;
  src_addr = src * 2 % 256 + 1;
}

module _ ⦃c : Crates⦄ where
  abbrev pub header_wire : Wire SmbusPhysTransportHeader
  header_wire =
      struct (pair u8 (pair u8 (pair u8 u8)))
        (λ t. record {
          dest_addr = t.0;
          command_code = t.1.0;
          byte_count = t.1.1.0;
          src_addr = t.1.1.1;
        })
        (λ h. (h.dest_addr, (h.command_code, (h.byte_count, h.src_addr)))) (λ h. refl)

-- `validate_smbus_address`.
unfoldable pub validate_smbus_address : ℕ → MctpEmuResult (Unit {0})
validate_smbus_address addr =
    if ltb addr 8 || ((addr / 8 == 0b1111) || ltb 0x7f addr)
    then err (phys (invalid_address addr))
    else ok tt

-- `socket` is whether one is connected.
pub record SmbusNetDevBinding : Type 0 where
  pub address : ℕ
  pub network_id : ℕ
  pub socket : Bool

-- `set_address`, with the binding that it leaves.
unfoldable pub set_address : ℕ → SmbusNetDevBinding → SmbusNetDevBinding × MctpEmuResult (Unit {0})
set_address address b = elim (validate_smbus_address address) [
  | ok u ↦ (record b { address = address }, ok tt)
  | err e ↦ (b, err e)
  | panics ↦ (b, panics)
]

-- `SmbusNetDevBinding::new`, on whether the socket could be bound and connected. The cascade drops the
-- result of `set_address`.
unfoldable pub new : (connected : Bool) → ℕ → MctpEmuResult SmbusNetDevBinding
new connected address =
    let (b, ignored) =
      set_address address (record { address = 0; network_id = 0; socket = false }) in
    if connected then ok (record b { socket = true }) else err (phys socket_error)

-- What the socket answers to a `try_send`.
pub data Sent : Type 0 where
  sent : (bytes : ℕ) → Sent
  failed : Sent

-- The `match` on the second `try_send`.
abbrev pub sent_result : (len : ℕ) → Sent → MctpEmuResult (Unit {0})
sent_result len (sent n) = if n == len then ok tt else err (phys (transmit_error n len))
sent_result len failed = err (phys socket_error)

module _ ⦃c : Crates⦄ (pec : List ℕ → ℕ) where
  -- `tx_buf`: the header, the message, and the message's checksum.
  unfoldable pub frame : (dest own : ℕ) → List ℕ → List ℕ
  frame dest own msg =
      to_bytes header_wire (new_header dest own (length msg % 256)) ++ (msg ++ (pec msg ∷ []))

  -- `transmit`: the datagrams handed to the socket, and the result. The first `try_send` is not read.
  unfoldable pub transmit :
      SmbusNetDevBinding
      → (first second : Sent) → (msg : List ℕ) (phy_addr : ℕ)
      → List (List ℕ) × MctpEmuResult (Unit {0})
  transmit b first second msg phy_addr = elim (validate_smbus_address phy_addr) [
    | err e ↦ ([], err e)
    | panics ↦ ([], panics)
    | ok u ↦
        let tx_buf = frame (phy_addr % 128) b.address msg in
        if leb 256 (length msg)
        then ([], panics)
        else if b.socket
        then (tx_buf ∷ tx_buf ∷ [], sent_result (length tx_buf) second)
        else ([], panics)
  ]

-- The message of one round of `poll_socket`: the bytes that `recv_from` put in the buffer, handed to the network with
-- the binding's id unless there are none.
pub data NetworkBindingCallbackMsg : Type 0 where
  receive : (id : ℕ) (buf : List ℕ) → NetworkBindingCallbackMsg

abbrev pub poll : (network_id : ℕ) → List ℕ → Option NetworkBindingCallbackMsg
poll network_id buf = if length buf == 0 then none else some (receive network_id buf)

abbrev pub passed_on :
    Option NetworkBindingCallbackMsg
    → List NetworkBindingCallbackMsg
    → List NetworkBindingCallbackMsg
passed_on none later = later
passed_on (some msg) later = msg ∷ later

-- `poll_socket`, over the datagrams that come: what fits in its buffer is read of each.
unfoldable pub poll_socket : (network_id : ℕ) → List (List ℕ) → List NetworkBindingCallbackMsg
poll_socket network_id [] = []
poll_socket network_id (datagram ∷ datagrams) =
    passed_on (poll network_id (take 4096 datagram)) (poll_socket network_id datagrams)

-- `bind` of the binding: it stores the id, and fails without a socket.
unfoldable pub bind : ℕ → SmbusNetDevBinding → SmbusNetDevBinding × MctpEmuResult (Unit {0})
bind id b =
    let b' = record b { network_id = id } in
    (b', if b.socket then ok tt else err (phys mctp_emu.Emu.other_phys))
