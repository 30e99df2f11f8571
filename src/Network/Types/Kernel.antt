-- ===== src/Network/Types/Kernel.antt =====
-- src/network/types.rs: the types and constants that are shaped after those of the MCTP of the Linux kernel.
-- No operation of the networks uses them.
use mctp_emu.Prelude.{ℕ, List, Option}
use mctp_emu.Prelude.Int.{ℤ}
use mctp_emu.Emu.{MctpEmuResult}
use mctp_emu.Control.MessageType.{MessageType}

abbrev mctp_net_any : ℕ
mctp_net_any = 0x08

abbrev mctp_addr_any : ℕ
mctp_addr_any = 0x08

abbrev mctp_addr_bcast : ℕ
mctp_addr_bcast = 0xff

abbrev mctp_tag_owner : ℕ
mctp_tag_owner = 0x08

record MctpAddr : Type 0 where
  s_addr : ℕ

record SockAddrMctp : Type 0 where
  smctp_family : ℕ
  smctp_pad0 : ℕ
  smctp_network : ℕ
  smctp_addr : MctpAddr
  smctp_type : ℕ
  smctp_tag : ℕ
  smctp_pad1 : ℕ

-- The padding has three bytes, the hardware address has 32.
record SockAddrMctpExt : Type 0 where
  smctp_base : SockAddrMctp
  smctp_ifindex : ℤ
  smctp_halen : ℕ
  smctp_pad0 : List ℕ
  smctp_haddr : List ℕ

data NeighbourSource : Type 0 where
  static discover : NeighbourSource

-- The discriminants: `self as u8`.
abbrev neighbour_source_as_u8 : NeighbourSource → ℕ
neighbour_source_as_u8 static = 0
neighbour_source_as_u8 discover = 1

-- `ha` has 32 bytes.
record Neighbour : Type 0 where
  eid : ℕ
  source : NeighbourSource
  ha : List ℕ

-- `S` is a channel for one response, `R` one on which responses come.
data MctpSenderCommand (S R : Type 0) : Type 0 where
  one_shot : (msg_type : MessageType) (buf : List ℕ) (resp : S) → MctpSenderCommand S R
  broadcast : (msg_type : MessageType) (buf : List ℕ) (resp : R) → MctpSenderCommand S R

-- The trait; `D` is the device.
record NetDevice (D S R : Type 0) : Type 0 where
  dev_address : D → Option ℕ
  queue_xmit : D → MctpSenderCommand S R → MctpEmuResult (Unit {0})
