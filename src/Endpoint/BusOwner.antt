-- ===== src/Endpoint/BusOwner.antt =====
-- examples/basic_bus_owner_loop.rs: `run_bus_owner_loop` and the requests that it sends. The bus, with the
-- tasks that carry packets to it, is a state of type `B` that takes a request and gives the reply.
pub mod Requests
pub mod Discovery
pub mod Pool
pub mod Success
pub mod Sent
pub mod Assignment
pub mod Serves
pub mod Packets
pub mod Replies
pub mod Exchanges
pub mod Answered
pub mod Tasks
pub mod Rounds
pub mod Distinct
pub mod Notified
pub mod Bridge
pub mod Tests
use mctp_emu.Prelude.{ℕ, ◌+◌, List, Bool, true, false, ltb, if◌then◌else◌}
use mctp_emu.Base.Errors.{ok, err}
use mctp_emu.Control.SetEid.Enums.{EidAllocationStatus, requires_pool_allocation}
use mctp_emu.Control.GetEid.Enums.{EidType, EndpointType, dynamic, bus_owner_or_bridge}
use mctp_emu.Control.AllocateEids.Enums.{AllocationStatus, allocation_accepted}
use mctp_emu.Endpoint.Context.{MctpEndpointContext, Outcome, returns, panics}

pub record EndpointContext : Type 0 where
  pub eid : ℕ
  pub endpoint_type : EndpointType
  pub eid_type : EidType
  pub eid_allocation_status : EidAllocationStatus
  pub min_dynamic_eid : ℕ
  pub max_dynamic_eid : ℕ
  pub dynamic_eid_pool_size : ℕ

-- The context, the loop's variable `next_eid`, and the bus.
pub record Owner (B : Type 0) : Type 0 where
  pub ctx : MctpEndpointContext
  pub next_eid : ℕ
  pub bus : B

-- What comes back on the channel of a request: a packet, an I/O error (on which `send_and_decode` panics),
-- or nothing, as the other end was dropped.
pub data Reply : Type 0 where
  packet : List ℕ → Reply
  io_error : Reply
  closed : Reply

abbrev pub Step : (B A : Type 0) → Type 0
Step B A = Owner B → Owner B × Outcome A

module _ {B : Type 0} where
  abbrev pub pure : {A : Type 0} → A → Step B A
  pure a s = (s, returns (ok a))

  abbrev pub lift : {A : Type 0} → Outcome A → Step B A
  lift o s = (s, o)

  abbrev pub after : {A C : Type 0} → Owner B × Outcome A → (A → Step B C) → Owner B × Outcome C
  after (s, returns (ok a)) f = f a s
  after (s, returns (err e)) f = (s, returns (err e))
  after (s, panics) f = (s, panics)

  infixl 5 ◌>>=◌ ◌>>◌
  unfoldable pub ◌>>=◌ : {A C : Type 0} → Step B A → (A → Step B C) → Step B C
  ◌>>=◌ m f s = after (m s) f

  abbrev pub ◌>>◌ : {C : Type 0} → Step B (Unit {0}) → Step B C → Step B C
  m >> k = m >>= λ _. k

-- `u8` addition, which panics on an overflow.
unfoldable pub u8_add : ℕ → ℕ → Outcome ℕ
u8_add a b = if ltb (a + b) 256 then returns (ok (a + b)) else panics

-- `==` with one variant.
abbrev pub is_dynamic : EidType → Bool
is_dynamic dynamic = true
is_dynamic _ = false

abbrev pub is_bridge : EndpointType → Bool
is_bridge bus_owner_or_bridge = true
is_bridge _ = false

abbrev pub requires_pool : EidAllocationStatus → Bool
requires_pool requires_pool_allocation = true
requires_pool _ = false

abbrev pub is_accepted : AllocationStatus → Bool
is_accepted allocation_accepted = true
is_accepted _ = false
