-- ===== src/Endpoint/BusOwner/Bridge.antt =====
-- The discovery of a bridge, which asks for a pool of EIDs behind it.
pub mod Pools
pub mod Discovered
pub mod Tests
use mctp_emu.Prelude.{ℕ, ◌+◌, ◌-◌, ◌<◌, ◌≡◌, refl, List, [], ◌∷◌, arith, ltb, lt→ltb}
use mctp_emu.Crates.{Crates}
use mctp_emu.Base.Errors.{ok}
use mctp_emu.Control.EnumWire.{from_u8-as_u8}
use mctp_emu.Control.GetEid
use mctp_emu.Control.GetEid.Enums.{
  dynamic, bus_owner_or_bridge, eid_type_from, endpoint_type_from, eid_type_repr,
  endpoint_type_repr,
}
use mctp_emu.Control.SetEid
use mctp_emu.Control.SetEid.Enums.{requires_pool_allocation, eid_allocation_status_repr}
use mctp_emu.Control.AllocateEids
use mctp_emu.Control.AllocateEids.Enums.{allocation_accepted, allocation_status_repr}
use mctp_emu.Endpoint.Context.{returns}
use mctp_emu.Endpoint.Responder.Requests.{Front, IsFront, request, answer}
use mctp_emu.Endpoint.BusOwner.{EndpointContext, Owner, Reply, packet, ◌>>=◌, u8_add}
use mctp_emu.Endpoint.BusOwner.Discovery.{reserve}
use mctp_emu.Endpoint.BusOwner.Pool.{advance_lem}

-- A bus with a bridge behind it, as the control protocol describes one: it says of itself that it is a
-- bridge with a dynamic EID, takes the EID that it is given and asks for a pool of `size` EIDs, and takes
-- the pool that it is given. `eid_of` is its EID, `pool_of` the first EID of its pool and their number.
pub record Bridge ⦃c : Crates⦄ {B : Type 0} (bus : B → List ℕ → B × Reply) (size : ℕ)
    (eid_of : B → ℕ) (pool_of : B → ℕ × ℕ) : Type 0 where
  pub reports :
      (b : B) (f : Front)
      → IsFront f
      → (b' : B) × (eid : ℕ) × (medium : ℕ) × (trail : List ℕ) × (bus b (request f 0x02 [])
          ≡ (b', packet (answer f 0x02 (0 ∷ eid ∷ 0x10 ∷ medium ∷ trail))))
        × (pool_of b' ≡ pool_of b)
  pub takes_eid :
      (b : B) (f : Front) (operation eid : ℕ)
      → IsFront f
      → (b' : B) × (trail : List ℕ) × (bus b (request f 0x01 (operation ∷ eid ∷ []))
          ≡ (b', packet (answer f 0x01 (0 ∷ 0x01 ∷ eid ∷ size ∷ trail))))
        × (eid_of b' ≡ eid)
        × (pool_of b' ≡ pool_of b)
  pub takes_pool :
      (b : B) (f : Front) (number first : ℕ)
      → IsFront f
      → (b' : B) × (trail : List ℕ) × (bus b (request f 0x08 (0 ∷ number ∷ first ∷ []))
          ≡ (b', packet (answer f 0x08 (0 ∷ 0 ∷ number ∷ first ∷ trail))))
        × (eid_of b' ≡ eid_of b)
        × (pool_of b' ≡ (first, number))

-- What the bus owner reads in the bits of the three answers.
module _ ⦃c : Crates⦄ where
  open c use {get_bits, get_bits_lem}

  pub read_bridge :
      (resp : GetEid.Response)
      → resp.eid_endpoint_type ≡ 0x10
      → (eid_type_from (GetEid.eid_type resp) ≡ dynamic)
        × (endpoint_type_from (GetEid.endpoint_type resp) ≡ bus_owner_or_bridge)
  unfolding GetEid.eid_type GetEid.endpoint_type
  read_bridge resp z =
      let t = get_bits_lem 0x10 0 1 (omega arith) (omega arith) (omega arith) in
      let u = get_bits_lem 0x10 4 5 (omega arith) (omega arith) (omega arith) in
      (
        rw (z, t) (from_u8-as_u8 eid_type_repr dynamic),
        rw (z, u) (from_u8-as_u8 endpoint_type_repr bus_owner_or_bridge),
      )

  pub read_demand :
      (resp : SetEid.Response)
      → resp.eid_allocation_status_reserved1_eid_assignment_status_reserved2 ≡ 0x01
      → (SetEid.eid_allocation_status resp ≡ requires_pool_allocation)
        × (SetEid.eid_assignment_status resp ≡ 0)
  unfolding SetEid.eid_allocation_status SetEid.raw_eid_allocation_status
      SetEid.eid_assignment_status
  read_demand resp z =
      let t = get_bits_lem 0x01 0 1 (omega arith) (omega arith) (omega arith) in
      let u = get_bits_lem 0x01 4 5 (omega arith) (omega arith) (omega arith) in
      (
        rw (z, t) (from_u8-as_u8 eid_allocation_status_repr requires_pool_allocation),
        rw (z, u) refl,
      )

  pub read_accepted :
      (resp : AllocateEids.Response)
      → resp.allocation_status_reserved ≡ 0
      → AllocateEids.allocation_status resp ≡ allocation_accepted
  unfolding AllocateEids.allocation_status AllocateEids.raw_allocation_status
  read_accepted resp z =
      let t = get_bits_lem 0 0 1 (omega arith) (omega arith) (omega arith) in
      rw (z, t) (from_u8-as_u8 allocation_status_repr allocation_accepted)

-- A pool that fits is reserved.
pub reserve_lem :
    {B : Type 0} (endpoint : EndpointContext) (n : ℕ) (s : Owner B)
    → s.next_eid + n < 256
    → reserve endpoint n s ≡ (
      record s { next_eid = s.next_eid + n },
      returns (
          ok (record endpoint {
            min_dynamic_eid = s.next_eid;
            max_dynamic_eid = s.next_eid + n - 1;
            dynamic_eid_pool_size = n;
          })),
    )
unfolding reserve ◌>>=◌ u8_add
reserve_lem endpoint n s h =
    let room = lt→ltb (s.next_eid + n) 256 h in rw (room, advance_lem n s, room) refl
