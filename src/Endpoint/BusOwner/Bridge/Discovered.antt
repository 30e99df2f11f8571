-- ===== src/Endpoint/BusOwner/Bridge/Discovered.antt =====
-- `run_bus_owner_loop`, the discovery, with a bridge behind the bus.
use mctp_emu.Prelude.{
  ℕ, ◌+◌, ◌<◌, ◌≤◌, ◌≡◌, refl, ap, ◌∙◌, List, ◌⊎◌, inl, inr, true, arith, lt→ltb,
}
use mctp_emu.Crates.{Crates}
use mctp_emu.Base.Errors.{ok}
use mctp_emu.Control.CommandCode.{CommandCode}
use mctp_emu.Control.Status.{is_success_iff}
use mctp_emu.Control.SetEid
use mctp_emu.Control.SetEid.Enums.{set_eid, requires_pool_allocation}
use mctp_emu.Endpoint.Context.{returns}
use mctp_emu.Endpoint.BusOwner.{EndpointContext, Owner, Reply, ◌>>=◌, is_dynamic, is_bridge}
use mctp_emu.Endpoint.BusOwner.Discovery.{advance, assign, discover, discovered}
use mctp_emu.Endpoint.BusOwner.Pool.{advance_lem}
use mctp_emu.Endpoint.BusOwner.Packets.{control_hdr, front-IsFront}
use mctp_emu.Endpoint.BusOwner.Replies.{asked, next_front, get_eid_reply, set_eid_reply}
use mctp_emu.Endpoint.BusOwner.Bridge.{Bridge, read_bridge, read_demand}
use mctp_emu.Endpoint.BusOwner.Bridge.Pools.{Pool, confirm-Pool, settle}

module _ ⦃c : Crates⦄ {B : Type 0} (bus : B → List ℕ → B × Reply) {size : ℕ} {eid_of : B → ℕ}
    {pool_of : B → ℕ × ℕ} (v : Bridge bus size eid_of pool_of) where
  assign-Pool :
      (endpoint : EndpointContext) (s : Owner B)
      → is_bridge endpoint.endpoint_type ≡ true
      → s.next_eid + 1 + size < 256
      → (e : EndpointContext) × (s' : Owner B) × (assign bus endpoint s ≡ (s', returns (ok e)))
        × (s'.next_eid ≡ s.next_eid + 1 + size)
        × (eid_of s'.bus ≡ s.next_eid)
        × (pool_of s'.bus ≡ pool_of s.bus)
        × Pool
            (record endpoint { eid_allocation_status = requires_pool_allocation })
            e
            size
            (s.next_eid + 1)
  unfolding assign ◌>>=◌
  assign-Pool endpoint s br h =
      let eid = s.next_eid in
      let s₁ : Owner B = record s { next_eid = eid + 1 } in
      let adv : advance 1 s ≡ (s₁, returns (ok tt)) =
        advance_lem 1 s ∙ rw (lt→ltb (eid + 1) 256 (omega (arith, h))) refl in
      let hdr = control_hdr CommandCode.set_endpoint_id s.ctx.next_instance_id in
      let op = (SetEid.new_request hdr set_eid eid).operation_reserved in
      let (b, trail, reply, given, kept) =
        v.takes_eid s.bus (next_front 0 s₁) op eid
          (front-IsFront s.ctx.assigned_eid 0 s.ctx.next_msg_tag s.ctx.next_instance_id) in
      let (resp, e, code, status, pool) = set_eid_reply bus eid s₁ b 0 0x01 eid size trail reply in
      let s₂ : Owner B = record s₁ { ctx = asked s.ctx; bus = b } in
      let (asks, assigned) = read_demand resp status in
      let found = record endpoint { eid_allocation_status = requires_pool_allocation } in
      let (e', confirmed, p) = confirm-Pool bus found resp size s₂ br refl assigned pool h in
      (
        e',
        record s₂ { next_eid = eid + 1 + size },
        rw (adv, e, (is_success_iff resp.completion_code).1 code, asks, confirmed) refl,
        refl,
        given,
        kept,
        p,
      )

  -- A bridge that is discovered gets the next EID, and a pool of as many EIDs as it asks for is kept for it
  -- right behind that EID, where all of these are below 256: the discovery succeeds and the next EID ends
  -- behind the pool. A pool of two EIDs or more is announced, so that the bridge has exactly the EIDs that
  -- the bus owner keeps for it. A pool of one EID is kept but not announced, and the bridge is left with
  -- the pool that it had.
  pub discover-Bridge :
      (s : Owner B)
      → s.next_eid + 1 + size < 256
      → (e : EndpointContext) × (s' : Owner B) × (discover bus s ≡ (s', returns (ok e)))
        × (s'.next_eid ≡ s.next_eid + 1 + size)
        × (eid_of s'.bus ≡ s.next_eid)
        × (e.dynamic_eid_pool_size ≡ size)
        × (((2 ≤ size)
              × (e.min_dynamic_eid ≡ s.next_eid + 1)
              × (e.max_dynamic_eid ≡ s.next_eid + size)
              × (pool_of s'.bus ≡ (s.next_eid + 1, size)))
            ⊎ ((size < 2) × (pool_of s'.bus ≡ pool_of s.bus)))
  unfolding discover ◌>>=◌
  discover-Bridge s h =
      let (b, eid, medium, trail, reply, kept) =
        v.reports s.bus (next_front 0 s)
          (front-IsFront s.ctx.assigned_eid 0 s.ctx.next_msg_tag s.ctx.next_instance_id) in
      let (resp, e, code, types) = get_eid_reply bus 0 s b 0 eid 0x10 medium trail reply in
      let s₁ : Owner B = record s { ctx = asked s.ctx; bus = b } in
      let (ty, br) = read_bridge resp types in
      let found = record (discovered resp) { eid_allocation_status = requires_pool_allocation } in
      let (e', s₂, assigned, next, given, kept', p) =
        assign-Pool (discovered resp) s₁ (ap is_bridge br) h in
      let (s₃, announced, next', given', n, told) =
        settle bus v found e' (s.next_eid + 1) s₂ refl refl refl p in
      (
        e',
        s₃,
        rw (e, (is_success_iff resp.completion_code).1 code, ap is_dynamic ty, assigned, announced)
            refl,
        next' ∙ next,
        given' ∙ given,
        n,
        elim told [
          | inl (two, lo, hi, same) ↦ inl (two, lo, hi ∙ omega arith, same)
          | inr (few, same) ↦ inr (few, same ∙ kept' ∙ kept)
        ],
      )
