-- ===== src/Endpoint/BusOwner/Bridge/Pools.antt =====
-- `run_bus_owner_loop`, the pool that is kept for a bridge, and what the bridge is told of it.
use mctp_emu.Prelude.{
  ℕ, zero, suc, ◌+◌, ◌-◌, ◌<◌, ◌≤◌, ◌≡◌, refl, ap, ◌∙◌, List, ◌⊎◌, inl, inr, true, false, arith,
  ltb, sym, lt→ltb, ltb→lt, ltb→le, ◌==◌, ==_iff, Bool-cases,
}
use mctp_emu.Crates.{Crates}
use mctp_emu.Base.Errors.{ok}
use mctp_emu.Control.Status.{is_success_iff}
use mctp_emu.Control.SetEid
use mctp_emu.Endpoint.Context.{returns}
use mctp_emu.Endpoint.BusOwner.{EndpointContext, Owner, Reply, ◌>>=◌, is_bridge, requires_pool}
use mctp_emu.Endpoint.BusOwner.Discovery.{confirm, allocate}
use mctp_emu.Endpoint.BusOwner.Packets.{front-IsFront}
use mctp_emu.Endpoint.BusOwner.Replies.{asked, next_front, allocate_eids_reply}
use mctp_emu.Endpoint.BusOwner.Bridge.{Bridge, read_accepted, reserve_lem}

-- The pool of an endpoint that was given a pool of `size` EIDs from `first` on, or none.
abbrev pub Pool : (before after : EndpointContext) (size first : ℕ) → Type 0
Pool before after size first =
    ((0 < size)
      × (after.min_dynamic_eid ≡ first)
      × (after.max_dynamic_eid ≡ first + size - 1)
      × (after.dynamic_eid_pool_size ≡ size))
    ⊎ ((size ≡ 0) × (after ≡ before))

-- Only a pool of two EIDs or more has bounds that differ.
Pool-cases :
    (size : ℕ) (resp after : EndpointContext) (first : ℕ)
    → resp.min_dynamic_eid ≡ 0
    → resp.max_dynamic_eid ≡ 0
    → resp.dynamic_eid_pool_size ≡ 0
    → Pool resp after size first
    → ((2 ≤ size)
        × (after.min_dynamic_eid ≡ first)
        × (after.max_dynamic_eid ≡ first + size - 1)
        × (after.dynamic_eid_pool_size ≡ size))
      ⊎ ((size < 2)
          × (after.min_dynamic_eid ≡ after.max_dynamic_eid)
          × (after.dynamic_eid_pool_size ≡ size))
Pool-cases size resp after first lo hi n (inl (some_eid, lo', hi', n')) =
    elim (Bool-cases (ltb size 2)) [
      | inl e ↦
          let few : size < 2 = ltb→lt size 2 e in
          inr (few, omega (arith, few, some_eid, lo', hi'), n')
      | inr e ↦ inl (ltb→le size 2 e, lo', hi', n')
    ]
Pool-cases size resp after first lo hi n (inr (none_asked, same)) = inr (
  omega (arith, none_asked),
  ap (λ (e : EndpointContext). e.min_dynamic_eid) same
      ∙ lo
      ∙ sym hi
      ∙ ap (λ (e : EndpointContext). e.max_dynamic_eid) (sym same),
  ap (λ (e : EndpointContext). e.dynamic_eid_pool_size) same ∙ n ∙ sym none_asked,
)

module _ ⦃c : Crates⦄ {B : Type 0} (bus : B → List ℕ → B × Reply) where
  pub confirm-Pool :
      (endpoint : EndpointContext) (resp : SetEid.Response) (size : ℕ) (s : Owner B)
      → is_bridge endpoint.endpoint_type ≡ true
      → requires_pool endpoint.eid_allocation_status ≡ true
      → SetEid.eid_assignment_status resp ≡ 0
      → resp.eid_pool_size ≡ size
      → s.next_eid + size < 256
      → (e : EndpointContext) × (confirm bus endpoint resp s
          ≡ (record s { next_eid = s.next_eid + size }, returns (ok e)))
        × Pool endpoint e size s.next_eid
  unfolding confirm
  confirm-Pool endpoint resp zero s br asks assigned z h =
      let same : s.next_eid + 0 ≡ s.next_eid = omega arith in
      (endpoint, rw (assigned, br, asks, z, same) refl, inr (refl, refl))
  confirm-Pool endpoint resp (suc n) s br asks assigned z h = (
    record endpoint {
      min_dynamic_eid = s.next_eid;
      max_dynamic_eid = s.next_eid + suc n - 1;
      dynamic_eid_pool_size = suc n;
    },
    rw (assigned, br, asks, z, lt→ltb 0 (suc n) (omega arith)) (reserve_lem endpoint (suc n) s h),
    inl (omega arith, refl, refl, refl),
  )

  allocate-none :
      (endpoint : EndpointContext) (s : Owner B)
      → endpoint.min_dynamic_eid ≡ endpoint.max_dynamic_eid
      → allocate bus endpoint s ≡ (s, returns (ok tt))
  unfolding allocate
  allocate-none endpoint s h =
      rw ((==_iff endpoint.min_dynamic_eid endpoint.max_dynamic_eid).1 h) refl

  module _ {size : ℕ} {eid_of : B → ℕ} {pool_of : B → ℕ × ℕ}
      (v : Bridge bus size eid_of pool_of) where
    allocate-Pool :
        (endpoint : EndpointContext) (s : Owner B)
        → endpoint.min_dynamic_eid < endpoint.max_dynamic_eid
        → (s' : Owner B) × (allocate bus endpoint s ≡ (s', returns (ok tt)))
          × (s'.next_eid ≡ s.next_eid)
          × (eid_of s'.bus ≡ eid_of s.bus)
          × (pool_of s'.bus ≡ (endpoint.min_dynamic_eid, endpoint.dynamic_eid_pool_size))
    unfolding allocate ◌>>=◌
    allocate-Pool endpoint s h =
        let first = endpoint.min_dynamic_eid in
        let n = endpoint.dynamic_eid_pool_size in
        let differ : (first == endpoint.max_dynamic_eid) ≡ false = ground (arith, h) in
        let (b, trail, reply, same, given) =
          v.takes_pool s.bus (next_front 0 s) n first
            (front-IsFront s.ctx.assigned_eid 0 s.ctx.next_msg_tag s.ctx.next_instance_id) in
        let (resp, e, code, status) = allocate_eids_reply bus first n s b 0 0 n first trail reply in
        (
          record s { ctx = asked s.ctx; bus = b },
          rw (differ, e, (is_success_iff resp.completion_code).1 code, read_accepted resp status)
              refl,
          refl,
          same,
          given,
        )

    -- What the announcement comes to.
    abbrev pub Settled : (e : EndpointContext) (first : ℕ) (s s' : Owner B) → Type 0
    Settled e first s s' =
        ((2 ≤ size)
          × (e.min_dynamic_eid ≡ first)
          × (e.max_dynamic_eid ≡ first + size - 1)
          × (pool_of s'.bus ≡ (first, size)))
        ⊎ ((size < 2) × (pool_of s'.bus ≡ pool_of s.bus))

    pub settle :
        (before e : EndpointContext) (first : ℕ) (s : Owner B)
        → before.min_dynamic_eid ≡ 0
        → before.max_dynamic_eid ≡ 0
        → before.dynamic_eid_pool_size ≡ 0
        → Pool before e size first
        → (s' : Owner B) × (allocate bus e s ≡ (s', returns (ok tt)))
          × (s'.next_eid ≡ s.next_eid)
          × (eid_of s'.bus ≡ eid_of s.bus)
          × (e.dynamic_eid_pool_size ≡ size)
          × Settled e first s s'
    settle before e first s lo₀ hi₀ n₀ p = elim (Pool-cases size before e first lo₀ hi₀ n₀ p) [
      | inl (two, lo, hi, n) ↦
          let (s', announced, next, given, told) = allocate-Pool e s (omega (arith, two, lo, hi)) in
          let same : pool_of s'.bus ≡ (first, size) =
            told ∙ ap (λ (a : ℕ). (a, e.dynamic_eid_pool_size)) lo ∙ ap (λ (m : ℕ). (first, m)) n in
          (s', announced, next, given, n, inl (two, lo, hi, same))
      | inr (few, flat, n) ↦ (s, allocate-none e s flat, refl, refl, n, inr (few, refl))
    ]
