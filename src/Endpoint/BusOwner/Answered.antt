-- ===== src/Endpoint/BusOwner/Answered.antt =====
-- The bus owner with an endpoint behind the bus that answers by `handle_request`.
use mctp_emu.Prelude.{ℕ, List, ap, ◌+◌, ◌<◌, ◌≡◌, refl, ◌∙◌, true, false, arith, lt→ltb, le→ltb}
use mctp_emu.Crates.{Crates}
use mctp_emu.Base.Errors.{ok}
use mctp_emu.Control.GetEid
use mctp_emu.Control.SetEid
use mctp_emu.Endpoint.Context.{MctpEndpointContext, returns, panics}
use mctp_emu.Control.EnumWire.{from_u8-as_u8}
use mctp_emu.Control.Status.{is_success_iff}
use mctp_emu.Control.GetEid.Enums.{
  dynamic, simple, eid_type_from, endpoint_type_from, eid_type_repr, endpoint_type_repr,
}
use mctp_emu.Endpoint.BusOwner.Pool.{advance_lem}
use mctp_emu.Endpoint.BusOwner.Discovery.{advance, confirm, assign, allocate, discover, discovered}
use mctp_emu.Endpoint.BusOwner.{EndpointContext, is_dynamic, is_bridge, Owner, Reply, ◌>>=◌}
use mctp_emu.Endpoint.BusOwner.Serves.{Serves, endpoint_bus, endpoint_bus-Serves}
use mctp_emu.Endpoint.BusOwner.Replies.{asked}
use mctp_emu.Endpoint.BusOwner.Exchanges.{get_eid_lem, set_eid_lem}

module _ ⦃c : Crates⦄ where
  open c use {get_bits, get_bits_lem}

  read_types :
      (resp : GetEid.Response)
      → resp.eid_endpoint_type ≡ 0
      → (is_dynamic (eid_type_from (GetEid.eid_type resp)) ≡ true)
        × (is_bridge (endpoint_type_from (GetEid.endpoint_type resp)) ≡ false)
  unfolding GetEid.eid_type GetEid.endpoint_type
  read_types resp z =
      let t : get_bits resp.eid_endpoint_type 0 1 ≡ 0 = omega (
        arith,
        z,
        get_bits_lem resp.eid_endpoint_type 0 1 (omega (arith, z)) (omega arith) (omega arith),
      ) in
      let u : get_bits resp.eid_endpoint_type 4 5 ≡ 0 = omega (
        arith,
        z,
        get_bits_lem resp.eid_endpoint_type 4 5 (omega (arith, z)) (omega arith) (omega arith),
      ) in
      (
        rw (t, from_u8-as_u8 eid_type_repr dynamic) refl,
        rw (u, from_u8-as_u8 endpoint_type_repr simple) refl,
      )

  read_status :
      (resp : SetEid.Response)
      → resp.eid_allocation_status_reserved1_eid_assignment_status_reserved2 ≡ 0
      → SetEid.eid_assignment_status resp ≡ 0
  unfolding SetEid.eid_assignment_status
  read_status resp z = omega (
    arith,
    z,
    get_bits_lem resp.eid_allocation_status_reserved1_eid_assignment_status_reserved2 4 5
        (omega (arith, z)) (omega arith) (omega arith),
  )

-- A discovery over a bus with an endpoint.
module _ ⦃c : Crates⦄ {B : Type 0} {bus : B → List ℕ → B × Reply} {remote : B → MctpEndpointContext}
    {Ready : B → Type 0} (v : Serves bus remote Ready) where
  pub discover-Serves :
      (s : Owner B)
      → Ready s.bus
      → s.next_eid + 1 < 256
      → (e : EndpointContext) × (s' : Owner B) × (discover bus s ≡ (s', returns (ok e)))
        × (remote s'.bus ≡ record (remote s.bus) { assigned_eid = s.next_eid })
        × (s'.next_eid ≡ s.next_eid + 1)
        × Ready s'.bus
        × (s'.ctx ≡ asked (asked s.ctx))
  unfolding discover assign confirm allocate ◌>>=◌
  discover-Serves s ready h =
      let (r₁, c₁, e₁, a₁, b₁, ready₁, m₁) = get_eid_lem v 0 s ready in
      let s₁ : Owner B = record s { ctx = asked s.ctx; bus = c₁ } in
      let s₂ : Owner B = record s₁ { next_eid = s.next_eid + 1 } in
      let (r₂, c₂, e₂, a₂, b₂, d₂, ready₂, m₂) = set_eid_lem v s.next_eid s₂ ready₁ in
      let (ty, br) = read_types r₁ b₁ in
      let ok₁ = (is_success_iff r₁.completion_code).1 a₁ in
      let ok₂ = (is_success_iff r₂.completion_code).1 a₂ in
      let adv : advance 1 s₁ ≡ (s₂, returns (ok tt)) =
        advance_lem 1 s₁ ∙ rw (lt→ltb (s.next_eid + 1) 256 h) refl in
      (
        record (discovered r₁) { eid_allocation_status = SetEid.eid_allocation_status r₂ },
        record s₂ { ctx = asked s₂.ctx; bus = c₂ },
        rw (e₁, ok₁, ty, adv, e₂, ok₂, read_status r₂ b₂, br) refl,
        m₂ ∙ ap (λ (ctx : MctpEndpointContext). record ctx { assigned_eid = s.next_eid }) m₁,
        refl,
        ready₂,
        refl,
      )

  -- Where no EID is left, the endpoint is found, but `next_eid += 1` overflows.
  pub discover-exhausted :
      (s : Owner B)
      → Ready s.bus
      → s.next_eid ≡ 255
      → (s' : Owner B) × (discover bus s ≡ (s', panics))
  unfolding discover assign ◌>>=◌
  discover-exhausted s ready h =
      let (r₁, c₁, e₁, a₁, b₁, ready₁, m₁) = get_eid_lem v 0 s ready in
      let s₁ : Owner B = record s { ctx = asked s.ctx; bus = c₁ } in
      let (ty, br) = read_types r₁ b₁ in
      let ok₁ = (is_success_iff r₁.completion_code).1 a₁ in
      let adv : advance 1 s₁ ≡ (s₁, panics) =
        advance_lem 1 s₁ ∙ rw (le→ltb (s.next_eid + 1) 256 (omega (arith, h))) refl in
      (s₁, rw (e₁, ok₁, ty, adv) refl)

module _ ⦃c : Crates⦄ where
  -- A bus owner that discovers an endpoint which answers by `handle_request` succeeds, where its
  -- next EID is below 255: the endpoint's assigned EID becomes that next EID, nothing else of the
  -- endpoint changes, and the bus owner's next EID is one further.
  pub discover-endpoint_bus :
      (s : Owner MctpEndpointContext)
      → s.next_eid + 1 < 256
      → (e : EndpointContext) × (s' : Owner MctpEndpointContext) × (discover endpoint_bus s
          ≡ (s', returns (ok e)))
        × (s'.bus ≡ record s.bus { assigned_eid = s.next_eid })
        × (s'.next_eid ≡ s.next_eid + 1)
  discover-endpoint_bus s h =
      let (e, s', d, m, n, _, _) = discover-Serves endpoint_bus-Serves s tt h in (e, s', d, m, n)
