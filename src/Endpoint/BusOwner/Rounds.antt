-- ===== src/Endpoint/BusOwner/Rounds.antt =====
-- `run_bus_owner_loop` over a bus with an endpoint, when a discovery is asked for again and again.
use mctp_emu.Prelude.{
  ℕ, ◌+◌, ◌<◌, ◌≡◌, refl, ◌∙◌, ap, List, [], ◌∷◌, length, true, false, All, arith, Bool-cases, ltb,
  ltb→lt, ltb→le, ◌≤◌, ◌==◌, ◌⊎◌, inl, inr,
}
use mctp_emu.Crates.{Crates}
use mctp_emu.Base.Errors.{ok}
use mctp_emu.Endpoint.Context.{MctpEndpointContext, returns, panics}
use mctp_emu.Endpoint.BusOwner.{Owner, Reply, ◌>>=◌}
use mctp_emu.Endpoint.BusOwner.Discovery.{round, rounds, ping, unwrap}
use mctp_emu.Endpoint.BusOwner.Serves.{Serves}
use mctp_emu.Endpoint.BusOwner.Answered.{discover-Serves, discover-exhausted}
use mctp_emu.Control.Status.{is_success_iff}
use mctp_emu.Endpoint.BusOwner.Replies.{asked}
use mctp_emu.Endpoint.BusOwner.Exchanges.{get_eid_lem}

-- What other tasks do to the context asks for a discovery.
abbrev pub Asks : (MctpEndpointContext → MctpEndpointContext) → Type 0
Asks others = (ctx : MctpEndpointContext) → (others ctx).perform_discovery ≡ true

module _ ⦃c : Crates⦄ {B : Type 0} {bus : B → List ℕ → B × Reply} {remote : B → MctpEndpointContext}
    {Ready : B → Type 0} (v : Serves bus remote Ready) (ping_eid : ℕ) where
  pub round-discovers :
      (s : Owner B)
      → Ready s.bus
      → s.next_eid + 1 < 256
      → s.ctx.perform_discovery ≡ true
      → (s' : Owner B) × (round bus ping_eid s ≡ (s', returns (ok tt)))
        × (s'.next_eid ≡ s.next_eid + 1)
        × ((remote s'.bus).assigned_eid ≡ s.next_eid)
        × Ready s'.bus
        × (s'.ctx.perform_discovery ≡ false)
  unfolding round ◌>>=◌
  round-discovers s ready h asks =
      let s₀ : Owner B = record s { ctx = record s.ctx { perform_discovery = false } } in
      let (e, s', d, m, n, ready', x) = discover-Serves v s₀ ready h in
      (
        s',
        rw (asks, d) refl,
        n,
        ap (λ (ctx : MctpEndpointContext). ctx.assigned_eid) m,
        ready',
        ap (λ (ctx : MctpEndpointContext). ctx.perform_discovery) x,
      )

  rounds-cons :
      (others : MctpEndpointContext → MctpEndpointContext)
      (rest : List (MctpEndpointContext → MctpEndpointContext)) (s s' : Owner B)
      → round bus ping_eid (record s { ctx = others s.ctx }) ≡ (s', returns (ok tt))
      → rounds bus ping_eid (others ∷ rest) s ≡ rounds bus ping_eid rest s'
  unfolding rounds ◌>>=◌
  rounds-cons others rest s s' h = rw h refl

  -- The bus owner does not know an endpoint again, and does not keep to the size of its pool: over
  -- a bus that is ready and has an endpoint behind it, in any number of rounds, at least one, that
  -- are each asked for a discovery, and while the EIDs stay below 256, every round succeeds, the
  -- next EID moves by the number of the rounds, and the endpoint ends with the EID before it.
  rounds-Serves :
      (others : List (MctpEndpointContext → MctpEndpointContext)) (s : Owner B)
      → Ready s.bus
      → All Asks others
      → s.next_eid + length others < 256
      → 0 < length others
      → (s' : Owner B) × (rounds bus ping_eid others s ≡ (s', returns (ok tt)))
        × (s'.next_eid ≡ s.next_eid + length others)
        × ((remote s'.bus).assigned_eid + 1 ≡ s'.next_eid)
        × Ready s'.bus
  unfolding rounds
  rounds-Serves [] s ready a h pos = absurd (omega arith)
  rounds-Serves (o ∷ []) s ready a h pos =
      let (s', e, n, m, ready', _) =
        round-discovers (record s { ctx = o s.ctx }) ready h (a.0 s.ctx) in
      (s', rounds-cons o [] s s' e, n, omega (arith, m, n), ready')
  rounds-Serves (o ∷ p ∷ rest) s ready a h pos =
      let (s₁, e, n, m, ready₁, _) =
        round-discovers (record s { ctx = o s.ctx }) ready (omega arith) (a.0 s.ctx) in
      let (s', e', n', m', ready') =
        rounds-Serves (p ∷ rest) s₁ ready₁ a.1 (omega (arith, n)) (omega arith) in
      (s', rounds-cons o (p ∷ rest) s s₁ e ∙ e', omega (arith, n, n'), m', ready')

  -- A round in which no discovery is asked for pings, or does nothing.
  round-pings :
      (s : Owner B)
      → Ready s.bus
      → s.ctx.perform_discovery ≡ false
      → (s' : Owner B) × (round bus ping_eid s ≡ (s', returns (ok tt)))
        × (s'.next_eid ≡ s.next_eid)
        × (remote s'.bus ≡ remote s.bus)
        × Ready s'.bus
  unfolding round ping unwrap ◌>>=◌
  round-pings s ready quiet =
      let s₀ : Owner B = record s { ctx = record s.ctx { perform_discovery = false } } in
      let (resp, b, e, a, _, ready', same) = get_eid_lem v ping_eid s₀ ready in
      elim (Bool-cases (ping_eid == 0)) [
        | inl z ↦ (s₀, rw (quiet, z) refl, refl, refl, ready)
        | inr z ↦ (
          record s₀ { ctx = asked s₀.ctx; bus = b },
          rw (quiet, z, e, (is_success_iff resp.completion_code).1 a) refl,
          refl,
          same,
          ready',
        )
      ]

  round-lives :
      (s : Owner B)
      → Ready s.bus
      → s.next_eid + 1 < 256
      → (s' : Owner B) × (round bus ping_eid s ≡ (s', returns (ok tt)))
        × Ready s'.bus
        × (((s'.next_eid ≡ s.next_eid) × (remote s'.bus ≡ remote s.bus))
            ⊎ ((s'.next_eid ≡ s.next_eid + 1) × ((remote s'.bus).assigned_eid ≡ s.next_eid)))
  round-lives s ready h = elim (Bool-cases s.ctx.perform_discovery) [
    | inl asks ↦
        let (s', e, n, m, ready', _) = round-discovers s ready h asks in (s', e, ready', inr (n, m))
    | inr quiet ↦
        let (s', e, n, m, ready') = round-pings s ready quiet in (s', e, ready', inl (n, m))
  ]

  -- The loop of the bus owner goes on, over a bus that is ready and has an endpoint behind it: whatever
  -- other tasks do to the context, and whether it pings or not, every round succeeds while each of them
  -- could still take an EID below 256. The endpoint keeps its EID, or has the one before the next EID,
  -- and the rounds take no more EIDs than there are rounds.
  pub rounds-live :
      (others : List (MctpEndpointContext → MctpEndpointContext)) (s : Owner B)
      → Ready s.bus
      → s.next_eid + length others < 256
      → (s' : Owner B) × (rounds bus ping_eid others s ≡ (s', returns (ok tt)))
        × (s.next_eid ≤ s'.next_eid)
        × (s'.next_eid ≤ s.next_eid + length others)
        × (((s'.next_eid ≡ s.next_eid) × (remote s'.bus ≡ remote s.bus))
            ⊎ ((remote s'.bus).assigned_eid + 1 ≡ s'.next_eid))
        × Ready s'.bus
  unfolding rounds
  rounds-live [] s ready h = (s, refl, omega arith, omega arith, inl (refl, refl), ready)
  rounds-live (o ∷ rest) s ready h =
      let (s₁, e, ready₁, one) = round-lives (record s { ctx = o s.ctx }) ready (omega arith) in
      let most : s₁.next_eid ≤ s.next_eid + 1 = elim one [
        | inl (n, _) ↦ omega (arith, n)
        | inr (n, _) ↦ omega (arith, n)
      ] in
      let least : s.next_eid ≤ s₁.next_eid = elim one [
        | inl (n, _) ↦ omega (arith, n)
        | inr (n, _) ↦ omega (arith, n)
      ] in
      let (s', e', lo, hi, more, ready') = rounds-live rest s₁ ready₁ (omega (arith, most, h)) in
      (
        s',
        rounds-cons o rest s s₁ e ∙ e',
        omega (arith, least, lo),
        omega (arith, most, hi),
        elim more [
          | inr m ↦ inr m
          | inl (n, same) ↦ elim one [
            | inl (n₁, same₁) ↦ inl (n ∙ n₁, same ∙ same₁)
            | inr (n₁, m₁) ↦ inr (
                omega (arith, n, n₁, m₁, ap (λ (ctx : MctpEndpointContext). ctx.assigned_eid) same))
          ]
        ],
        ready',
      )

  -- Where the discoveries asked for are more than there are EIDs left, the bus owner panics.
  pub rounds-exhausted :
      (others : List (MctpEndpointContext → MctpEndpointContext)) (s : Owner B)
      → Ready s.bus
      → All Asks others
      → s.next_eid < 256
      → 256 ≤ s.next_eid + length others
      → (s' : Owner B) × (rounds bus ping_eid others s ≡ (s', panics))
  unfolding rounds round ◌>>=◌
  rounds-exhausted [] s ready a lo h = absurd (omega arith)
  rounds-exhausted (o ∷ rest) s ready a lo h = elim (Bool-cases (ltb (s.next_eid + 1) 256)) [
    | inl e ↦
        let more = ltb→lt (s.next_eid + 1) 256 e in
        let (s₁, e, n, m, ready₁, _) =
          round-discovers (record s { ctx = o s.ctx }) ready more (a.0 s.ctx) in
        let (s', e') =
          rounds-exhausted rest s₁ ready₁ a.1 (omega (arith, n, more)) (omega (arith, n, h)) in
        (s', rounds-cons o rest s s₁ e ∙ e')
    | inr e ↦
        let full : s.next_eid ≡ 255 = omega (arith, ltb→le (s.next_eid + 1) 256 e, lo) in
        let s₀ : Owner B = record s { ctx = record (o s.ctx) { perform_discovery = false } } in
        let (s', d) = discover-exhausted v s₀ ready full in (s', rw (a.0 s.ctx, d) refl)
  ]
