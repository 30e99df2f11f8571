-- ===== src/Endpoint/BusOwner/Distinct.antt =====
-- The EIDs that `run_bus_owner_loop` gives to the endpoints that it finds one after the other.
use mctp_emu.Prelude.{ℕ, ◌≤◌, ◌≡◌, List, [], ◌∷◌, All, Pairwise, arith}
use mctp_emu.Crates.{Crates}
use mctp_emu.Base.Errors.{ok}
use mctp_emu.Endpoint.Context.{MctpEndpointContext, returns}
use mctp_emu.Endpoint.BusOwner.{EndpointContext, Owner, Reply}
use mctp_emu.Endpoint.BusOwner.Discovery.{discover}
use mctp_emu.Endpoint.BusOwner.Assignment.{Has, kept, single, pooled, discover-Has}
use mctp_emu.Endpoint.BusOwner.Sent.{Logged, logged}

-- An endpoint, with the values of `next_eid` before and after its discovery, and the packets that the
-- discovery handed to the bus, the last first.
pub record Given : Type 0 where
  pub from : ℕ
  pub endpoint : EndpointContext
  pub to : ℕ
  pub sent : List (List ℕ)

module _ ⦃c : Crates⦄ {B : Type 0} (bus : B → List ℕ → B × Reply) where
  -- Discoveries that succeed, one after the other: between two of them other tasks change the context, and
  -- whatever happens on the bus.
  pub data Discoveries : Owner (Logged B) → List Given → Owner (Logged B) → Type 0 where
    nothing : {s : Owner (Logged B)} → Discoveries s [] s
    found :
        {s u : Owner (Logged B)} {gs : List Given} (ctx : MctpEndpointContext) (b : B)
        (e : EndpointContext) (t : Owner (Logged B))
        → discover (logged bus) (record s { ctx = ctx; bus = ([], b) }) ≡ (t, returns (ok e))
        → Discoveries t gs u
        → Discoveries s
            (record { from = s.next_eid; endpoint = e; to = t.next_eid; sent = t.bus.0 } ∷ gs)
            u

  Has-le :
      (from to : ℕ) (before sent : List (List ℕ)) (e : EndpointContext)
      → Has from to before sent e
      → from ≤ to
  Has-le from to before sent e (told, kept get asks d same z m t, a) = omega (arith, same)
  Has-le from to before sent e (told, single get set asks sets d end z m t, a) = omega (arith, end)
  Has-le from to before sent e (told, pooled get set asks sets d end f l t, a) = omega (arith, end)

  after-start :
      {s u : Owner (Logged B)} {gs : List Given} (k : ℕ)
      → k ≤ s.next_eid
      → Discoveries s gs u
      → All (λ g. k ≤ g.from) gs
  after-start k h nothing = tt
  after-start {s} k h (found ctx b e t d ds) =
      let p = Has-le _ _ _ _ e (discover-Has bus _ t e d) in
      (h, after-start k (omega (arith, h, p)) ds)

  -- No EID is given twice over a sequence of discoveries that succeed: the EID that each endpoint is sent in
  -- its Set Endpoint ID request, and the pool that is kept for it and announced to it, are in the range of
  -- the EIDs between the values of the next EID before and after its discovery, and of any two endpoints
  -- the range of the later one begins where that of the earlier one has ended.
  pub discoveries-Pairwise :
      (s u : Owner (Logged B)) (gs : List Given)
      → Discoveries s gs u
      → All (λ g. Has g.from g.to [] g.sent g.endpoint) gs × Pairwise (λ g h. g.to ≤ h.from) gs
  discoveries-Pairwise s u _ nothing = (tt, tt)
  discoveries-Pairwise s u _ (found {gs} ctx b e t d ds) =
      let (has, apart) = discoveries-Pairwise t u gs ds in
      (
        (discover-Has bus (record s { ctx = ctx; bus = ([], b) }) t e d, has),
        (after-start t.next_eid (omega arith) ds, apart),
      )
