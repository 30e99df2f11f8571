-- ===== src/Endpoint/BusOwner/Bridge/Tests.antt =====
-- A bridge by the book, and the theorem on its discovery.
use mctp_emu.Prelude.{ℕ, ◌≤◌, ◌<◌, ◌≡◌, ◌⊎◌, refl, List, [], ◌∷◌, arith, ◌==◌, if◌then◌else◌}
use mctp_emu.Crates.Reference.{reference}
use mctp_emu.Base.Errors.{ok}
use mctp_emu.Endpoint.Context.{returns}
use mctp_emu.Endpoint.Responder.Tests.{start}
use mctp_emu.Endpoint.Responder.Requests.{Front, answer}
use mctp_emu.Endpoint.BusOwner.{EndpointContext, Owner, Reply, packet, closed}
use mctp_emu.Endpoint.BusOwner.Discovery.{discover}
use mctp_emu.Endpoint.BusOwner.Bridge.{Bridge}
use mctp_emu.Endpoint.BusOwner.Bridge.Discovered.{discover-Bridge}

abbrev State : Type 0
State = ℕ × (ℕ × ℕ)

-- The answer to a request, by its command code.
abbrev serve : (size : ℕ) → State → Front → (code a b d : ℕ) → State × Reply
serve size (eid, pool) f code a b d =
    if code == 0x02
    then ((eid, pool), packet (answer f 0x02 (0 ∷ eid ∷ 0x10 ∷ 0 ∷ [])))
    else if code == 0x01
    then ((b, pool), packet (answer f 0x01 (0 ∷ 0x01 ∷ b ∷ size ∷ [])))
    else ((eid, (d, b)), packet (answer f 0x08 (0 ∷ 0 ∷ b ∷ d ∷ [])))

abbrev by_body : (size : ℕ) → State → Front → ℕ → List ℕ → State × Reply
by_body size s f code (a ∷ b ∷ d ∷ rest) = serve size s f code a b d
by_body size s f code (a ∷ b ∷ []) = serve size s f code a b 0
by_body size s f code _ = serve size s f code 0 0 0

abbrev bridge_bus : (size : ℕ) → State → List ℕ → State × Reply
bridge_bus size s (v ∷ dst ∷ src ∷ flags ∷ first ∷ second ∷ code ∷ body) =
    let f : Front = record {
      version = v;
      dst = dst;
      src = src;
      flags = flags;
      first = first;
      second = second;
    } in
    by_body size s f code body
bridge_bus size s _ = (s, closed)

bridge : (size : ℕ) → Bridge (bridge_bus size) size (λ s. s.0) (λ s. s.1)
bridge size = record {
  reports = λ s f h. (s, s.0, 0, [], refl, refl);
  takes_eid = λ s f operation eid h. ((eid, s.1), [], refl, refl, refl);
  takes_pool = λ s f number first h. ((s.0, (first, number)), [], refl, refl, refl);
}

-- A bridge that asks for 16 EIDs.
abbrev owner : Owner State
owner = record { ctx = start; next_eid = 0x80; bus = (0, (0, 0)) }

discover-Bridge_example :
    (e : EndpointContext) × (s' : Owner State) × (discover (bridge_bus 16) owner
      ≡ (s', returns (ok e)))
    × (s'.next_eid ≡ 0x91)
    × (s'.bus.0 ≡ 0x80)
    × (e.dynamic_eid_pool_size ≡ 16)
    × (((2 ≤ 16)
          × (e.min_dynamic_eid ≡ 0x81)
          × (e.max_dynamic_eid ≡ 0x90)
          × (s'.bus.1 ≡ (0x81, 16)))
        ⊎ ((16 < 2) × (s'.bus.1 ≡ (0, 0))))
discover-Bridge_example = discover-Bridge (bridge_bus 16) (bridge 16) owner (omega arith)
