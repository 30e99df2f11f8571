-- ===== src/Endpoint/BusOwner/Tests.antt =====
-- The theorems on the bus owner at a concrete bus.
use mctp_emu.Prelude.{
  ◌+◌, refl, Bool, false, All, Pairwise, ◌⊎◌, ℕ, ◌≡◌, ap, ◌≤◌, ◌<◌, List, [], ◌∷◌, true, arith,
}
use mctp_emu.Base.Errors.{ok}
use mctp_emu.Crates.Reference.{reference}
use mctp_emu.Endpoint.Context.{MctpEndpointContext, returns, panics}
use mctp_emu.Endpoint.Responder.Tests.{start, front}
use mctp_emu.Endpoint.Responder.Requests.{request, answer}
use mctp_emu.Endpoint.BusOwner.{Owner, EndpointContext, Reply, closed}
use mctp_emu.Endpoint.BusOwner.Discovery
use mctp_emu.Endpoint.BusOwner.Distinct
use mctp_emu.Endpoint.BusOwner.Distinct.{Given, nothing, discoveries-Pairwise}
use mctp_emu.Endpoint.BusOwner.Tasks.{Tasks, tasks_bus, Idle, tasks_bus-Serves}
use mctp_emu.Endpoint.BusOwner.Rounds.{rounds-live, rounds-exhausted}
use mctp_emu.Endpoint.Transport.{Transport, transmitted, main_context}
use mctp_emu.Endpoint.Transport.Frames.{datagram}
use mctp_emu.Endpoint.BusOwner.Notified.{notified, round-notified}
use mctp_emu.Endpoint.Transport.Tests.{pec, fresh}
use mctp_emu.Endpoint.BusOwner.Discovery.{round, rounds, discover}
use mctp_emu.Endpoint.BusOwner.Serves.{endpoint_bus}
use mctp_emu.Endpoint.BusOwner.Assignment.{Has, discover-Has}
use mctp_emu.Endpoint.BusOwner.Answered.{discover-Serves}
use mctp_emu.Endpoint.BusOwner.Pool.{rounds-next_eid}
use mctp_emu.Endpoint.BusOwner.Serves.{Serves, endpoint_bus-Serves}
use mctp_emu.Endpoint.BusOwner.Sent.{Logged, logged}

abbrev owner : Owner MctpEndpointContext
owner = record { ctx = start; next_eid = 8; bus = start }

-- A bus on which nothing ever answers, and two rounds, the second with a discovery asked for.
abbrev silent : MctpEndpointContext → List ℕ → MctpEndpointContext × Reply
silent b bytes = (b, closed)

abbrev others : List (MctpEndpointContext → MctpEndpointContext)
others = (λ ctx. ctx) ∷ (λ ctx. record ctx { perform_discovery = true }) ∷ []

rounds-next_eid_example :
    (8 ≤ (rounds silent 0 others owner).0.next_eid)
    × ((rounds silent 0 others owner).0.next_eid < 256)
rounds-next_eid_example = rounds-next_eid MctpEndpointContext silent 0 others owner (omega arith)

-- An endpoint that answers by `handle_request` behind a bus that keeps the packets.
logged-Serves :
    Serves
      (logged endpoint_bus)
      (λ (b : Logged MctpEndpointContext). b.1)
      (λ (b : Logged MctpEndpointContext). Unit {0})
logged-Serves = record {
  serve = λ b f n body ctx reply r h s s' replied.
      let (b', trail, e, ready, same) =
        endpoint_bus-Serves.serve (b.1) f n body ctx reply r h s s' replied in
      (
        (request f n body ∷ b.0, b'),
        trail,
        ap (λ (q : MctpEndpointContext × Reply). ((request f n body ∷ b.0, q.0), q.1)) e,
        ready,
        same,
      );
}

abbrev logged_owner : Owner (Logged MctpEndpointContext)
logged_owner = record { ctx = start; next_eid = 8; bus = ([], start) }

-- A discovery from an owner that can still take an EID.
abbrev Discovered : Owner (Logged MctpEndpointContext) → Type 0
Discovered s =
    (e : EndpointContext) × (s' : Owner (Logged MctpEndpointContext)) × (discover
        (logged endpoint_bus) s
      ≡ (s', returns (ok e)))
    × (s'.next_eid ≡ s.next_eid + 1)

discovered : (s : Owner (Logged MctpEndpointContext)) → s.next_eid + 1 < 256 → Discovered s
discovered s h = let (e, s', d, m, n, _, _) = discover-Serves logged-Serves s tt h in (e, s', d, n)

abbrev found : Discovered logged_owner
found = discovered logged_owner (omega arith)

discover-Has_example : Has 8 (found.1).next_eid [] (found.1).bus.0 found.0
discover-Has_example = discover-Has endpoint_bus logged_owner (found.1) found.0 (found.2)

-- The same endpoint, found a second time, its packets kept apart.
abbrev later_owner : Owner (Logged MctpEndpointContext)
later_owner = record (found.1) { bus = ([], (found.1).bus.1) }

abbrev again : Discovered later_owner
again = discovered later_owner (omega (arith, found.3))

abbrev both : List Given
both =
    record { from = 8; endpoint = found.0; to = (found.1).next_eid; sent = (found.1).bus.0 }
    ∷ record {
      from = (found.1).next_eid;
      endpoint = again.0;
      to = (again.1).next_eid;
      sent = (again.1).bus.0;
    }
    ∷ []

discoveries-Pairwise_example :
    All (λ g. Has g.from g.to [] g.sent g.endpoint) both × Pairwise (λ g h. g.to ≤ h.from) both
discoveries-Pairwise_example = discoveries-Pairwise endpoint_bus logged_owner (again.1) both (
    Distinct.found start start found.0 (found.1) (found.2)
      (Distinct.found (found.1).ctx ((found.1).bus.1) again.0 (again.1) (again.2) nothing))

-- The bus owner of `main`, with the tasks of two fresh endpoints.
abbrev deaf : ℕ → Bool
deaf resp = false

abbrev near : Transport (Unit {0})
near = record { ctx = main_context; pending_cmd = [] }

abbrev main_owner : Owner (Tasks ℕ)
main_owner = Discovery.start main_context (near, fresh)

abbrev asks : MctpEndpointContext → MctpEndpointContext
asks ctx = record ctx { perform_discovery = true }

abbrev idle : MctpEndpointContext → MctpEndpointContext
idle ctx = ctx

-- A round with a discovery, a ping of its endpoint, and another discovery.
rounds-live_example :
    (s' : Owner (Tasks ℕ)) × (rounds (tasks_bus pec deaf) 0x80 (asks ∷ idle ∷ asks ∷ []) main_owner
      ≡ (s', returns (ok tt)))
    × (0x80 ≤ s'.next_eid)
    × (s'.next_eid ≤ 0x83)
    × (((s'.next_eid ≡ 0x80) × (s'.bus.1.ctx ≡ main_context))
        ⊎ (s'.bus.1.ctx.assigned_eid + 1 ≡ s'.next_eid))
    × Idle s'.bus
rounds-live_example =
    rounds-live (tasks_bus-Serves pec deaf) 0x80 (asks ∷ idle ∷ asks ∷ []) main_owner (refl, refl)
      (omega arith)

abbrev last : Owner (Tasks ℕ)
last = record main_owner { next_eid = 254 }

rounds-exhausted_example :
    (s' : Owner (Tasks ℕ)) × (rounds (tasks_bus pec deaf) 0 (asks ∷ asks ∷ []) last ≡ (s', panics))
rounds-exhausted_example =
    rounds-exhausted (tasks_bus-Serves pec deaf) 0 (asks ∷ asks ∷ []) last (refl, refl)
      ((λ ctx. refl), ((λ ctx. refl), tt)) (omega arith) (omega arith)

round-notified_example :
    let (near', done) =
      notified pec deaf main_owner (0x60 ∷ 0x0f ∷ 9 ∷ 0x21 ∷ request front 0x0d []) in
    (done ≡ transmitted (datagram pec (answer front 0x0d (0 ∷ []))))
    × (s' : Owner (Tasks ℕ)) × (round
          (tasks_bus pec deaf)
          0
          (record main_owner { ctx = near'.ctx; bus = (near', fresh) })
        ≡ (s', returns (ok tt)))
    × (s'.bus.1.ctx.assigned_eid ≡ 0x80)
    × (s'.next_eid ≡ 0x81)
    × (s'.ctx.perform_discovery ≡ false)
    × Idle s'.bus
round-notified_example =
    round-notified pec deaf 0 main_owner 0x60 9 0x21 front [] (refl, refl)
      (record { flags_byte = omega arith; second_byte = omega arith }) (omega arith)
