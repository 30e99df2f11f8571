-- ===== src/Endpoint/Program/Main.antt =====
-- examples/basic_bus_owner_loop.rs, the end of `main`: the bus owner's loop, over the program's own tasks, with
-- another such program at the far end of the bus.
use mctp_emu.Prelude.{
  ℕ, ◌<◌, ◌≡◌, ap, List, length, Bool, arith, inl, inr, ◌↔◌, All, ltb, Bool-cases, ltb→lt, ltb→le,
}
use mctp_emu.Crates.{Crates}
use mctp_emu.Crates.Mpsc.{Mpsc}
use mctp_emu.Base.Errors.{ok}
use mctp_emu.Endpoint.Context.{MctpEndpointContext, Outcome, returns, panics}
use mctp_emu.Endpoint.Transport.{PhysicalTransportCommands, main_context}
use mctp_emu.Endpoint.BusOwner.{Owner}
use mctp_emu.Endpoint.BusOwner.Discovery
use mctp_emu.Endpoint.BusOwner.Discovery.{rounds}
use mctp_emu.Endpoint.BusOwner.Rounds.{Asks, rounds-live, rounds-exhausted}
use mctp_emu.Endpoint.Program.{capacity}
use mctp_emu.Endpoint.Program.Served.{Programs, Rested, programs_bus, programs_bus-Serves}

module _ ⦃c : Crates⦄ {S Q Q' : Type 0} (m : Mpsc capacity (PhysicalTransportCommands (Unit {0})) Q)
    (m' : Mpsc capacity (PhysicalTransportCommands S) Q') (pec : List ℕ → ℕ)
    (listening : S → Bool) where
  -- `ctx.run_bus_owner_loop(mctp_cn_tx, 0)`: no endpoint is pinged.
  unfoldable pub main_loop :
      (others : List (MctpEndpointContext → MctpEndpointContext))
      → Programs m m' pec listening
      → Owner (Programs m m' pec listening) × Outcome (Unit {0})
  main_loop others programs =
      rounds (programs_bus m m' pec listening) 0 others (Discovery.start main_context programs)

  -- The bus owner of `main` lives through 127 discoveries of another such program and through no more:
  -- where all tasks of both programs run, no command waits and no flow is pending, and each round is asked
  -- for a discovery, the loop gets through its rounds exactly if they are fewer than 128.
  pub main_loop-ok :
      (others : List (MctpEndpointContext → MctpEndpointContext))
      (programs : Programs m m' pec listening)
      → Rested m m' pec listening programs
      → All Asks others
      → ((main_loop others programs).1 ≡ returns (ok tt)) ↔ (length others < 128)
  unfolding main_loop
  main_loop-ok others programs rested asks =
      let s = Discovery.start main_context programs in
      let v = programs_bus-Serves m m' pec listening in
      elim (Bool-cases (ltb (length others) 128)) [
        | inl e ↦
            let few = ltb→lt (length others) 128 e in
            let (s', lives, _, _, _, _) = rounds-live v 0 others s rested (omega (arith, few)) in
            (
              (λ k. few),
              (λ k.
                  ap (λ (r : Owner (Programs m m' pec listening) × Outcome (Unit {0})). r.1) lives),
            )
        | inr e ↦
            let many = ltb→le (length others) 128 e in
            let (s', dies) =
              rounds-exhausted v 0 others s rested asks (omega arith) (omega (arith, many)) in
            let gone : (main_loop others programs).1 ≡ panics =
              ap (λ (r : Owner (Programs m m' pec listening) × Outcome (Unit {0})). r.1) dies in
            ((λ k. absurd (cc (k, gone))), (λ k. absurd (omega (arith, k, many))))
      ]
