-- ===== src/Endpoint/Program/Assigned.antt =====
-- Where the EID of the endpoint comes from, over runs of the whole program.
use mctp_emu.Prelude.{ℕ, List, [], ◌∷◌, Bool, All, All-prefix}
use mctp_emu.Crates.{Crates}
use mctp_emu.Crates.Mpsc.{Mpsc}
use mctp_emu.Endpoint.Context.{MctpEndpointContext}
use mctp_emu.Endpoint.Responder.Assigned.{Assigned}
use mctp_emu.Endpoint.Transport.{Transport, Done, PhysicalTransportCommands}
use mctp_emu.Endpoint.Transport.Assigned.{IsCommand, SetsEid, handle_cmd-Assigned}
use mctp_emu.Endpoint.Program.{Program, capacity, start}
use mctp_emu.Endpoint.Program.Runs.{Act, command, context, commands, perform, Run}
use mctp_emu.Endpoint.Program.Order.{Run-perform}

-- The changes that the bus owner makes to the context.
abbrev pub contexts : {S : Type 0} → List (Act S) → List (MctpEndpointContext → MctpEndpointContext)
contexts [] = []
contexts (command cmd ∷ acts) = contexts acts
contexts (context f ∷ acts) = f ∷ contexts acts

-- A change of the context that leaves P true of its EID.
abbrev pub KeepsEid : (ℕ → Type 0) → (MctpEndpointContext → MctpEndpointContext) → Type 0
KeepsEid P f = (ctx : MctpEndpointContext) → Assigned P ctx → Assigned P (f ctx)

module _ ⦃c : Crates⦄ {S Q : Type 0} (m : Mpsc capacity (PhysicalTransportCommands S) Q)
    (pec : List ℕ → ℕ) (socket_up : Bool) (listening : S → Bool) (P : ℕ → Type 0) where
  perform-Assigned :
      (acts : List (Act S)) (t : Transport S)
      → Assigned P t.ctx
      → All IsCommand (commands acts)
      → All (SetsEid P) (commands acts)
      → All (KeepsEid P) (contexts acts)
      → Assigned P (perform m pec socket_up listening acts t).0.ctx
  unfolding perform
  perform-Assigned [] t k b h w = k
  perform-Assigned (command cmd ∷ acts) t k b h w =
      perform-Assigned acts _ (handle_cmd-Assigned pec socket_up listening P t cmd k b.0 h.0) b.1
        h.1 w
  perform-Assigned (context f ∷ acts) t k b h w =
      perform-Assigned acts (record t { ctx = f t.ctx }) (w.0 t.ctx k) b h w.1

  -- In any run of the program's tasks a property of the endpoint's EID is kept that only Set Endpoint ID
  -- requests could break: if P holds of the EID at first and of the EID in every Set Endpoint ID request
  -- among the datagrams that enter the channel, the bus owner's changes of the context keep it, and all
  -- that enters is made of bytes, then P holds of the EID at the end.
  pub Run-Assigned :
      (ctx : MctpEndpointContext) (u : Program S Q) (es : List (PhysicalTransportCommands S))
      (bs : List (Act S)) (ds : List (Done S))
      → Assigned P ctx
      → All IsCommand es
      → All (SetsEid P) es
      → All (KeepsEid P) (contexts bs)
      → Run m pec socket_up listening (start m ctx) es bs ds u
      → Assigned P u.transport.ctx
  Run-Assigned ctx u es bs ds k b h w r =
      let (same, rest, order, _, _) = Run-perform m pec socket_up listening ctx u es bs ds r in
      rw same at (
        perform-Assigned bs (start m ctx).transport k
          (All-prefix IsCommand (commands bs) rest (rw order at b))
          (All-prefix (SetsEid P) (commands bs) rest (rw order at h)) w)
