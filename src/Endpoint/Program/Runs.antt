-- ===== src/Endpoint/Program/Runs.antt =====
-- The runs of the program: its tasks in any order.
use mctp_emu.Prelude.{ℕ, List, [], ◌∷◌, ◌++◌, Option, none, some, Bool}
use mctp_emu.Crates.{Crates}
use mctp_emu.Crates.Mpsc.{Mpsc}
use mctp_emu.Endpoint.Context.{MctpEndpointContext}
use mctp_emu.Endpoint.Transport.{Transport, Done, PhysicalTransportCommands, handle_cmd}
use mctp_emu.Endpoint.Program.{Program, capacity, receive, send, handle, share}

-- What happens to the state of the task that owns the socket: it handles a command, or the bus owner
-- changes the context.
pub data Act (S : Type 0) : Type 0 where
  command : (cmd : PhysicalTransportCommands S) → Act S
  context : (f : MctpEndpointContext → MctpEndpointContext) → Act S

module _ {S : Type 0} where
  abbrev pub commands : List (Act S) → List (PhysicalTransportCommands S)
  commands [] = []
  commands (command cmd ∷ acts) = cmd ∷ commands acts
  commands (context f ∷ acts) = commands acts

  abbrev pub handled : Option (PhysicalTransportCommands S × Done S) → List (Act S)
  handled none = []
  handled (some (cmd, d)) = command cmd ∷ []

  abbrev pub done : Option (PhysicalTransportCommands S × Done S) → List (Done S)
  done none = []
  done (some (cmd, d)) = d ∷ []

module _ ⦃c : Crates⦄ {S Q : Type 0} (m : Mpsc capacity (PhysicalTransportCommands S) Q)
    (pec : List ℕ → ℕ) (socket_up : Bool) (listening : S → Bool) where
  -- The acts one after the other, without a channel.
  unfoldable pub perform : List (Act S) → Transport S → Transport S × List (Done S)
  perform [] t = (t, [])
  perform (command cmd ∷ acts) t =
      let (t', d) = handle_cmd pec socket_up listening t cmd in
      let (t'', ds) = perform acts t' in (t'', d ∷ ds)
  perform (context f ∷ acts) t = perform acts (record t { ctx = f t.ctx })

  -- A step, with the commands that enter the channel, the acts, and what comes of the commands handled.
  pub data Step (p : Program S Q)
      : (entered : List (PhysicalTransportCommands S)) (acts : List (Act S)) (ds : List (Done S))
        → Program S Q
        → Type 0 where
    arrives : (datagram : List ℕ) → Step p (receive m p datagram).1 [] [] (receive m p datagram).0
    sends : (cmd : PhysicalTransportCommands S) → Step p (send m p cmd).1 [] [] (send m p cmd).0
    handles :
        Step p []
          (handled (handle m pec socket_up listening p).1)
          (done (handle m pec socket_up listening p).1)
          (handle m pec socket_up listening p).0
    shares :
        (f : MctpEndpointContext → MctpEndpointContext) → Step p [] (context f ∷ []) [] (share f p)

  -- A run, with all of these in their order.
  pub data Run
      : Program S Q
        → (entered : List (PhysicalTransportCommands S)) (acts : List (Act S)) (ds : List (Done S))
        → Program S Q
        → Type 0 where
    here : {p : Program S Q} → Run p [] [] [] p
    next :
        {p t u : Program S Q} {a es : List (PhysicalTransportCommands S)} {b bs : List (Act S)}
        {d ds : List (Done S)}
        → Step p a b d t
        → Run t es bs ds u
        → Run p (a ++ es) (b ++ bs) (d ++ ds) u
