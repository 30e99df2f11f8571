-- ===== src/Endpoint/Program/Tests.antt =====
-- The theorems on the whole program at a concrete channel and endpoint.
use mctp_emu.Prelude.{
  ℕ, ◌+◌, ◌≤◌, ◌<◌, ◌≡◌, ◌⊎◌, ◌↔◌, refl, List, [], ◌∷◌, ◌++◌, length, Option, some, none, Bool,
  true, arith,
}
use mctp_emu.Crates.Reference.{reference}
use mctp_emu.Crates.Mpsc.{Mpsc, list_channel}
use mctp_emu.Base.Errors.{ok}
use mctp_emu.Endpoint.Context.{MctpEndpointContext, returns}
use mctp_emu.Endpoint.BusOwner.{EndpointContext, Owner}
use mctp_emu.Endpoint.BusOwner.Discovery
use mctp_emu.Endpoint.BusOwner.Discovery.{discover}
use mctp_emu.Endpoint.Program.Main.{main_loop, main_loop-ok}
use mctp_emu.Endpoint.Program.Served.{Programs, Rested, programs_bus, discover-programs_bus}
use mctp_emu.Endpoint.Transport.{PhysicalTransportCommands, Done, receive_msg, main_context}
use mctp_emu.Endpoint.Transport.Frames.{datagram}
use mctp_emu.Endpoint.Transport.Tests.{pec, asking}
use mctp_emu.Endpoint.Program.{Program, capacity, start, receive, handle, share}
use mctp_emu.Endpoint.Program.Queue.{waiting}
use mctp_emu.Endpoint.Program.Runs.{
  Act, context, commands, handled, done, perform, arrives, handles, shares, here, next,
}
use mctp_emu.Endpoint.Program.Order.{Run-perform}
use mctp_emu.Prelude.{All, IsByte}
use mctp_emu.Endpoint.Program.Assigned.{Run-Assigned}
use mctp_emu.Endpoint.Responder.Requests.{request}
use mctp_emu.Endpoint.Responder.Tests.{front}
use mctp_emu.Prelude.{inr}
use mctp_emu.Endpoint.Program.Flood.{receive_all, receive_all-reader_up}

abbrev Cmd : Type 0
Cmd = PhysicalTransportCommands ℕ

abbrev channel : Mpsc capacity Cmd (List Cmd)
channel = list_channel capacity Cmd

abbrev listening : ℕ → Bool
listening resp = true

abbrev asks : MctpEndpointContext → MctpEndpointContext
asks ctx = record ctx { perform_discovery = true }

-- A request comes, another one comes, the first is handled, and the context changes.
abbrev first : Program ℕ (List Cmd) × List Cmd
first = receive channel (start channel main_context) (datagram pec asking)

abbrev second : Program ℕ (List Cmd) × List Cmd
second = receive channel first.0 (datagram pec asking)

abbrev third : Program ℕ (List Cmd) × Option (Cmd × Done ℕ)
third = handle channel pec true listening second.0

abbrev entered : List Cmd
entered = first.1 ++ (second.1 ++ [])

abbrev acts : List (Act ℕ)
acts = handled third.1 ++ (context asks ∷ [])

abbrev came : List (Done ℕ)
came = done third.1 ++ []

Run-perform_example :
    (perform channel pec true listening acts (start channel main_context).transport
      ≡ ((share asks third.0).transport, came))
    × (rest : List Cmd) × (entered ≡ commands acts ++ rest)
    × (((share asks third.0).queue ≡ none) ⊎ (rest ≡ waiting channel (share asks third.0)))
    × (length (waiting channel (share asks third.0)) ≤ capacity)
Run-perform_example =
    Run-perform channel pec true listening main_context (share asks third.0) entered acts came (
      next (arrives (datagram pec asking))
        (next (arrives (datagram pec asking)) (next handles (next (shares asks) here))))

-- A request that gives the endpoint the EID 9 comes, and is handled.
abbrev setting : List ℕ
setting = request front 0x01 (0 ∷ 9 ∷ [])

abbrev set_came : Program ℕ (List Cmd) × List Cmd
set_came = receive channel (start channel main_context) (datagram pec setting)

abbrev set_done : Program ℕ (List Cmd) × Option (Cmd × Done ℕ)
set_done = handle channel pec true listening set_came.0

abbrev is_setting : All IsByte (datagram pec setting)
is_setting = (
  omega arith,
  (
    omega arith,
    (
      omega arith,
      (
        omega arith,
        (
          omega arith,
          (
            omega arith,
            (
              omega arith,
              (
                omega arith,
                (
                  omega arith,
                  (omega arith, (omega arith, (omega arith, (omega arith, (omega arith, tt))))),
                ),
              ),
            ),
          ),
        ),
      ),
    ),
  ),
)

Run-Assigned_example : set_done.0.transport.ctx.assigned_eid < 10
unfolding receive mctp_emu.Endpoint.Transport.read_socket handle
Run-Assigned_example =
    Run-Assigned channel pec true listening (λ eid. eid < 10) main_context set_done.0
      (set_came.1 ++ []) (handled set_done.1 ++ []) (done set_done.1 ++ []) (omega arith)
      (is_setting, tt) (inr (omega arith), tt) tt
      (next (arrives (datagram pec setting)) (next handles here))

-- Three datagrams to a channel with two commands in it.
abbrev short : List (List ℕ)
short = (1 ∷ []) ∷ (2 ∷ []) ∷ (3 ∷ []) ∷ []

abbrev two : List Cmd
two = receive_msg (1 ∷ []) ∷ receive_msg [] ∷ []

abbrev busy : Program ℕ (List Cmd)
busy = record (start channel main_context) { queue = some two }

receive_all-reader_up_example :
    ((receive_all channel short busy).reader_up ≡ true) ↔ (length two + length short ≤ capacity)
receive_all-reader_up_example =
    receive_all-reader_up channel short busy two refl refl (omega arith)
      (omega arith, (omega arith, (omega arith, tt)))

-- Two programs as `main` starts them, on one bus.
abbrev near_channel :
    Mpsc capacity
      (PhysicalTransportCommands (Unit {0}))
      (List (PhysicalTransportCommands (Unit {0})))
near_channel = list_channel capacity (PhysicalTransportCommands (Unit {0}))

abbrev Both : Type 0
Both = Programs near_channel channel pec listening

abbrev main_owner : Owner Both
main_owner =
    Discovery.start main_context (start near_channel main_context, start channel main_context)

discover-programs_bus_example :
    (e : EndpointContext) × (s' : Owner Both) × (discover
        (programs_bus near_channel channel pec listening)
        main_owner
      ≡ (s', returns (ok e)))
    × (s'.bus.1.transport.ctx ≡ record main_context { assigned_eid = 0x80 })
    × (s'.next_eid ≡ 0x81)
    × Rested near_channel channel pec listening s'.bus
discover-programs_bus_example =
    discover-programs_bus near_channel channel pec listening main_owner
      (((refl, [], refl, refl), refl), ((refl, [], refl, refl), refl)) (omega arith)

abbrev noticed : List (MctpEndpointContext → MctpEndpointContext)
noticed = asks ∷ asks ∷ asks ∷ []

main_loop-ok_example :
    ((main_loop near_channel channel pec listening noticed main_owner.bus).1 ≡ returns (ok tt))
    ↔ (length noticed < 128)
main_loop-ok_example =
    main_loop-ok near_channel channel pec listening noticed main_owner.bus
      (((refl, [], refl, refl), refl), ((refl, [], refl, refl), refl))
      ((λ ctx. refl), ((λ ctx. refl), ((λ ctx. refl), tt)))
