-- ===== src/Endpoint/Program.antt =====
-- examples/basic_bus_owner_loop.rs, `main` as a whole: the task that reads the socket, the channel of
-- commands, the task that owns the socket, and the bus owner, which sends commands too and shares the
-- context. The channel is tokio's; `socket_up`, `listening` and `pec` are those of Endpoint.Transport.
pub mod Queue
pub mod Runs
pub mod Closed
pub mod Order
pub mod Flood
pub mod Pass
pub mod Served
pub mod Main
pub mod Assigned
pub mod Tests
use mctp_emu.Prelude.{ℕ, List, [], ◌∷◌, take, Option, none, some, Bool, true, false, if◌then◌else◌}
use mctp_emu.Crates.{Crates}
use mctp_emu.Crates.Mpsc.{Mpsc}
use mctp_emu.Endpoint.Context.{MctpEndpointContext}
use mctp_emu.Endpoint.Transport.{
  Transport, Done, aborted, PhysicalTransportCommands, read_socket, handle_cmd,
}

-- `mpsc::channel(32)`, and the buffer that a datagram is read into.
abbrev pub capacity : ℕ
capacity = 32

abbrev pub buffer_size : ℕ
buffer_size = 4096

-- `queue` is the channel: when the task that owns the socket panics, its receiver is dropped, and the
-- channel is closed. `reader_up` is whether the task that reads the socket still runs.
pub record Program (S Q : Type 0) : Type 0 where
  pub transport : Transport S
  pub queue : Option Q
  pub reader_up : Bool

module _ {S Q : Type 0} (m : Mpsc capacity (PhysicalTransportCommands S) Q) where
  abbrev pub start : MctpEndpointContext → Program S Q
  start ctx = record {
    transport = record { ctx = ctx; pending_cmd = [] };
    queue = some m.channel;
    reader_up = true;
  }

  -- `try_send` on a channel that may be closed.
  abbrev pub try_send : Option Q → PhysicalTransportCommands S → Option Q
  try_send none cmd = none
  try_send (some q) cmd = m.try_send q cmd

  -- `mctp_cn_tx_2.try_send(cmd).unwrap()`: the command enters the channel, or the reader panics.
  abbrev pub pass_on :
      Program S Q
      → PhysicalTransportCommands S
      → Option Q
      → Program S Q × List (PhysicalTransportCommands S)
  pass_on p cmd (some q) = (record p { queue = some q }, cmd ∷ [])
  pass_on p cmd none = (record p { reader_up = false }, [])

  abbrev pub offer :
      Program S Q
      → Option (PhysicalTransportCommands S)
      → Program S Q × List (PhysicalTransportCommands S)
  offer p none = (p, [])
  offer p (some cmd) = pass_on p cmd (try_send p.queue cmd)

  -- A datagram comes: what fits in the buffer is read. The second result is what enters the channel.
  unfoldable pub receive : Program S Q → List ℕ → Program S Q × List (PhysicalTransportCommands S)
  receive p datagram =
      if p.reader_up then offer p (read_socket (take buffer_size datagram)) else (p, [])

  -- `tx_cn.send(cmd)` of the bus owner. Where the command does not enter the channel, the bus owner waits
  -- for room, or gets an error if the channel is closed.
  abbrev pub wait_for :
      Program S Q
      → PhysicalTransportCommands S
      → Option Q
      → Program S Q × List (PhysicalTransportCommands S)
  wait_for p cmd (some q) = (record p { queue = some q }, cmd ∷ [])
  wait_for p cmd none = (p, [])

  unfoldable pub send :
      Program S Q → PhysicalTransportCommands S → Program S Q × List (PhysicalTransportCommands S)
  send p cmd = wait_for p cmd (try_send p.queue cmd)

  module _ ⦃c : Crates⦄ (pec : List ℕ → ℕ) (socket_up : Bool) (listening : S → Bool) where
    -- What is left after a command: a panic takes the receiver along.
    abbrev pub after_cmd : Program S Q → Q → Transport S × Done S → Program S Q
    after_cmd p q (t, aborted) = record p { transport = t; queue = none }
    after_cmd p q (t, d) = record p { transport = t; queue = some q }

    abbrev pub handle_next :
        Program S Q
        → Option (PhysicalTransportCommands S × Q)
        → Program S Q × Option (PhysicalTransportCommands S × Done S)
    handle_next p none = (p, none)
    handle_next p (some (cmd, q)) =
        let r = handle_cmd pec socket_up listening p.transport cmd in
        (after_cmd p q r, some (cmd, r.1))

    abbrev pub recv : Option Q → Option (PhysicalTransportCommands S × Q)
    recv none = none
    recv (some q) = m.recv q

    -- One round of the loop of the task that owns the socket.
    unfoldable pub handle :
        Program S Q → Program S Q × Option (PhysicalTransportCommands S × Done S)
    handle p = handle_next p (recv p.queue)

-- The bus owner changes the context.
abbrev pub share :
    {S Q : Type 0} → (MctpEndpointContext → MctpEndpointContext) → Program S Q → Program S Q
share f p = record p { transport = record p.transport { ctx = f p.transport.ctx } }
