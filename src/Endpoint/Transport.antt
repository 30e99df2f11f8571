-- ===== src/Endpoint/Transport.antt =====
-- examples/basic_bus_owner_loop.rs, `main`: the task that owns the socket. It takes commands one by one,
-- to send a message or to handle a datagram that came in. The channels on which responses are awaited are
-- values of `S`, `listening` is whether somebody still listens on one, `socket_up` whether the socket
-- takes a datagram, and `pec` the checksum of the crate `smbus_pec`.
pub mod Frames
pub mod Exchange
pub mod Crash
pub mod Assigned
pub mod Tests
use mctp_emu.Prelude.{
  ℕ, ◌+◌, ◌*◌, ◌%◌, List, [], ◌∷◌, ◌++◌, drop, length, Option, none, some, Bool, true, false, ◌||◌,
  not, ltb, ◌==◌, get_elem?, if◌then◌else◌,
}
use mctp_emu.Crates.{Crates}
use mctp_emu.Base.Errors.{ok, err}
use mctp_emu.Control.MessageType.{MessageType, control}
use mctp_emu.Endpoint.Context.{MctpEndpointContext, Outcome, returns, panics}
use mctp_emu.Endpoint.Responder.{Handled, handle_request}
use mctp_emu.Endpoint.Flow.{MsgFlowTag, create_tag, take_flow}
use mctp_emu.Endpoint.BusOwner.{u8_add}

abbrev pub smbus_addr_7bit : ℕ
smbus_addr_7bit = 0x10

abbrev pub dest_smbus_addr_7bit : ℕ
dest_smbus_addr_7bit = 0x30

-- The context that `main` makes.
abbrev pub main_context : MctpEndpointContext
main_context = record {
  smbus_addr = smbus_addr_7bit;
  msg_types = 0x7e ∷ [];
  topmost_bus_owner = false;
  assigned_eid = 0;
  perform_discovery = false;
  min_eid_in_pool = 0x80;
  eid_pool_size = 32;
  next_msg_tag = 1;
  next_instance_id = 1;
}

pub data PhysicalTransportCommands (S : Type 0) : Type 0 where
  receive_msg : (buf : List ℕ) → PhysicalTransportCommands S
  send_msg : (msg_type : MessageType) (buf : List ℕ) (resp : Option S) → PhysicalTransportCommands S

-- The task that reads the socket: a datagram becomes a command, unless it is empty.
unfoldable pub read_socket : {S : Type 0} → List ℕ → Option (PhysicalTransportCommands S)
read_socket buf = if length buf == 0 then none else some (receive_msg buf)

-- The context that the task shares with the bus owner's loop, and the list `pending_cmd`.
pub record Transport (S : Type 0) : Type 0 where
  pub ctx : MctpEndpointContext
  pub pending_cmd : List (MsgFlowTag × S)

-- What comes of a command: nothing, a datagram on the socket, a response on a channel, or a panic, which
-- ends the task.
pub data Done (S : Type 0) : Type 0 where
  nothing : Done S
  transmitted : (datagram : List ℕ) → Done S
  responded : (resp : S) (buf : List ℕ) → Done S
  aborted : Done S

module _ ⦃c : Crates⦄ {S : Type 0} (pec : List ℕ → ℕ) (socket_up : Bool) where
  -- The frame around a message, from the sum `buf.len() as u8 + 1`, which can overflow.
  abbrev pub put_frame : Transport S → (buf : List ℕ) → Outcome ℕ → Transport S × Done S
  put_frame t buf (returns (ok count)) =
      let head =
        (dest_smbus_addr_7bit * 2 % 256) ∷ 0x0f ∷ count ∷ (smbus_addr_7bit * 2 % 256 + 1) ∷ [] in
      let resp_buf = head ++ buf in
      (t, (if socket_up then transmitted (resp_buf ++ (pec resp_buf ∷ [])) else aborted))
  put_frame t buf _ = (t, aborted)

  abbrev pub transmit : Transport S → (buf : List ℕ) → Transport S × Done S
  transmit t buf = put_frame t buf (u8_add (length buf % 256) 1)

  -- The flow of a message whose response is awaited.
  abbrev pub track : Transport S → (buf : List ℕ) → S → Option MsgFlowTag → Transport S × Done S
  track t buf resp none = (t, nothing)
  track t buf resp (some tag) =
      transmit (record t { pending_cmd = t.pending_cmd ++ ((tag, resp) ∷ []) }) buf

  -- `send_cmd_closure`.
  unfoldable pub send_cmd_closure :
      Transport S → MessageType → (buf : List ℕ) → Option S → Transport S × Done S
  send_cmd_closure t msg_type buf none = transmit t buf
  send_cmd_closure t msg_type buf (some resp) = track t buf resp (create_tag buf)

  -- A request for this endpoint, with what `handle_request` makes of it.
  abbrev pub answer_request : Transport S → Handled → Transport S × Done S
  answer_request t (ctx, returns (ok resp)) =
      send_cmd_closure (record t { ctx = ctx }) control resp none
  answer_request t (ctx, returns (err e)) = (record t { ctx = ctx }, nothing)
  answer_request t (ctx, panics) = (record t { ctx = ctx }, aborted)

module _ ⦃c : Crates⦄ {S : Type 0} (pec : List ℕ → ℕ) (socket_up : Bool)
    (listening : S → Bool) where
  -- A packet that answers a pending flow goes to its channel (`resp.send(..).unwrap()`); any other one is
  -- a request.
  abbrev pub claim :
      Transport S
      → (resp_buf : List ℕ) → Option ((MsgFlowTag × S) × List (MsgFlowTag × S))
      → Transport S × Done S
  claim t resp_buf none = answer_request pec socket_up t (handle_request t.ctx resp_buf)
  claim t resp_buf (some ((tag, resp), flows)) = (
    record t { pending_cmd = flows },
    (if listening resp then responded resp resp_buf else aborted),
  )

  abbrev pub match_flow :
      Transport S → (resp_buf : List ℕ) → Option MsgFlowTag → Transport S × Done S
  match_flow t resp_buf none = (t, nothing)
  match_flow t resp_buf (some recv_tag) = claim t resp_buf (take_flow recv_tag t.pending_cmd)

  -- `buf[1] != 0x0f`.
  abbrev pub is_mctp : List ℕ → Bool
  is_mctp buf = elim (get_elem? buf 1) [ none ↦ false | some b ↦ b == 0x0f ]

  -- One command of the loop.
  unfoldable pub handle_cmd : Transport S → PhysicalTransportCommands S → Transport S × Done S
  handle_cmd t (receive_msg buf) =
      if ltb (length buf) 4 || not (is_mctp buf)
      then (t, nothing)
      else let resp_buf = drop 4 buf in match_flow t resp_buf (create_tag resp_buf)
  handle_cmd t (send_msg msg_type buf resp) = send_cmd_closure pec socket_up t msg_type buf resp

  -- `while let Some(cmd) = mctp_cn_rx.recv()`: the commands in their order, up to a panic.
  abbrev pub next_cmds :
      (Transport S → Transport S × List (Done S))
      → Transport S × Done S
      → Transport S × List (Done S)
  next_cmds rest (t, aborted) = (t, aborted ∷ [])
  next_cmds rest (t, d) = let (t', ds) = rest t in (t', d ∷ ds)

  unfoldable pub handle_cmds :
      List (PhysicalTransportCommands S) → Transport S → Transport S × List (Done S)
  handle_cmds [] t = (t, [])
  handle_cmds (cmd ∷ cmds) t = next_cmds (handle_cmds cmds) (handle_cmd t cmd)
