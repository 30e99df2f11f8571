-- ===== src/Network/Simple.antt =====
-- src/network/simple_network.rs: the network over one binding. A `sendto` is its steps up to the wait for
-- the response, which comes with a later call of the callback handler, and what it makes of the response.
-- A channel on which a response is awaited is a value of `S`, and the handle of a task one of `J`; the
-- caller makes both.
pub mod Exchange
pub mod Life
pub mod Abandoned
pub mod OverSmbus
pub mod OverProgram
pub mod Lock
pub mod Requests
pub mod Turns
pub mod Tests
use mctp_emu.Prelude.{
  ℕ, List, [], ◌∷◌, ◌++◌, drop, Option, none, some, Bool, true, false, ◌==◌, if◌then◌else◌,
}
use mctp_emu.Prelude.Int.{ℤ}
use mctp_emu.Crates.{Crates}
use mctp_emu.Base.Errors
use mctp_emu.Base.Wire.{to_bytes, try_from}
use mctp_emu.Base.TransportHeader
use mctp_emu.Emu.{
  MctpEmuResult, ok, err, panics, invalid_binding_error, other_network, ◌>>=◌, ◌>>◌, MctpEmuError,
}
use mctp_emu.Endpoint.Flow.{MsgFlowTag, create_tag, take_flow}
use mctp_emu.Phys.Smbus.{header_wire, SmbusPhysTransportHeader, NetworkBindingCallbackMsg}
use mctp_emu.Network.Types.{SocketAddress, basic, extended, ClientCallbackMsg, Client}
use mctp_emu.Network.Clients
use mctp_emu.Network.Clients.{Clients, get_client, no_clients}

-- The trait `NetworkBinding`, as far as `sendto` uses it.
pub record NetworkBinding : Type 0 where
  pub transmit : (buf : List ℕ) (phy_addr : ℕ) → MctpEmuResult (Unit {0})

-- `poisoned`: the callback handler panicked while it held the lock of the flows. Its task is gone, and
-- the lock cannot be taken any more.
pub record SimpleNetwork (S J : Type 0) : Type 0 where
  pub sockets : Clients
  pub flows : List (MsgFlowTag × S)
  pub poisoned : Bool
  pub callback_handles : List J

-- `SimpleNetwork::new`, with the handle of the callback handler's task.
abbrev pub new : {S J : Type 0} → J → SimpleNetwork S J
new handler = record {
  sockets = no_clients;
  flows = [];
  poisoned = false;
  callback_handles = handler ∷ [];
}

module _ {S J : Type 0} where
  -- `socket`.
  unfoldable pub socket : SimpleNetwork S J → SimpleNetwork S J × ℤ
  socket net = let (t, sd) = Clients.socket net.sockets in (record net { sockets = t }, sd)

  -- `bind`.
  unfoldable pub bind :
      SimpleNetwork S J
      → ℤ
      → (address msg_type tag : ℕ) → SimpleNetwork S J × MctpEmuResult (Unit {0})
  bind net sd address msg_type tag = elim (Clients.bind net.sockets sd address msg_type tag) [
    | ok t ↦ (record net { sockets = t }, ok tt)
    | err e ↦ (net, err e)
    | panics ↦ (net, panics)
  ]

  -- `add_physical_binding`; `bind` is that of the binding, and its handle is kept under the id 1.
  unfoldable pub add_physical_binding :
      {B : Type 0}
      → (bind : ℕ → B → B × MctpEmuResult J) → SimpleNetwork S J
      → B
      → (B × SimpleNetwork S J) × MctpEmuResult (Unit {0})
  add_physical_binding bind net binding =
      let (binding', r) = bind 1 binding in
      elim r [
        | ok handle ↦ (
          (binding', record net { callback_handles = net.callback_handles ++ (handle ∷ []) }),
          ok tt,
        )
        | err e ↦ ((binding', net), err (MctpEmuError.network other_network))
        | panics ↦ ((binding', net), panics)
      ]

  -- `join_handles`: the handles are taken out.
  unfoldable pub join_handles : SimpleNetwork S J → SimpleNetwork S J × List J
  join_handles net = (record net { callback_handles = [] }, net.callback_handles)

-- `get_binding`: the one binding has the id 1.
unfoldable pub get_binding : ℕ → MctpEmuResult (Unit {0})
get_binding binding_id =
    if binding_id == 1 then ok tt else err (MctpEmuError.network (invalid_binding_error binding_id))

-- `.unwrap()`.
abbrev pub unwrap {ℓ} : {A : Type ℓ} → MctpEmuResult A → MctpEmuResult A
unwrap (ok a) = ok a
unwrap _ = panics

abbrev pub or_no_tag : Option MsgFlowTag → MctpEmuResult MsgFlowTag
or_no_tag (some tag) = ok tag
or_no_tag none = err (MctpEmuError.network other_network)

-- What becomes of a packet: the callback handler drops it, hands it to a flow's channel, finds no flow for
-- it, panics on a channel that nobody listens to any more, or is not there to receive it.
pub data Received (S : Type 0) : Type 0 where
  dropped : Received S
  delivered : (resp : S) (msg : ClientCallbackMsg) → Received S
  unclaimed : Received S
  aborted : (resp : S) → Received S
  unheard : Received S

module _ ⦃c : Crates⦄ where
  -- The packet that `sendto` builds for a client.
  unfoldable pub packet : Client → (address : ℕ) → List ℕ → List ℕ
  packet client address payload =
      let hdr =
        TransportHeader.new client.address address client.tag (some true) (some true) (some true) in
      to_bytes TransportHeader.wire hdr ++ payload

-- The response that is handed to a flow.
abbrev pub response : (id : ℕ) → List ℕ → ClientCallbackMsg
response id buf = ClientCallbackMsg.receive (extended 0 1 id 0) buf

-- The end of `sendto`: what it makes of the response, or of a channel that closed without one.
unfoldable pub finish : Option ClientCallbackMsg → MctpEmuResult (SocketAddress × List ℕ)
finish (some (ClientCallbackMsg.receive addr buf)) = ok (addr, buf)
finish none = err (MctpEmuError.network other_network)

module _ ⦃c : Crates⦄ {S J : Type 0} where
  -- The flow of a request is put behind those that are pending.
  abbrev pub enqueue :
      SimpleNetwork S J
      → S
      → (buf : List ℕ) → MsgFlowTag
      → SimpleNetwork S J × MctpEmuResult (List ℕ)
  enqueue net resp_tx buf tag =
      if net.poisoned
      then (net, panics)
      else (record net { flows = net.flows ++ ((tag, resp_tx) ∷ []) }, ok buf)

  -- `?`: an error or a panic leaves the network as it is.
  abbrev pub checked :
      {A : Type 0}
      → SimpleNetwork S J
      → MctpEmuResult A
      → (A → SimpleNetwork S J × MctpEmuResult (List ℕ))
      → SimpleNetwork S J × MctpEmuResult (List ℕ)
  checked net (ok a) f = f a
  checked net (err e) f = (net, err e)
  checked net panics f = (net, panics)

  -- `sendto` up to the lock of the binding: the flow is there before the lock is asked for.
  unfoldable pub begin :
      SimpleNetwork S J
      → S
      → (sd : ℤ) (payload : List ℕ) → SocketAddress
      → SimpleNetwork S J × MctpEmuResult (List ℕ)
  begin net resp_tx sd payload (basic address msg_type tag) = (net, panics)
  begin net resp_tx sd payload (extended address network binding_id phy_addr) =
      checked net (get_binding binding_id) λ found.
        checked net (get_client net.sockets sd) λ client.
          let buf = packet client address payload in
          checked net (or_no_tag (create_tag buf)) λ tag. enqueue net resp_tx buf tag

  -- With the lock of the binding: `transmit(..).unwrap()`.
  abbrev pub put :
      NetworkBinding
      → (phy_addr : ℕ) → SimpleNetwork S J × MctpEmuResult (List ℕ)
      → SimpleNetwork S J × MctpEmuResult (List ℕ)
  put binding phy_addr (net, ok buf) =
      (net, (unwrap (binding.transmit buf phy_addr) >>= λ sent. ok buf))
  put binding phy_addr (net, err e) = (net, err e)
  put binding phy_addr (net, panics) = (net, panics)

  -- `sendto`, up to the wait, where no other call holds the lock of the binding: the network that it leaves,
  -- and the packet sent. A call keeps the lock until its response comes; the calls behind it are in Lock.
  unfoldable pub sendto :
      NetworkBinding
      → SimpleNetwork S J
      → S
      → (sd : ℤ) (payload : List ℕ) → SocketAddress
      → SimpleNetwork S J × MctpEmuResult (List ℕ)
  sendto binding net resp_tx sd payload (basic address msg_type tag) = (net, panics)
  sendto binding net resp_tx sd payload (extended address network binding_id phy_addr) =
      put binding phy_addr
        (begin net resp_tx sd payload (extended address network binding_id phy_addr))

  -- `resp.send(response).unwrap()` on the flow that was taken out, with the lock of the flows held.
  abbrev pub hand_over :
      (listening : S → Bool)
      → SimpleNetwork S J
      → ClientCallbackMsg
      → Option ((MsgFlowTag × S) × List (MsgFlowTag × S))
      → SimpleNetwork S J × Received S
  hand_over listening net msg none = (net, unclaimed)
  hand_over listening net msg (some ((tag, resp), flows)) =
      if listening resp
      then (record net { flows = flows }, delivered resp msg)
      else (record net { flows = flows; poisoned = true }, aborted resp)

  abbrev pub match_flow :
      (listening : S → Bool)
      → SimpleNetwork S J
      → ClientCallbackMsg
      → Option MsgFlowTag
      → SimpleNetwork S J × Received S
  match_flow listening net msg none = (net, dropped)
  match_flow listening net msg (some recv_tag) =
      hand_over listening net msg (take_flow recv_tag net.flows)

  abbrev pub past_header :
      (listening : S → Bool)
      → SimpleNetwork S J
      → (id : ℕ) (buf : List ℕ) → Errors.Result SmbusPhysTransportHeader
      → SimpleNetwork S J × Received S
  past_header listening net id buf (Errors.err e) = (net, dropped)
  past_header listening net id buf (Errors.ok hdr) =
      let rest = drop 4 buf in match_flow listening net (response id rest) (create_tag rest)

  -- One message of `callback_handler`; `listening` is whether a flow's receiver is still there.
  unfoldable pub callback :
      (listening : S → Bool)
      → SimpleNetwork S J
      → NetworkBindingCallbackMsg
      → SimpleNetwork S J × Received S
  callback listening net (NetworkBindingCallbackMsg.receive id buf) =
      if net.poisoned
      then (net, unheard)
      else past_header listening net id buf (try_from header_wire buf)
