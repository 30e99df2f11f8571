-- ===== src/Network/Simple/Turns.antt =====
-- Calls of `sendto` that are under way at once take turns on the binding.
use mctp_emu.Prelude.{ℕ, ◌≡◌, List, [], ◌∷◌, ◌++◌, map, Bool, true}
use mctp_emu.Crates.{Crates}
use mctp_emu.Base.Errors
use mctp_emu.Emu.{ok}
use mctp_emu.Endpoint.Context.{returns}
use mctp_emu.Endpoint.Responder.{handle_request}
use mctp_emu.Endpoint.Flow.Matching.{NoAnswer}
use mctp_emu.Phys.Smbus.{NetworkBindingCallbackMsg}
use mctp_emu.Network.Clients.{get_client}
use mctp_emu.Network.Simple.{NetworkBinding, SimpleNetwork, Received}
use mctp_emu.Network.Simple.Exchange.{reply_tag}
use mctp_emu.Network.Simple.Lock.{Locked, send, receive}
use mctp_emu.Network.Simple.Requests.{Request, payload, flow, request_packet, call_of}

module _ ⦃c : Crates⦄ {S J : Type 0} (binding : NetworkBinding) where
  -- The calls are made, with all the packets that the binding takes.
  unfoldable pub send_all : Locked S J → List (Request S) → Locked S J × List (List ℕ)
  send_all p [] = (p, [])
  send_all p (r ∷ rs) =
      let (p', sent) = send binding p r.resp r.sd (payload r) r.address r.network 1 r.phy_addr in
      let (p'', later) = send_all p' rs in (p'', sent ++ later)

  module _ (same : S → S → Bool) (listening : S → Bool) where
    -- The messages come.
    unfoldable pub receive_all :
        Locked S J → List NetworkBindingCallbackMsg → Locked S J × List (Received S × List (List ℕ))
    receive_all p [] = (p, [])
    receive_all p (msg ∷ msgs) =
        let (p', r) = receive binding same listening p msg in
        let (p'', later) = receive_all p' msgs in (p'', r ∷ later)

module _ ⦃c : Crates⦄ {S J : Type 0} (pec : List ℕ → ℕ) (binding : NetworkBinding)
    (same : S → S → Bool) (listening : S → Bool) where
  -- The socket of the request is bound to its client, the binding takes its packet, its endpoint replies to
  -- the packet, no older flow of the network waits for such a reply, and its channel is listened to.
  pub record Served (net : SimpleNetwork S J) (r : Request S) : Type 0 where
    pub found : get_client net.sockets r.sd ≡ ok r.client
    pub sends : binding.transmit (request_packet r) r.phy_addr ≡ ok tt
    pub answered :
        let msg = request_packet r in
        handle_request r.remote (msg ++ (pec msg ∷ [])) ≡ (r.remote', returns (Errors.ok r.reply))
    pub quiet : NoAnswer (reply_tag r.client r.address) net.flows
    pub heard : listening r.resp ≡ true
    pub itself : same r.resp r.resp ≡ true

  -- The calls of some requests, the first of which holds the lock.
  abbrev queued : SimpleNetwork S J → List (Request S) → Locked S J
  queued net rs = record {
    net = record net { flows = net.flows ++ map flow rs };
    calls = map call_of rs;
  }
