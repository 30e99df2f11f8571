-- ===== src/Network/Simple/Abandoned.antt =====
-- A request whose sender is gone when the reply comes.
use mctp_emu.Prelude.{ℕ, ◌≡◌, refl, ◌∙◌, List, [], ◌∷◌, ◌++◌, append-nil, some, Bool, true, false}
use mctp_emu.Prelude.Int.{ℤ}
use mctp_emu.Crates.{Crates}
use mctp_emu.Emu.{MctpEmuError, ok, err, panics}
use mctp_emu.Endpoint.Flow.{create_tag}
use mctp_emu.Endpoint.Flow.Matching.{NoAnswer, take_flow-append}
use mctp_emu.Phys.Smbus.{NetworkBindingCallbackMsg}
use mctp_emu.Network.Types.{extended, Client}
use mctp_emu.Network.Clients.{get_client}
use mctp_emu.Network.Simple.{NetworkBinding, SimpleNetwork, packet, sendto, callback, aborted}
use mctp_emu.Network.Simple.Exchange.{
  sent_tag, reply_tag, packet_lem, sent_tag-answers, sendto_lem, callback_lem,
}
use mctp_emu.Network.Simple.Life.{Run, Run-poisoned}

module _ ⦃c : Crates⦄ {S J : Type 0} (binding : NetworkBinding) (listening : S → Bool)
    (net : SimpleNetwork S J) (resp : S) (client : Client) (address : ℕ) where
  -- A request that the binding fails to send is fatal for the network: on a bound socket, and with
  -- the handler alive, `sendto` panics but leaves its flow behind. When a packet comes behind a
  -- frame header that answers it, and no older flow, the callback handler panics on the channel,
  -- where nobody listens any more, and from then on no channel is handed any packet, whatever is
  -- sent and received.
  pub sendto-abandoned :
      (sd : ℤ) (network phy_addr : ℕ) (payload : List ℕ) (e : MctpEmuError) (id q0 q1 q2 q3 : ℕ)
      (buf : List ℕ)
      → get_client net.sockets sd ≡ ok client
      → binding.transmit (packet client address payload) phy_addr ≡ err e
      → net.poisoned ≡ false
      → NoAnswer (reply_tag client address) net.flows
      → listening resp ≡ false
      → create_tag buf ≡ some (reply_tag client address)
      → let after_send = sendto binding net resp sd payload (extended address network 1 phy_addr) in
        let after_reply =
          callback listening after_send.0
            (NetworkBindingCallbackMsg.receive id (q0 ∷ q1 ∷ q2 ∷ q3 ∷ buf)) in
        (after_send.1 ≡ panics)
        × (after_reply.1 ≡ aborted resp)
        × ((asked gone : List S) (net' : SimpleNetwork S J)
            → Run after_reply.0 asked gone net'
            → gone ≡ [])
  sendto-abandoned sd network phy_addr payload e id q0 q1 q2 q3 buf found fails alive quiet
        gone_away tagged =
      let p = packet_lem client address payload in
      let net' = record net { flows = net.flows ++ ((sent_tag client address, resp) ∷ []) } in
      let sent : sendto binding net resp sd payload (extended address network 1 phy_addr)
          ≡ (net', panics) =
        sendto_lem net resp binding sd client payload address network phy_addr found alive
        ∙ rw (← p) (rw (fails) refl) in
      let taken =
        take_flow-append (reply_tag client address) net.flows (sent_tag client address, resp) []
          quiet (sent_tag-answers client address) in
      let dead : callback listening net'
            (NetworkBindingCallbackMsg.receive id (q0 ∷ q1 ∷ q2 ∷ q3 ∷ buf))
          ≡ (record net { poisoned = true }, aborted resp) =
        callback_lem listening net' id q0 q1 q2 q3 buf _ alive tagged
        ∙ rw (taken, append-nil net.flows, gone_away) refl in
      rw (sent, dead)
        (
          refl,
          refl,
          λ asked gone t r. (Run-poisoned (record net { poisoned = true }) t asked gone refl r).0,
        )
