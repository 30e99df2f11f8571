-- ===== src/Network/Simple/Life.antt =====
-- Runs of a network over one binding: its operations, and the packets that come in, in any order.
-- A `sendto` adds its flow before it asks for the lock of the binding, so what it does to the network does
-- not depend on other calls.
use mctp_emu.Prelude.{
  ℕ, ◌≡◌, refl, ap, ap₂, ◌∙◌, List, [], ◌∷◌, ◌++◌, Bool, true, false, arith, if-cases,
}
use mctp_emu.Prelude.Int.{ℤ}
use mctp_emu.Crates.{Crates}
use mctp_emu.Emu.{MctpEmuResult, ok, err, panics}
use mctp_emu.Endpoint.Flow.{MsgFlowTag, create_tag}
use mctp_emu.Phys.Smbus.{SmbusNetDevBinding, NetworkBindingCallbackMsg}
use mctp_emu.Network.Types.{SocketAddress, basic, extended}
use mctp_emu.Network.Clients.{get_client}
use mctp_emu.Network.Simple.{
  NetworkBinding, SimpleNetwork, socket, bind, join_handles, add_physical_binding, sendto, begin,
  put, callback, Received, delivered, aborted, unheard, get_binding, packet, or_no_tag, checked,
}

-- The channels that leave the network with a packet: handed it, or lost to a panic.
abbrev pub leaving : {S : Type 0} → Received S → List S
leaving (delivered resp msg) = resp ∷ []
leaving (aborted resp) = resp ∷ []
leaving _ = []

module _ ⦃c : Crates⦄ {S J : Type 0} where
  -- A step, with the channels that it brings in and those that leave.
  pub data Step (net : SimpleNetwork S J) : (asked gone : List S) → SimpleNetwork S J → Type 0 where
    send :
        (binding : NetworkBinding) (resp : S) (sd : ℤ) (payload : List ℕ) (addr : SocketAddress)
        → Step net (resp ∷ []) [] (sendto binding net resp sd payload addr).0
    receive :
        (listening : S → Bool) (msg : NetworkBindingCallbackMsg)
        → Step net [] (leaving (callback listening net msg).1) (callback listening net msg).0
    open_socket : Step net [] [] (socket net).0
    bind_socket :
        (sd : ℤ) (address msg_type tag : ℕ) → Step net [] [] (bind net sd address msg_type tag).0
    join : Step net [] [] (join_handles net).0
    add_binding :
        (bound : ℕ → SmbusNetDevBinding → SmbusNetDevBinding × MctpEmuResult J)
        (binding : SmbusNetDevBinding)
        → Step net [] [] (add_physical_binding bound net binding).0.1

  -- A run from a network, with all the channels that came in and that left.
  pub data Run (net : SimpleNetwork S J) : (asked gone : List S) → SimpleNetwork S J → Type 0 where
    here : Run net [] [] net
    next :
        {asked gone a g : List S} {t u : SimpleNetwork S J}
        → Run net asked gone t
        → Step t a g u
        → Run net (asked ++ a) (gone ++ g) u

  -- What holds of a network before a chain of checks and after it.
  checked-keeps :
      {A : Type 0} (P : SimpleNetwork S J → Type 0) (net : SimpleNetwork S J) (o : MctpEmuResult A)
      (f : A → SimpleNetwork S J × MctpEmuResult (List ℕ))
      → P net
      → ((a : A) → P (f a).0)
      → P (checked net o f).0
  checked-keeps P net (ok a) f p q = q a
  checked-keeps P net (err e) f p q = p
  checked-keeps P net panics f p q = p

  put-keeps :
      (P : SimpleNetwork S J → Type 0) (binding : NetworkBinding) (phy : ℕ)
      (r : SimpleNetwork S J × MctpEmuResult (List ℕ))
      → P r.0
      → P (put binding phy r).0
  put-keeps P binding phy (net, ok buf) p = p
  put-keeps P binding phy (net, err e) p = p
  put-keeps P binding phy (net, panics) p = p

  -- What a `sendto` does to the network: nothing, or one flow more, unless the lock is poisoned.
  sendto-keeps :
      (P : SimpleNetwork S J → Type 0) (binding : NetworkBinding) (net : SimpleNetwork S J)
      (resp : S) (sd : ℤ) (payload : List ℕ) (addr : SocketAddress)
      → P net
      → ((tag : MsgFlowTag)
          → net.poisoned ≡ false
          → P (record net { flows = net.flows ++ ((tag, resp) ∷ []) }))
      → P (sendto binding net resp sd payload addr).0
  unfolding sendto begin
  sendto-keeps P binding net resp sd payload (basic address msg_type tag) p q = p
  sendto-keeps P binding net resp sd payload (extended address network id phy) p q =
      put-keeps P binding phy _ (
        checked-keeps P net (get_binding id) _ p λ found.
          checked-keeps P net (get_client net.sockets sd) _ p λ client.
            let buf = packet client address payload in
            checked-keeps P net (or_no_tag (create_tag buf)) _ p λ tag.
              if-cases (λ (r : SimpleNetwork S J × MctpEmuResult (List ℕ)). P r.0) net.poisoned _ _
                (λ e. p) (λ e. q tag e))

  bind-flows :
      (net : SimpleNetwork S J) (sd : ℤ) (address msg_type tag : ℕ)
      → ((bind net sd address msg_type tag).0.flows ≡ net.flows)
        × ((bind net sd address msg_type tag).0.poisoned ≡ net.poisoned)
  unfolding bind
  bind-flows net sd address msg_type tag = ground arith

  add_physical_binding-flows :
      (bound : ℕ → SmbusNetDevBinding → SmbusNetDevBinding × MctpEmuResult J)
      (net : SimpleNetwork S J) (binding : SmbusNetDevBinding)
      → let net' = (add_physical_binding bound net binding).0.1 in
        (net'.flows ≡ net.flows) × (net'.poisoned ≡ net.poisoned)
  unfolding add_physical_binding
  add_physical_binding-flows bound net binding = ground arith

  callback_poisoned :
      (listening : S → Bool) (net : SimpleNetwork S J) (msg : NetworkBindingCallbackMsg)
      → net.poisoned ≡ true
      → callback listening net msg ≡ (net, unheard)
  unfolding callback
  callback_poisoned listening net (NetworkBindingCallbackMsg.receive id buf) h =
      if-cases (λ r. r ≡ (net, unheard)) net.poisoned _ _ (λ e. refl) (λ e. cc (h, e))

  Step-poisoned :
      (net : SimpleNetwork S J) {asked gone : List S} {net' : SimpleNetwork S J}
      → net.poisoned ≡ true
      → Step net asked gone net'
      → (gone ≡ []) × (net'.flows ≡ net.flows) × (net'.poisoned ≡ true)
  Step-poisoned net h (send binding resp sd payload addr) =
      let (f, p) =
        sendto-keeps (λ t. (t.flows ≡ net.flows) × (t.poisoned ≡ true)) binding net resp sd payload
          addr (refl, h) (λ tag e. cc (h, e)) in
      (refl, f, p)
  Step-poisoned net h (receive listening msg) =
      let e = callback_poisoned listening net msg h in
      (
        ap (λ (r : SimpleNetwork S J × Received S). leaving r.1) e,
        ap (λ (r : SimpleNetwork S J × Received S). r.0.flows) e,
        ap (λ (r : SimpleNetwork S J × Received S). r.0.poisoned) e ∙ h,
      )
  Step-poisoned net h open_socket = unfold socket in (refl, refl, h)
  Step-poisoned net h (bind_socket sd address msg_type tag) =
      let (f, p) = bind-flows net sd address msg_type tag in (refl, f, p ∙ h)
  Step-poisoned net h join = unfold join_handles in (refl, refl, h)
  Step-poisoned net h (add_binding bound binding) =
      let (f, p) = add_physical_binding-flows bound net binding in (refl, f, p ∙ h)

  -- Once the callback handler has died on a channel that nobody listened to, the network is of no use:
  -- whatever is sent and received, no channel is handed a packet any more, and no flow is added.
  pub Run-poisoned :
      (net net' : SimpleNetwork S J) (asked gone : List S)
      → net.poisoned ≡ true
      → Run net asked gone net'
      → (gone ≡ []) × (net'.flows ≡ net.flows) × (net'.poisoned ≡ true)
  Run-poisoned net net' asked gone h here = (refl, refl, h)
  Run-poisoned net net' _ _ h (next {asked} {gone} {a} {g} {t} {u} r st) =
      let (e, f, p) = Run-poisoned net t asked gone h r in
      let (e', f', p') = Step-poisoned t p st in (ap₂ ◌++◌ e e', f' ∙ f, p')
