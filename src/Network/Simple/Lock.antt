-- ===== src/Network/Simple/Lock.antt =====
-- src/network/simple_network.rs: `sendto` holds the lock of the binding from its transmission until its response
-- has come. The calls that wait for the lock get it in the order in which they asked, as tokio's lock is fair.
use mctp_emu.Prelude.{ℕ, List, [], ◌∷◌, ◌++◌, Bool, false, ◌||◌, if◌then◌else◌}
use mctp_emu.Prelude.Int.{ℤ}
use mctp_emu.Crates.{Crates}
use mctp_emu.Emu.{MctpEmuResult, ok, err, panics}
use mctp_emu.Phys.Smbus.{NetworkBindingCallbackMsg}
use mctp_emu.Network.Types.{extended}
use mctp_emu.Network.Simple.{NetworkBinding, SimpleNetwork, Received, delivered, begin, callback}

-- A call of `sendto` behind `create_tag`; `answered` is whether its response stands in its channel.
pub record Call (S : Type 0) : Type 0 where
  pub resp : S
  pub buf : List ℕ
  pub phy_addr : ℕ
  pub answered : Bool

-- The network with the calls under way: the first one holds the lock, the others wait for it.
pub record Locked (S J : Type 0) : Type 0 where
  pub net : SimpleNetwork S J
  pub calls : List (Call S)

module _ {S : Type 0} (binding : NetworkBinding) where
  -- The first call gets the lock and transmits. If that fails it panics and the lock is free again, and if
  -- its response is there already it returns at once. With the calls that are left, the packets that the
  -- binding took.
  unfoldable pub acquire : List (Call S) → List (Call S) × List (List ℕ)
  acquire [] = ([], [])
  acquire (call ∷ calls) =
      let (left, later) = acquire calls in
      elim (binding.transmit call.buf call.phy_addr) [
        | ok sent ↦
            if call.answered then (left, call.buf ∷ later) else (call ∷ calls, call.buf ∷ [])
        | err e ↦ (left, later)
        | panics ↦ (left, later)
      ]

  -- The call that holds the lock returns once its response is there.
  unfoldable pub settle : List (Call S) → List (Call S) × List (List ℕ)
  settle [] = ([], [])
  settle (call ∷ calls) =
      let next = acquire calls in if call.answered then next else (call ∷ calls, [])

  -- A call asks for the lock, which is free if no other call is under way.
  abbrev pub ask : List (Call S) → Call S → List (Call S) × List (List ℕ)
  ask [] call = acquire (call ∷ [])
  ask (holder ∷ calls) call = (holder ∷ (calls ++ (call ∷ [])), [])

-- The response for a channel is there; `same` compares channels.
abbrev pub answer : {S : Type 0} → (same : S → S → Bool) → S → List (Call S) → List (Call S)
answer same resp [] = []
answer same resp (call ∷ calls) =
    record call { answered = call.answered || same call.resp resp } ∷ answer same resp calls

module _ ⦃c : Crates⦄ {S J : Type 0} (binding : NetworkBinding) where
  abbrev pub wait_for :
      Locked S J
      → S
      → (phy_addr : ℕ) → SimpleNetwork S J × MctpEmuResult (List ℕ)
      → Locked S J × List (List ℕ)
  wait_for p resp phy_addr (net, ok buf) =
      let (calls, sent) =
        ask binding (p.calls)
          (record { resp = resp; buf = buf; phy_addr = phy_addr; answered = false }) in
      (record { net = net; calls = calls }, sent)
  wait_for p resp phy_addr (net, err e) = (record p { net = net }, [])
  wait_for p resp phy_addr (net, panics) = (record p { net = net }, [])

  -- A new call of `sendto` to an extended address, with the packets that the binding takes.
  unfoldable pub send :
      Locked S J
      → S
      → (sd : ℤ) (payload : List ℕ) (address network binding_id phy_addr : ℕ)
      → Locked S J × List (List ℕ)
  send p resp sd payload address network binding_id phy_addr =
      wait_for p resp phy_addr
        (begin p.net resp sd payload (extended address network binding_id phy_addr))

  abbrev pub pass :
      (same : S → S → Bool) (calls : List (Call S))
      → SimpleNetwork S J × Received S
      → Locked S J × (Received S × List (List ℕ))
  pass same calls (net, delivered resp msg) =
      let (left, sent) = settle binding (answer same resp calls) in
      (record { net = net; calls = left }, (delivered resp msg, sent))
  pass same calls (net, r) = (record { net = net; calls = calls }, (r, []))

  -- A message of `callback_handler`, and what the calls do then.
  unfoldable pub receive :
      (same : S → S → Bool) (listening : S → Bool)
      → Locked S J
      → NetworkBindingCallbackMsg
      → Locked S J × (Received S × List (List ℕ))
  receive same listening p msg = pass same p.calls (callback listening p.net msg)
