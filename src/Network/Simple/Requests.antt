-- ===== src/Network/Simple/Requests.antt =====
-- Calls of `sendto` to extended addresses, each with the reply of the endpoint there.
use mctp_emu.Prelude.{ℕ, ◌+◌, ◌≡◌, refl, List, [], ◌∷◌, ◌++◌, map, All, Bool, false, length}
use mctp_emu.Prelude.Int.{ℤ}
use mctp_emu.Crates.{Crates}
use mctp_emu.Endpoint.Context.{MctpEndpointContext}
use mctp_emu.Endpoint.Flow.{MsgFlowTag}
use mctp_emu.Endpoint.Transport.Frames.{datagram}
use mctp_emu.Phys.Smbus.{NetworkBindingCallbackMsg}
use mctp_emu.Network.Types.{Client}
use mctp_emu.Network.Simple.{Received, packet, delivered, response}
use mctp_emu.Network.Simple.Exchange.{sent_tag}
use mctp_emu.Network.Simple.Lock.{Call, answer}

-- A `sendto` on a socket of a client to an extended address, with the channel for its response, and the
-- reply of the endpoint there.
pub record Request (S : Type 0) : Type 0 where
  pub sd : ℤ
  pub client : Client
  pub address : ℕ
  pub network : ℕ
  pub phy_addr : ℕ
  pub first : ℕ
  pub second : ℕ
  pub command : ℕ
  pub body : List ℕ
  pub resp : S
  pub remote : MctpEndpointContext
  pub remote' : MctpEndpointContext
  pub reply : List ℕ

module _ {S : Type 0} where
  abbrev pub payload : Request S → List ℕ
  payload r = r.first ∷ r.second ∷ r.command ∷ r.body

  abbrev pub flow : Request S → MsgFlowTag × S
  flow r = (sent_tag r.client r.address, r.resp)

module _ ⦃c : Crates⦄ {S : Type 0} where
  abbrev pub request_packet : Request S → List ℕ
  request_packet r = packet r.client r.address (payload r)

  abbrev pub call_of : Request S → Call S
  call_of r = record {
    resp = r.resp;
    buf = request_packet r;
    phy_addr = r.phy_addr;
    answered = false;
  }

  -- The packet that goes out when the call before it returns.
  abbrev pub next_out : List (Request S) → List (List ℕ)
  next_out [] = []
  next_out (q ∷ rs) = request_packet q ∷ []

module _ ⦃c : Crates⦄ {S : Type 0} (same : S → S → Bool) where
  -- The channel of one request is not that of another.
  abbrev pub Differs : Request S → Request S → Type 0
  Differs r q = same q.resp r.resp ≡ false

  pub answer-others :
      (r : Request S) (rs : List (Request S))
      → All (Differs r) rs
      → answer same r.resp (map call_of rs) ≡ map call_of rs
  answer-others r [] h = refl
  answer-others r (q ∷ rs) h = rw (h.0, answer-others r rs h.1) refl

module _ ⦃c : Crates⦄ {S : Type 0} (pec : List ℕ → ℕ) where
  abbrev pub replied : Request S → NetworkBindingCallbackMsg
  replied r = NetworkBindingCallbackMsg.receive 1 (datagram pec r.reply)

  -- The whole reply with its checksum, handed to the channel of the request.
  abbrev pub handed_back : Request S → Received S
  handed_back r =
      delivered r.resp
        (response 1 (r.reply ++ (pec (0x60 ∷ 0x0f ∷ (length r.reply + 1) ∷ 0x21 ∷ r.reply) ∷ [])))

  -- Each reply is handed back, and then the next packet goes out.
  abbrev pub turns : Request S → List (Request S) → List (Received S × List (List ℕ))
  turns r [] = (handed_back r, []) ∷ []
  turns r (q ∷ rs) = (handed_back r, request_packet q ∷ []) ∷ turns q rs
