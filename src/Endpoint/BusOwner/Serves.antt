-- ===== src/Endpoint/BusOwner/Serves.antt =====
-- What the bus owner needs of its bus: behind it stands an endpoint that answers by `handle_request`.
use mctp_emu.Prelude.{ℕ, ◌<◌, ◌≡◌, refl, List, [], ◌++◌, append-nil, length}
use mctp_emu.Crates.{Crates}
use mctp_emu.Base.Errors.{ok}
use mctp_emu.Endpoint.Context.{MctpEndpointContext, Outcome, returns}
use mctp_emu.Endpoint.Responder.{handle_request}
use mctp_emu.Endpoint.Responder.Requests.{Front, IsFront, request}
use mctp_emu.Endpoint.BusOwner.{Reply, packet, closed}

-- `remote` is the context of the endpoint, `Ready` what the bus needs to carry a packet. A request that the
-- endpoint answers whatever trails it comes back with the answer, and something may trail that too.
pub record Serves ⦃c : Crates⦄ {B : Type 0} (bus : B → List ℕ → B × Reply)
    (remote : B → MctpEndpointContext) (Ready : B → Type 0) : Type 0 where
  pub serve :
      (b : B) (f : Front) (n : ℕ) (body : List ℕ) (ctx : MctpEndpointContext) (reply : List ℕ)
      → Ready b
      → IsFront f
      → length body < 248
      → length reply < 255
      → ((trail : List ℕ)
          → handle_request (remote b) (request f n (body ++ trail)) ≡ (ctx, returns (ok reply)))
      → (b' : B) × (trail : List ℕ) × (bus b (request f n body) ≡ (b', packet (reply ++ trail)))
        × Ready b'
        × (remote b' ≡ ctx)

abbrev pub delivered : Outcome (List ℕ) → Reply
delivered (returns (ok bytes)) = packet bytes
delivered _ = closed

-- The bus with one endpoint, which answers each packet by `handle_request`.
abbrev pub endpoint_bus : ⦃c : Crates⦄ → MctpEndpointContext → List ℕ → MctpEndpointContext × Reply
endpoint_bus remote bytes = let (remote', o) = handle_request remote bytes in (remote', delivered o)

pub endpoint_bus-Serves : ⦃c : Crates⦄ → Serves endpoint_bus (λ ctx. ctx) (λ ctx. Unit {0})
endpoint_bus-Serves = record {
  serve = λ b f n body ctx reply r h s s' replied.
      (ctx, [], rw (append-nil reply, ← append-nil body, replied []) refl, tt, refl);
}
