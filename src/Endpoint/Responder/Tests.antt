-- ===== src/Endpoint/Responder/Tests.antt =====
-- Requests to the endpoint, and the theorem on them at a concrete request.
use mctp_emu.Prelude.{◌≡◌, refl, [], ◌∷◌, arith}
use mctp_emu.Crates.Reference.{reference}
use mctp_emu.Base.Errors.{ok, err, invalid_payload_size}
use mctp_emu.Endpoint.Context.{MctpEndpointContext, returns, panics}
use mctp_emu.Endpoint.Responder.{handle_request}
use mctp_emu.Endpoint.Responder.Reference
use mctp_emu.Endpoint.Responder.Reference.{handle_request-reference}
use mctp_emu.Endpoint.Responder.Requests.{Front}
use mctp_emu.Endpoint.Transport.{main_context}

-- The context that `main` makes.
abbrev pub start : MctpEndpointContext
start = main_context

-- A request from EID 8 to EID 10 under the tag 2, with the tag owner, start and end bits.
abbrev pub front : Front
front = record { version = 1; dst = 10; src = 8; flags = 0xca; first = 0; second = 0x85 }

-- What the table says of other packets.
routing_table :
    Reference.reference start (1 ∷ 10 ∷ 8 ∷ 0xca ∷ 0 ∷ 0x85 ∷ 0x0a ∷ 0 ∷ [])
    ≡ (start, returns (ok (1 ∷ 8 ∷ 10 ∷ 0xc2 ∷ 0 ∷ 5 ∷ 0x0a ∷ 0 ∷ 0xff ∷ 0 ∷ [])))
unfolding Reference.reference
routing_table = refl

unsupported :
    Reference.reference start (1 ∷ 10 ∷ 8 ∷ 0xca ∷ 0 ∷ 0x85 ∷ 0x10 ∷ 7 ∷ [])
    ≡ (start, returns (ok (1 ∷ 8 ∷ 10 ∷ 0xc2 ∷ 0 ∷ 5 ∷ 0x10 ∷ 5 ∷ [])))
unfolding Reference.reference
unsupported = refl

unlisted : Reference.reference start (1 ∷ 10 ∷ 8 ∷ 0xca ∷ 0 ∷ 0x85 ∷ 0x42 ∷ []) ≡ (start, panics)
unfolding Reference.reference
unlisted = refl

truncated :
    Reference.reference start (1 ∷ 10 ∷ 8 ∷ 0xca ∷ 0 ∷ 0x85 ∷ 1 ∷ 0 ∷ [])
    ≡ (start, returns (err (invalid_payload_size 5 4)))
unfolding Reference.reference
truncated = refl

handle_request-reference_example :
    handle_request start (1 ∷ 10 ∷ 8 ∷ 0xca ∷ 0 ∷ 0x85 ∷ 1 ∷ 0 ∷ 12 ∷ []) ≡ (
      record start { assigned_eid = 12 },
      returns (ok (1 ∷ 8 ∷ 10 ∷ 0xc2 ∷ 0 ∷ 5 ∷ 1 ∷ 0 ∷ 0 ∷ 12 ∷ 0 ∷ [])),
    )
unfolding Reference.reference
handle_request-reference_example =
    handle_request-reference start (1 ∷ 10 ∷ 8 ∷ 0xca ∷ 0 ∷ 0x85 ∷ 1 ∷ 0 ∷ 12 ∷ []) (
      omega arith,
      (
        omega arith,
        (
          omega arith,
          (
            omega arith,
            (omega arith, (omega arith, (omega arith, (omega arith, (omega arith, tt))))),
          ),
        ),
      ),
    )
