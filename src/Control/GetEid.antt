-- ===== src/Control/GetEid.antt =====
-- mctp-base-lib/src/control/get_eid.rs: the Get Endpoint ID request and response.
pub mod Enums
pub mod Fields
use mctp_emu.Prelude.{ℕ, refl, [], sym, append-nil}
use mctp_emu.Crates.{Crates}
use mctp_emu.Base.Wire.{Wire, u8, pair, struct}
use mctp_emu.Control.Header
use mctp_emu.Control.Header.{ControlMsgHeader, set_rq}
use mctp_emu.Control.Message.{Message}
use mctp_emu.Control.CompletionCode.{CompletionCode, completion_code_as_u8}
use Enums.{EidType, eid_type_as_u8, EndpointType, endpoint_type_as_u8}

pub record Request : Type 0 where
  pub hdr : ControlMsgHeader

-- The `[u8; 1]` is its one byte.
pub record Response : Type 0 where
  pub hdr : ControlMsgHeader
  pub completion_code : ℕ
  pub eid : ℕ
  pub eid_endpoint_type : ℕ
  pub medium_specific : ℕ

module _ ⦃c : Crates⦄ where
  open c use {get_bits, set_bits}

  abbrev pub request_wire : Wire Request
  request_wire = struct Header.wire (λ h. record { hdr = h }) (λ r. r.hdr) (λ r. refl)

  abbrev pub request_message : Message Request
  request_message = record {
    wire = request_wire;
    hdr = λ r. r.hdr;
    body = λ r. [];
    serialize-hdr = λ r. sym (append-nil _);
  }

  unfoldable pub eid_type : Response → ℕ
  eid_type r = get_bits r.eid_endpoint_type 0 1

  unfoldable pub endpoint_type : Response → ℕ
  endpoint_type r = get_bits r.eid_endpoint_type 4 5

  set_type : ℕ → ℕ → ℕ → Response → Response
  set_type lo hi v r = record r { eid_endpoint_type = set_bits r.eid_endpoint_type lo hi v }

  -- `Response::new`.
  pub new_response :
      ControlMsgHeader
      → (completion_code eid : ℕ) → EidType
      → EndpointType
      → (medium_specific : ℕ) → Response
  unfolding set_type
  new_response hdr code eid ty endpoint medium_specific =
      let r₀ : Response = record {
        hdr = hdr;
        completion_code = code;
        eid = eid;
        eid_endpoint_type = 0;
        medium_specific = medium_specific;
      } in
      let r₁ = set_type 0 1 (eid_type_as_u8 ty) r₀ in set_type 4 5 (endpoint_type_as_u8 endpoint) r₁

  -- `Response::from`.
  unfoldable pub from :
      Request
      → CompletionCode
      → (eid : ℕ) → EidType
      → EndpointType
      → (medium_specific : ℕ) → Response
  unfolding new_response
  from req code eid ty endpoint medium_specific =
      new_response (set_rq 0 req.hdr) (completion_code_as_u8 code) eid ty endpoint medium_specific

  abbrev pub response_body : Response → ℕ × (ℕ × (ℕ × ℕ))
  response_body r = (r.completion_code, (r.eid, (r.eid_endpoint_type, r.medium_specific)))

  abbrev pub response_wire : Wire Response
  response_wire =
      struct (pair Header.wire (pair u8 (pair u8 (pair u8 u8))))
        (λ t. record {
          hdr = t.0;
          completion_code = t.1.0;
          eid = t.1.1.0;
          eid_endpoint_type = t.1.1.1.0;
          medium_specific = t.1.1.1.1;
        })
        (λ r. (r.hdr, response_body r)) (λ r. refl)

  abbrev pub response_message : Message Response
  response_message = record {
    wire = response_wire;
    hdr = λ r. r.hdr;
    body = λ r. (pair u8 (pair u8 (pair u8 u8))).serialize (response_body r);
    serialize-hdr = λ r. refl;
  }
