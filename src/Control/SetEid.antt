-- ===== src/Control/SetEid.antt =====
-- mctp-base-lib/src/control/set_eid.rs: the Set Endpoint ID request and response.
pub mod Enums
pub mod Fields
use mctp_emu.Prelude.{ℕ, refl}
use mctp_emu.Crates.{Crates}
use mctp_emu.Base.Wire.{Wire, u8, pair, struct}
use mctp_emu.Control.Header
use mctp_emu.Control.Header.{ControlMsgHeader, set_rq}
use mctp_emu.Control.Message.{Message}
use mctp_emu.Control.CompletionCode.{CompletionCode, completion_code_as_u8}
use Enums.{
  Operation, operation_as_u8, EidAssignmentStatus, eid_assignment_status_as_u8, EidAllocationStatus,
  eid_allocation_status_as_u8, eid_allocation_status_from,
}

-- Each `[u8; 1]` is its one byte.
pub record Request : Type 0 where
  pub hdr : ControlMsgHeader
  pub operation_reserved : ℕ
  pub eid : ℕ

pub record Response : Type 0 where
  pub hdr : ControlMsgHeader
  pub completion_code : ℕ
  pub eid_allocation_status_reserved1_eid_assignment_status_reserved2 : ℕ
  pub eid_setting : ℕ
  pub eid_pool_size : ℕ

module _ ⦃c : Crates⦄ where
  open c use {get_bits, set_bits}

  pub operation : Request → ℕ
  operation r = get_bits r.operation_reserved 0 1

  -- `Request::new`.
  unfoldable pub new_request : ControlMsgHeader → Operation → ℕ → Request
  new_request hdr op eid =
      let r : Request = record { hdr = hdr; operation_reserved = 0; eid = eid } in
      record r { operation_reserved = set_bits r.operation_reserved 0 1 (operation_as_u8 op) }

  abbrev pub request_wire : Wire Request
  request_wire =
      struct (pair Header.wire (pair u8 u8))
        (λ t. record { hdr = t.0; operation_reserved = t.1.0; eid = t.1.1 })
        (λ r. (r.hdr, (r.operation_reserved, r.eid))) (λ r. refl)

  abbrev pub request_message : Message Request
  request_message = record {
    wire = request_wire;
    hdr = λ r. r.hdr;
    body = λ r. (pair u8 u8).serialize (r.operation_reserved, r.eid);
    serialize-hdr = λ r. refl;
  }

  unfoldable pub raw_eid_allocation_status : Response → ℕ
  raw_eid_allocation_status r =
      get_bits r.eid_allocation_status_reserved1_eid_assignment_status_reserved2 0 1

  unfoldable pub eid_assignment_status : Response → ℕ
  eid_assignment_status r =
      get_bits r.eid_allocation_status_reserved1_eid_assignment_status_reserved2 4 5

  set_status : ℕ → ℕ → ℕ → Response → Response
  set_status lo hi v r = record r {
    eid_allocation_status_reserved1_eid_assignment_status_reserved2 =
        set_bits r.eid_allocation_status_reserved1_eid_assignment_status_reserved2 lo hi v;
  }

  -- `Response::new`.
  pub new_response :
      ControlMsgHeader
      → ℕ
      → EidAllocationStatus
      → EidAssignmentStatus
      → (eid_setting eid_pool_size : ℕ) → Response
  unfolding set_status
  new_response hdr code allocation assignment eid_setting eid_pool_size =
      let r₀ : Response = record {
        hdr = hdr;
        completion_code = code;
        eid_allocation_status_reserved1_eid_assignment_status_reserved2 = 0;
        eid_setting = eid_setting;
        eid_pool_size = eid_pool_size;
      } in
      let r₁ = set_status 0 1 (eid_allocation_status_as_u8 allocation) r₀ in
      set_status 4 5 (eid_assignment_status_as_u8 assignment) r₁

  -- `Response::from`.
  unfoldable pub from :
      Request
      → CompletionCode
      → EidAllocationStatus
      → EidAssignmentStatus
      → (eid_setting eid_pool_size : ℕ) → Response
  unfolding new_response
  from req code allocation assignment eid_setting eid_pool_size =
      new_response (set_rq 0 req.hdr) (completion_code_as_u8 code) allocation assignment eid_setting
        eid_pool_size

  -- `Response::eid_allocation_status`.
  unfoldable pub eid_allocation_status : Response → EidAllocationStatus
  unfolding raw_eid_allocation_status
  eid_allocation_status r = eid_allocation_status_from (raw_eid_allocation_status r)

  abbrev pub response_body : Response → ℕ × (ℕ × (ℕ × ℕ))
  response_body r = (
    r.completion_code,
    (
      r.eid_allocation_status_reserved1_eid_assignment_status_reserved2,
      (r.eid_setting, r.eid_pool_size),
    ),
  )

  abbrev pub response_wire : Wire Response
  response_wire =
      struct (pair Header.wire (pair u8 (pair u8 (pair u8 u8))))
        (λ t. record {
          hdr = t.0;
          completion_code = t.1.0;
          eid_allocation_status_reserved1_eid_assignment_status_reserved2 = t.1.1.0;
          eid_setting = t.1.1.1.0;
          eid_pool_size = t.1.1.1.1;
        })
        (λ r. (r.hdr, response_body r)) (λ r. refl)

  abbrev pub response_message : Message Response
  response_message = record {
    wire = response_wire;
    hdr = λ r. r.hdr;
    body = λ r. (pair u8 (pair u8 (pair u8 u8))).serialize (response_body r);
    serialize-hdr = λ r. refl;
  }
