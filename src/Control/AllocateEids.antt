-- ===== src/Control/AllocateEids.antt =====
-- mctp-base-lib/src/control/allocate_eids.rs: the Allocate Endpoint IDs request and response.
pub mod Enums
pub mod Fields
use mctp_emu.Prelude.{ℕ, refl}
use mctp_emu.Crates.{Crates}
use mctp_emu.Base.Wire.{Wire, u8, pair, struct}
use mctp_emu.Control.Header
use mctp_emu.Control.Header.{ControlMsgHeader, set_rq}
use mctp_emu.Control.Message.{Message}
use Enums.{
  Operation, operation_as_u8, AllocationStatus, allocation_status_as_u8, allocation_status_from,
}

-- Each `[u8; 1]` is its one byte.
pub record Request : Type 0 where
  pub hdr : ControlMsgHeader
  pub operation_reserved : ℕ
  pub number_of_eids : ℕ
  pub starting_eid : ℕ

pub record Response : Type 0 where
  pub hdr : ControlMsgHeader
  pub completion_code : ℕ
  pub allocation_status_reserved : ℕ
  pub eid_pool_size : ℕ
  pub first_eid : ℕ

module _ ⦃c : Crates⦄ where
  open c use {get_bits, set_bits}

  pub operation : Request → ℕ
  operation r = get_bits r.operation_reserved 0 1

  -- `Request::new`.
  unfoldable pub new_request :
      ControlMsgHeader → Operation → (number_of_eids starting_eid : ℕ) → Request
  new_request hdr op number_of_eids starting_eid =
      let r : Request = record {
        hdr = hdr;
        operation_reserved = 0;
        number_of_eids = number_of_eids;
        starting_eid = starting_eid;
      } in
      record r { operation_reserved = set_bits r.operation_reserved 0 1 (operation_as_u8 op) }

  abbrev pub request_body : Request → ℕ × (ℕ × ℕ)
  request_body r = (r.operation_reserved, (r.number_of_eids, r.starting_eid))

  abbrev pub request_wire : Wire Request
  request_wire =
      struct (pair Header.wire (pair u8 (pair u8 u8)))
        (λ t. record {
          hdr = t.0;
          operation_reserved = t.1.0;
          number_of_eids = t.1.1.0;
          starting_eid = t.1.1.1;
        })
        (λ r. (r.hdr, request_body r)) (λ r. refl)

  abbrev pub request_message : Message Request
  request_message = record {
    wire = request_wire;
    hdr = λ r. r.hdr;
    body = λ r. (pair u8 (pair u8 u8)).serialize (request_body r);
    serialize-hdr = λ r. refl;
  }

  unfoldable pub raw_allocation_status : Response → ℕ
  raw_allocation_status r = get_bits r.allocation_status_reserved 0 1

  -- `Response::new`.
  pub new_response :
      ControlMsgHeader → ℕ → AllocationStatus → (eid_pool_size first_eid : ℕ) → Response
  new_response hdr code status eid_pool_size first_eid =
      let r : Response = record {
        hdr = hdr;
        completion_code = code;
        allocation_status_reserved = 0;
        eid_pool_size = eid_pool_size;
        first_eid = first_eid;
      } in
      record r {
        allocation_status_reserved =
            set_bits r.allocation_status_reserved 0 1 (allocation_status_as_u8 status);
      }

  -- `Response::from`; the completion code is a raw byte.
  unfoldable pub from : Request → ℕ → AllocationStatus → (eid_pool_size first_eid : ℕ) → Response
  unfolding new_response
  from req code status eid_pool_size first_eid =
      new_response (set_rq 0 req.hdr) code status eid_pool_size first_eid

  -- `Response::allocation_status`.
  unfoldable pub allocation_status : Response → AllocationStatus
  unfolding raw_allocation_status
  allocation_status r = allocation_status_from (raw_allocation_status r)

  abbrev pub response_body : Response → ℕ × (ℕ × (ℕ × ℕ))
  response_body r =
      (r.completion_code, (r.allocation_status_reserved, (r.eid_pool_size, r.first_eid)))

  abbrev pub response_wire : Wire Response
  response_wire =
      struct (pair Header.wire (pair u8 (pair u8 (pair u8 u8))))
        (λ t. record {
          hdr = t.0;
          completion_code = t.1.0;
          allocation_status_reserved = t.1.1.0;
          eid_pool_size = t.1.1.1.0;
          first_eid = t.1.1.1.1;
        })
        (λ r. (r.hdr, response_body r)) (λ r. refl)

  abbrev pub response_message : Message Response
  response_message = record {
    wire = response_wire;
    hdr = λ r. r.hdr;
    body = λ r. (pair u8 (pair u8 (pair u8 u8))).serialize (response_body r);
    serialize-hdr = λ r. refl;
  }
