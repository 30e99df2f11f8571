-- ===== src/Control/GetRoutingTable.antt =====
-- mctp-base-lib/src/control/get_routing_table.rs: the Get Routing Table Entries request and response.
use mctp_emu.Prelude.{ℕ, refl}
use mctp_emu.Crates.{Crates}
use mctp_emu.Base.Wire.{Wire, u8, pair, struct}
use mctp_emu.Control.Header
use mctp_emu.Control.Header.{ControlMsgHeader, set_rq}
use mctp_emu.Control.Message.{Message}
use mctp_emu.Control.CompletionCode.{CompletionCode, completion_code_as_u8}

pub record Request : Type 0 where
  pub hdr : ControlMsgHeader
  pub entry_handle : ℕ

pub record Response : Type 0 where
  pub hdr : ControlMsgHeader
  pub completion_code : ℕ
  pub next_entry_handle : ℕ
  pub entries_in_response : ℕ

-- `Request::new`.
abbrev pub new_request : ControlMsgHeader → ℕ → Request
new_request hdr entry_handle = record { hdr = hdr; entry_handle = entry_handle }

-- `Response::new`.
abbrev pub new_response :
    ControlMsgHeader → (completion_code next_entry_handle entries_in_response : ℕ) → Response
new_response hdr code next_entry_handle entries_in_response = record {
  hdr = hdr;
  completion_code = code;
  next_entry_handle = next_entry_handle;
  entries_in_response = entries_in_response;
}

module _ ⦃c : Crates⦄ where
  -- `Response::from`.
  unfoldable pub from :
      Request → CompletionCode → (next_entry_handle entries_in_response : ℕ) → Response
  from req code next_entry_handle entries_in_response =
      new_response (set_rq 0 req.hdr) (completion_code_as_u8 code) next_entry_handle
        entries_in_response

  abbrev pub request_wire : Wire Request
  request_wire =
      struct (pair Header.wire u8) (λ t. record { hdr = t.0; entry_handle = t.1 })
        (λ r. (r.hdr, r.entry_handle)) (λ r. refl)

  abbrev pub request_message : Message Request
  request_message = record {
    wire = request_wire;
    hdr = λ r. r.hdr;
    body = λ r. u8.serialize r.entry_handle;
    serialize-hdr = λ r. refl;
  }

  abbrev pub response_body : Response → ℕ × (ℕ × ℕ)
  response_body r = (r.completion_code, (r.next_entry_handle, r.entries_in_response))

  abbrev pub response_wire : Wire Response
  response_wire =
      struct (pair Header.wire (pair u8 (pair u8 u8)))
        (λ t. record {
          hdr = t.0;
          completion_code = t.1.0;
          next_entry_handle = t.1.1.0;
          entries_in_response = t.1.1.1;
        })
        (λ r. (r.hdr, response_body r)) (λ r. refl)

  abbrev pub response_message : Message Response
  response_message = record {
    wire = response_wire;
    hdr = λ r. r.hdr;
    body = λ r. (pair u8 (pair u8 u8)).serialize (response_body r);
    serialize-hdr = λ r. refl;
  }
