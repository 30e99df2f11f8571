-- ===== src/Control/Empty.antt =====
-- mctp-base-lib/src/control/models.rs: messages with no more than the header and a completion code.
use mctp_emu.Prelude.{ℕ, refl, sym, append-nil, []}
use mctp_emu.Crates.{Crates}
use mctp_emu.Base.Wire.{Wire, u8, pair, struct}
use mctp_emu.Control.Header
use mctp_emu.Control.Header.{ControlMsgHeader, set_rq}
use mctp_emu.Control.Message.{Message}
use mctp_emu.Control.CompletionCode.{CompletionCode, completion_code_as_u8}

pub record EmptyRequest : Type 0 where
  pub hdr : ControlMsgHeader

pub record EmptyResponse : Type 0 where
  pub hdr : ControlMsgHeader
  pub completion_code : ℕ

module _ ⦃c : Crates⦄ where
  abbrev pub request_wire : Wire EmptyRequest
  request_wire = struct Header.wire (λ h. record { hdr = h }) (λ r. r.hdr) (λ r. refl)

  abbrev pub response_wire : Wire EmptyResponse
  response_wire =
      struct (pair Header.wire u8) (λ t. record { hdr = t.0; completion_code = t.1 })
        (λ r. (r.hdr, r.completion_code)) (λ r. refl)

  abbrev pub request_message : Message EmptyRequest
  request_message = record {
    wire = request_wire;
    hdr = λ r. r.hdr;
    body = λ r. [];
    serialize-hdr = λ r. sym (append-nil _);
  }

  abbrev pub response_message : Message EmptyResponse
  response_message = record {
    wire = response_wire;
    hdr = λ r. r.hdr;
    body = λ r. u8.serialize r.completion_code;
    serialize-hdr = λ r. refl;
  }

  -- `EmptyResponse::new`.
  abbrev pub new : ControlMsgHeader → ℕ → EmptyResponse
  new hdr completion_code = record { hdr = hdr; completion_code = completion_code }

  -- `EmptyResponse::from`.
  unfoldable pub from : EmptyRequest → CompletionCode → EmptyResponse
  from req code = new (set_rq 0 req.hdr) (completion_code_as_u8 code)
