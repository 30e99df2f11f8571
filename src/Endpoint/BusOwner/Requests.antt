-- ===== src/Endpoint/BusOwner/Requests.antt =====
-- examples/basic_bus_owner_loop.rs: `send_get_eid_request`, `send_set_eid_request`,
-- `send_allocate_eids_request`, and the header and exchange that they share.
use mctp_emu.Prelude.{ℕ, ◌+◌, ◌%◌, List, true, false, some}
use mctp_emu.Crates.{Crates}
use mctp_emu.Base.Errors.{ok, err, other}
use mctp_emu.Base.Wire.{Wire, to_bytes}
use mctp_emu.Base.TransportHeader
use mctp_emu.Base.TransportHeader.{TransportHeader}
use mctp_emu.Control.Header
use mctp_emu.Control.Header.{ControlMsgHeader}
use mctp_emu.Control.CommandCode.{CommandCode}
use mctp_emu.Control.Payload.{ControlPayload, new, into_bytes, try_to_response}
use mctp_emu.Control.SetEid
use mctp_emu.Control.SetEid.Enums.{set_eid}
use mctp_emu.Control.GetEid
use mctp_emu.Control.AllocateEids
use mctp_emu.Control.AllocateEids.Enums.{allocate_eids}
use mctp_emu.Endpoint.Context.{Outcome, returns, panics}
use mctp_emu.Endpoint.BusOwner.{Reply, packet, io_error, closed, Step, pure, ◌>>=◌}

module _ ⦃c : Crates⦄ {B : Type 0} where
  -- `new_transport_hdr`; the message tag is an `AtomicU8`, which wraps.
  unfoldable pub new_transport_hdr : ℕ → Step B TransportHeader
  new_transport_hdr dst_eid s = (
    record s { ctx = record s.ctx { next_msg_tag = (s.ctx.next_msg_tag + 1) % 256 } },
    returns (
        ok (
          TransportHeader.new s.ctx.assigned_eid dst_eid s.ctx.next_msg_tag (some true) (some true)
            (some true))),
  )

  -- The header of a request, with the next instance id, which wraps as well.
  unfoldable pub new_control_hdr : CommandCode → Step B ControlMsgHeader
  new_control_hdr code s = (
    record s { ctx = record s.ctx { next_instance_id = (s.ctx.next_instance_id + 1) % 256 } },
    returns (ok (Header.new code s.ctx.next_instance_id false true false)),
  )

module _ ⦃c : Crates⦄ {B : Type 0} (bus : B → List ℕ → B × Reply) where
  -- What `send_and_decode` makes of the reply.
  abbrev pub decode : {T : Type 0} → Wire T → Reply → Outcome (ControlPayload × T)
  decode w (packet bytes) = returns (try_to_response w bytes)
  decode w io_error = panics
  decode w closed = returns (err other)

  -- `send_and_decode`.
  unfoldable pub send_and_decode : {T : Type 0} → Wire T → List ℕ → Step B (ControlPayload × T)
  send_and_decode w bytes s = let (b, r) = bus s.bus bytes in (record s { bus = b }, decode w r)

  unfoldable pub send_get_eid_request : ℕ → Step B GetEid.Response
  send_get_eid_request dest_eid = do
    transport_hdr ← new_transport_hdr dest_eid
    ctrl_hdr ← new_control_hdr CommandCode.get_endpoint_id
    let req : GetEid.Request = record { hdr = ctrl_hdr }
    r ←
        send_and_decode GetEid.response_wire
          (into_bytes (new transport_hdr ctrl_hdr (to_bytes GetEid.request_wire req)))
    pure (r.1)

  unfoldable pub send_set_eid_request : ℕ → Step B SetEid.Response
  send_set_eid_request eid = do
    transport_hdr ← new_transport_hdr 0
    ctrl_hdr ← new_control_hdr CommandCode.set_endpoint_id
    let req = SetEid.new_request ctrl_hdr set_eid eid
    r ←
        send_and_decode SetEid.response_wire
          (into_bytes (new transport_hdr ctrl_hdr (to_bytes SetEid.request_wire req)))
    pure (r.1)

  unfoldable pub send_allocate_eids_request :
      (starting_eid number_of_eids : ℕ) → Step B AllocateEids.Response
  send_allocate_eids_request starting_eid number_of_eids = do
    transport_hdr ← new_transport_hdr 0
    ctrl_hdr ← new_control_hdr CommandCode.allocate_endpoint_ids
    let req = AllocateEids.new_request ctrl_hdr allocate_eids number_of_eids starting_eid
    r ←
        send_and_decode AllocateEids.response_wire
          (into_bytes (new transport_hdr ctrl_hdr (to_bytes AllocateEids.request_wire req)))
    pure (r.1)
