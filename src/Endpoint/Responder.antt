-- ===== src/Endpoint/Responder.antt =====
-- examples/basic_bus_owner_loop.rs: `handle_request`. The prints to the console are left out.
pub mod Packets
pub mod Requests
pub mod Panics
pub mod Replies
pub mod Reference
pub mod Assigned
pub mod Tests
use mctp_emu.Prelude.{ℕ, List, true}
use mctp_emu.Crates.{Crates}
use mctp_emu.Base.Errors.{Result, ok, err}
use mctp_emu.Base.Wire.{Wire, to_bytes}
use mctp_emu.Control.Header.{ControlMsgHeader}
use mctp_emu.Control.CommandCode.{
  CommandCode, set_endpoint_id, get_endpoint_id, discovery_notify, get_routing_table_entries,
}
use mctp_emu.Control.CompletionCode.{success, error_unsupported_cmd}
use mctp_emu.Control.Payload.{
  ControlPayload, try_from_bytes, try_from_payload, create_response_payload, into_bytes,
  command_code,
}
use mctp_emu.Control.Message.{Message}
use mctp_emu.Control.Empty
use mctp_emu.Control.SetEid
use mctp_emu.Control.SetEid.Enums.{no_pool_support, accepted}
use mctp_emu.Control.GetEid
use mctp_emu.Control.GetEid.Enums.{dynamic, simple}
use mctp_emu.Control.GetRoutingTable
use mctp_emu.Endpoint.Context.{MctpEndpointContext, Outcome, returns, panics}

abbrev pub Handled : Type 0
Handled = MctpEndpointContext × Outcome (List ℕ)

-- `?` on a parse: an error leaves the context as it is.
abbrev pub and_then : {A : Type 0} → MctpEndpointContext → Result A → (A → Handled) → Handled
and_then ctx (ok a) f = f a
and_then ctx (err e) f = (ctx, returns (err e))

module _ ⦃c : Crates⦄ where
  -- `create_response_payload(resp.hdr, resp.into())` as bytes.
  pub respond : {T : Type 0} → Message T → ControlPayload → T → List ℕ
  respond m p resp = into_bytes (create_response_payload p (m.hdr resp) (to_bytes m.wire resp))

  handle_set_endpoint_id : MctpEndpointContext → ControlPayload → Handled
  handle_set_endpoint_id ctx p = and_then ctx (try_from_payload SetEid.request_wire p) λ req.
      let ctx' = record ctx { assigned_eid = req.eid } in
      let resp = SetEid.from req success no_pool_support accepted ctx'.assigned_eid 0 in
      (ctx', returns (ok (respond SetEid.response_message p resp)))

  handle_get_endpoint_id : MctpEndpointContext → ControlPayload → Handled
  handle_get_endpoint_id ctx p = and_then ctx (try_from_payload GetEid.request_wire p) λ req.
      let resp = GetEid.from req success 0x00 dynamic simple 0 in
      (ctx, returns (ok (respond GetEid.response_message p resp)))

  handle_discovery_notify : MctpEndpointContext → ControlPayload → Handled
  handle_discovery_notify ctx p = and_then ctx (try_from_payload Empty.request_wire p) λ req.
      let resp = Empty.from req success in
      (
        record ctx { perform_discovery = true },
        returns (ok (respond Empty.response_message p resp)),
      )

  handle_get_routing_table : MctpEndpointContext → ControlPayload → Handled
  handle_get_routing_table ctx p =
      and_then ctx (try_from_payload GetRoutingTable.request_wire p) λ req.
        let resp = GetRoutingTable.from req success 0xff 0 in
        (ctx, returns (ok (respond GetRoutingTable.response_message p resp)))

  handle_unsupported : MctpEndpointContext → ControlPayload → Handled
  handle_unsupported ctx p = and_then ctx (try_from_payload Empty.request_wire p) λ req.
      let resp = Empty.from req error_unsupported_cmd in
      (ctx, returns (ok (respond Empty.response_message p resp)))

  -- `match payload.command_code()`; the branch `Err(_)` is `todo!()`.
  pub dispatch : MctpEndpointContext → ControlPayload → Result CommandCode → Handled
  unfolding handle_set_endpoint_id handle_get_endpoint_id handle_discovery_notify
      handle_get_routing_table handle_unsupported
  dispatch ctx p (ok set_endpoint_id) = handle_set_endpoint_id ctx p
  dispatch ctx p (ok get_endpoint_id) = handle_get_endpoint_id ctx p
  dispatch ctx p (ok discovery_notify) = handle_discovery_notify ctx p
  dispatch ctx p (ok get_routing_table_entries) = handle_get_routing_table ctx p
  dispatch ctx p (ok _) = handle_unsupported ctx p
  dispatch ctx p (err e) = (ctx, panics)

  pub handle_request : MctpEndpointContext → List ℕ → Handled
  handle_request ctx bytes =
      and_then ctx (try_from_bytes bytes) λ p. dispatch ctx p (command_code p)
