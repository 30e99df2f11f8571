-- ===== src/Control/SetEid/Fields.antt =====
-- What the Set Endpoint ID constructors store.
use mctp_emu.Prelude.{ℕ, ◌+◌, ◌*◌, ◌<◌, ◌≡◌, refl, arith}
use mctp_emu.Crates.{Crates}
use mctp_emu.Crates.Bits.{set_bits_clear}
use mctp_emu.Control.EnumWire.{from_u8-as_u8}
use mctp_emu.Control.Header.{rq, instance_id}
use mctp_emu.Control.Header.Fields.{IsPacked, set_rq_fields}
use mctp_emu.Control.Status.{completion_code}
use mctp_emu.Control.CompletionCode.{CompletionCode, completion_code_repr}
use mctp_emu.Control.SetEid.{
  Request, new_request, from, eid_allocation_status, raw_eid_allocation_status,
  eid_assignment_status,
}
use mctp_emu.Control.SetEid.Enums.{
  Operation, operation_as_u8, EidAssignmentStatus, eid_assignment_status_as_u8, EidAllocationStatus,
  eid_allocation_status_as_u8, eid_allocation_status_repr,
}

operation-lt : (op : Operation) → operation_as_u8 op < 4
operation-lt Operation.set_eid = omega arith
operation-lt _ = omega arith

allocation-lt : (s : EidAllocationStatus) → eid_allocation_status_as_u8 s < 4
allocation-lt EidAllocationStatus.no_pool_support = omega arith
allocation-lt _ = omega arith

assignment-lt : (s : EidAssignmentStatus) → eid_assignment_status_as_u8 s < 4
assignment-lt EidAssignmentStatus.accepted = omega arith
assignment-lt _ = omega arith

module _ ⦃c : Crates⦄ where
  open c use {set_bits, get_bits_lem}

  pub new_request-operation :
      (hdr : mctp_emu.Control.Header.ControlMsgHeader) (op : Operation) (eid : ℕ)
      → (new_request hdr op eid).operation_reserved ≡ operation_as_u8 op
  unfolding new_request
  new_request-operation hdr op eid = omega (
    arith,
    operation-lt op,
    set_bits_clear 0 0 1 (operation_as_u8 op) (omega arith) (omega arith) (omega arith)
        (omega arith),
  )

  pub from-status :
      (req : Request) (code : CompletionCode) (al : EidAllocationStatus) (as' : EidAssignmentStatus)
      (setting pool : ℕ)
      → (from req code al as' setting
          pool).eid_allocation_status_reserved1_eid_assignment_status_reserved2
        ≡ eid_allocation_status_as_u8 al + 16 * eid_assignment_status_as_u8 as'
  unfolding from
  from-status req code al as' setting pool =
      let x = eid_allocation_status_as_u8 al in
      let y = eid_assignment_status_as_u8 as' in
      let a = set_bits 0 0 1 x in
      let ea : a ≡ x = omega (
        arith,
        allocation-lt al,
        set_bits_clear 0 0 1 x (omega arith) (omega arith) (omega arith) (omega arith),
      ) in
      let hx = allocation-lt al in
      omega (
        arith,
        assignment-lt as',
        set_bits_clear a 4 5 y (omega arith) (omega arith) (omega arith) (omega arith),
      )

  -- The response that `Response::from` makes for a request with a header of bytes has the request's
  -- command code and instance id and a cleared request bit, and its accessors return the completion
  -- code, the two statuses, the EID and the pool size that it was given.
  set_eid_from_fields :
      (req : Request) (code : CompletionCode) (al : EidAllocationStatus) (as' : EidAssignmentStatus)
      (setting pool : ℕ)
      → IsPacked req.hdr
      → let r = from req code al as' setting pool in
        (rq r.hdr ≡ 0)
        × (r.hdr.command_code ≡ req.hdr.command_code)
        × (instance_id r.hdr ≡ instance_id req.hdr)
        × (completion_code r.completion_code ≡ code)
        × (eid_allocation_status r ≡ al)
        × (eid_assignment_status r ≡ eid_assignment_status_as_u8 as')
        × (r.eid_setting ≡ setting)
        × (r.eid_pool_size ≡ pool)
  set_eid_from_fields req code al as' setting pool p =
      let h = set_rq_fields req.hdr p in
      let r = from req code al as' setting pool in
      let b = r.eid_allocation_status_reserved1_eid_assignment_status_reserved2 in
      let e = from-status req code al as' setting pool in
      let x = allocation-lt al in
      let y = assignment-lt as' in
      let raw : raw_eid_allocation_status r ≡ eid_allocation_status_as_u8 al =
        unfold raw_eid_allocation_status in
        omega (
          arith,
          e,
          x,
          y,
          get_bits_lem b 0 1 (omega (arith, e, x, y)) (omega arith) (omega arith),
        ) in
      (
        unfold from in h.0,
        unfold from in h.1,
        unfold from in h.4,
        unfold from completion_code in from_u8-as_u8 completion_code_repr code,
        unfold eid_allocation_status in rw raw (from_u8-as_u8 eid_allocation_status_repr al),
        (unfold eid_assignment_status in
            omega (
              arith,
              e,
              x,
              y,
              get_bits_lem b 4 5 (omega (arith, e, x, y)) (omega arith) (omega arith),
            )),
        unfold from in refl,
        unfold from in refl,
      )
