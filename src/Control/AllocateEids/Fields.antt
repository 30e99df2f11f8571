-- ===== src/Control/AllocateEids/Fields.antt =====
-- What the Allocate Endpoint IDs constructors store.
use mctp_emu.Prelude.{ℕ, ◌<◌, ◌≡◌, refl, arith}
use mctp_emu.Crates.{Crates}
use mctp_emu.Crates.Bits.{set_bits_clear}
use mctp_emu.Control.EnumWire.{from_u8-as_u8}
use mctp_emu.Control.Header.{ControlMsgHeader, rq, instance_id}
use mctp_emu.Control.Header.Fields.{IsPacked, set_rq_fields}
use mctp_emu.Control.AllocateEids.{
  Request, new_request, from, allocation_status, raw_allocation_status,
}
use mctp_emu.Control.AllocateEids.Enums.{
  Operation, operation_as_u8, AllocationStatus, allocation_status_as_u8, allocation_status_repr,
}

operation-lt : (op : Operation) → operation_as_u8 op < 4
operation-lt Operation.allocate_eids = omega arith
operation-lt _ = omega arith

status-lt : (s : AllocationStatus) → allocation_status_as_u8 s < 4
status-lt AllocationStatus.allocation_accepted = omega arith
status-lt _ = omega arith

module _ ⦃c : Crates⦄ where
  open c use {set_bits, get_bits_lem}

  pub new_request-operation :
      (hdr : ControlMsgHeader) (op : Operation) (number starting : ℕ)
      → (new_request hdr op number starting).operation_reserved ≡ operation_as_u8 op
  unfolding new_request
  new_request-operation hdr op number starting = omega (
    arith,
    operation-lt op,
    set_bits_clear 0 0 1 (operation_as_u8 op) (omega arith) (omega arith) (omega arith)
        (omega arith),
  )

  pub from-status :
      (req : Request) (code : ℕ) (s : AllocationStatus) (pool first : ℕ)
      → (from req code s pool first).allocation_status_reserved ≡ allocation_status_as_u8 s
  unfolding from
  from-status req code s pool first = omega (
    arith,
    status-lt s,
    set_bits_clear 0 0 1 (allocation_status_as_u8 s) (omega arith) (omega arith) (omega arith)
        (omega arith),
  )

  -- The response that `Response::from` makes for a request with a header of bytes has the request's
  -- command code and instance id and a cleared request bit, and its accessors return the completion
  -- code, the status, the pool size and the first EID that it was given.
  pub allocate_eids_from_fields :
      (req : Request) (code : ℕ) (s : AllocationStatus) (pool first : ℕ)
      → IsPacked req.hdr
      → let r = from req code s pool first in
        (rq r.hdr ≡ 0)
        × (r.hdr.command_code ≡ req.hdr.command_code)
        × (instance_id r.hdr ≡ instance_id req.hdr)
        × (r.completion_code ≡ code)
        × (allocation_status r ≡ s)
        × (r.eid_pool_size ≡ pool)
        × (r.first_eid ≡ first)
  allocate_eids_from_fields req code s pool first p =
      let h = set_rq_fields req.hdr p in
      let r = from req code s pool first in
      let b = r.allocation_status_reserved in
      let e = from-status req code s pool first in
      let x = status-lt s in
      let raw : raw_allocation_status r ≡ allocation_status_as_u8 s =
        unfold raw_allocation_status in
        omega (arith, e, x, get_bits_lem b 0 1 (omega (arith, e, x)) (omega arith) (omega arith)) in
      (
        unfold from in h.0,
        unfold from in h.1,
        unfold from in h.4,
        unfold from in refl,
        unfold allocation_status in rw raw (from_u8-as_u8 allocation_status_repr s),
        unfold from in refl,
        unfold from in refl,
      )
