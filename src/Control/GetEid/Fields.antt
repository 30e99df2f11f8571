-- ===== src/Control/GetEid/Fields.antt =====
-- What the Get Endpoint ID constructors store.
use mctp_emu.Prelude.{ℕ, ◌+◌, ◌*◌, ◌<◌, ◌≡◌, refl, arith}
use mctp_emu.Crates.{Crates}
use mctp_emu.Crates.Bits.{set_bits_clear}
use mctp_emu.Control.EnumWire.{from_u8-as_u8}
use mctp_emu.Control.Header.{rq, instance_id}
use mctp_emu.Control.Header.Fields.{IsPacked, set_rq_fields}
use mctp_emu.Control.Status.{completion_code}
use mctp_emu.Control.CompletionCode.{CompletionCode, completion_code_repr}
use mctp_emu.Control.GetEid.{Request, from, eid_type, endpoint_type}
use mctp_emu.Control.GetEid.Enums.{EidType, eid_type_as_u8, EndpointType, endpoint_type_as_u8}

eid_type-lt : (t : EidType) → eid_type_as_u8 t < 4
eid_type-lt EidType.dynamic = omega arith
eid_type-lt _ = omega arith

endpoint_type-lt : (t : EndpointType) → endpoint_type_as_u8 t < 2
endpoint_type-lt EndpointType.simple = omega arith
endpoint_type-lt _ = omega arith

module _ ⦃c : Crates⦄ where
  open c use {set_bits, get_bits_lem}

  pub from-types :
      (req : Request) (code : CompletionCode) (eid : ℕ) (ty : EidType) (ep : EndpointType) (m : ℕ)
      → (from req code eid ty ep m).eid_endpoint_type
        ≡ eid_type_as_u8 ty + 16 * endpoint_type_as_u8 ep
  unfolding from
  from-types req code eid ty ep m =
      let x = eid_type_as_u8 ty in
      let y = endpoint_type_as_u8 ep in
      let hx = eid_type-lt ty in
      let a = set_bits 0 0 1 x in
      let ea : a ≡ x =
        omega
          (arith, set_bits_clear 0 0 1 x (omega arith) (omega arith) (omega arith) (omega arith)) in
      omega (
        arith,
        endpoint_type-lt ep,
        set_bits_clear a 4 5 y (omega arith) (omega arith) (omega arith) (omega arith),
      )

  -- The response that `Response::from` makes for a request with a header of bytes has the request's
  -- command code and instance id and a cleared request bit, and its accessors return the completion
  -- code, the EID, the two types and the medium byte that it was given.
  pub get_eid_from_fields :
      (req : Request) (code : CompletionCode) (eid : ℕ) (ty : EidType) (ep : EndpointType) (m : ℕ)
      → IsPacked req.hdr
      → let r = from req code eid ty ep m in
        (rq r.hdr ≡ 0)
        × (r.hdr.command_code ≡ req.hdr.command_code)
        × (instance_id r.hdr ≡ instance_id req.hdr)
        × (completion_code r.completion_code ≡ code)
        × (r.eid ≡ eid)
        × (eid_type r ≡ eid_type_as_u8 ty)
        × (endpoint_type r ≡ endpoint_type_as_u8 ep)
        × (r.medium_specific ≡ m)
  get_eid_from_fields req code eid ty ep m p =
      let h = set_rq_fields req.hdr p in
      let r = from req code eid ty ep m in
      let b = r.eid_endpoint_type in
      let e = from-types req code eid ty ep m in
      let x = eid_type-lt ty in
      let y = endpoint_type-lt ep in
      (
        unfold from in h.0,
        unfold from in h.1,
        unfold from in h.4,
        unfold from completion_code in from_u8-as_u8 completion_code_repr code,
        unfold from in refl,
        unfold eid_type in
            omega (
              arith,
              e,
              x,
              y,
              get_bits_lem b 0 1 (omega (arith, e, x, y)) (omega arith) (omega arith),
            ),
        unfold endpoint_type in
            omega (
              arith,
              e,
              x,
              y,
              get_bits_lem b 4 5 (omega (arith, e, x, y)) (omega arith) (omega arith),
            ),
        unfold from in refl,
      )
