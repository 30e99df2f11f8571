-- ===== src/Endpoint/Responder/Panics.antt =====
-- Which requests the endpoint refuses with an error, and at which it panics.
use mctp_emu.Prelude.{
  ℕ, ◌+◌, ◌≤◌, ◌<◌, ◌≡◌, ◌≢◌, refl, sym, ap, ◌∙◌, List, ◌∷◌, arith, length, ◌⊎◌, inl, inr, ◌↔◌,
}
use mctp_emu.Crates.{Crates}
use mctp_emu.Base.Errors.{err, invalid_payload_size}
use mctp_emu.Base.Wire.Conversion.{try_from_short}
use mctp_emu.Control.CommandCode.{
  CommandCode, command_code_as_u8, command_code_from, command_code_repr, unknown, reserved,
  set_endpoint_id,
}
use mctp_emu.Control.EnumWire.{from_u8-as_u8, from_u8_cases}
use mctp_emu.Control.Payload.{ControlPayload, new, try_from_payload, command_code, known_code}
use mctp_emu.Control.Payload.Parse.{header_of, control_header_of, parse_lem, parse_short}
use mctp_emu.Control.SetEid
use mctp_emu.Endpoint.Context.{MctpEndpointContext, returns, panics}
use mctp_emu.Endpoint.Responder.{handle_request, dispatch, Handled}
use mctp_emu.Endpoint.Responder.Requests.{Front, request}

listed-lt : (e : CommandCode) → e ≢ unknown → command_code_as_u8 e < 0x15
listed-lt unknown h = absurd (h refl)
listed-lt reserved h = omega arith
listed-lt _ h = omega arith

pub listed-cases : (e : CommandCode) → (e ≡ unknown) ⊎ (command_code_as_u8 e < 0x15)
listed-cases unknown = inl refl
listed-cases reserved = inr (omega arith)
listed-cases _ = inr (omega arith)

past_listed : (n : ℕ) → ((e : CommandCode) → command_code_as_u8 e ≢ n) → 0x15 ≤ n
past_listed n h = omega (
  arith,
  h CommandCode.reserved,
  h CommandCode.set_endpoint_id,
  h CommandCode.get_endpoint_id,
  h CommandCode.get_endpoint_uuid,
  h CommandCode.get_mctp_version_support,
  h CommandCode.get_message_type_support,
  h CommandCode.get_vendor_defined_message_support,
  h CommandCode.resolve_endpoint_id,
  h CommandCode.allocate_endpoint_ids,
  h CommandCode.routing_information_update,
  h CommandCode.get_routing_table_entries,
  h CommandCode.prepare_for_endpoint_discovery,
  h CommandCode.endpoint_discovery,
  h CommandCode.discovery_notify,
  h CommandCode.get_network_id,
  h CommandCode.query_hop,
  h CommandCode.resolve_uuid,
  h CommandCode.query_rate_limit,
  h CommandCode.request_tx_rate_limit,
  h CommandCode.update_rate_limit,
  h CommandCode.query_supported_interfaces,
)

module _ ⦃c : Crates⦄ where
  -- A command code past the listed ones is read as `Unknown`.
  pub command_code_from-unknown : (n : ℕ) → 0x15 ≤ n → command_code_from n ≡ unknown
  command_code_from-unknown n h = elim (from_u8_cases command_code_repr n) [
    | inl e ↦ elim (listed-cases (command_code_from n)) [
      | inl u ↦ u
      | inr l ↦ absurd (omega (arith, e, l, h))
    ]
    | inr (_, d) ↦ d
  ]

  dispatch_known :
      (ctx : MctpEndpointContext) (p : ControlPayload) (code : CommandCode)
      → code ≢ unknown
      → (dispatch ctx p (known_code code)).1 ≢ panics
  unfolding dispatch
  dispatch_known ctx p unknown h = absurd (h refl)
  dispatch_known ctx p reserved h = ground arith
  dispatch_known ctx p _ h = ground arith

  -- A byte that is read as `Unknown` is none of the listed codes.
  pub unknown-past : (n : ℕ) → command_code_from n ≡ unknown → 0x15 ≤ n
  unknown-past n u = elim (from_u8_cases command_code_repr n) [
    | inl e ↦ omega (arith, e, ap command_code_as_u8 u)
    | inr (h, _) ↦ past_listed n h
  ]

  pub handle_request_lem :
      (ctx : MctpEndpointContext) (f : Front) (n : ℕ) (body : List ℕ)
      → (p : ControlPayload) × (handle_request ctx (request f n body)
          ≡ dispatch ctx p (known_code (command_code_from n)))
  unfolding handle_request command_code
  handle_request_lem ctx f n body = (
    new (header_of f.version f.dst f.src f.flags) (control_header_of f.first f.second n)
        (f.first ∷ f.second ∷ n ∷ body),
    rw parse_lem,
  )

  -- On a packet that holds both headers the endpoint panics exactly when the command code is past
  -- the listed ones.
  pub handle_request_panics :
      (ctx : MctpEndpointContext) (f : Front) (n : ℕ) (body : List ℕ)
      → ((handle_request ctx (request f n body)).1 ≡ panics) ↔ (0x15 ≤ n)
  handle_request_panics ctx f n body =
      let (p, e) = handle_request_lem ctx f n body in
      let e' = ap (λ (r : Handled). r.1) e in
      (
        λ q. elim (listed-cases (command_code_from n)) [
          | inl u ↦ unknown-past n u
          | inr l ↦ absurd (
              dispatch_known ctx p (command_code_from n)
                (λ u. omega (arith, l, ap command_code_as_u8 u)) (sym e' ∙ q))
        ],
        λ h.
            e'
            ∙ ap (λ (k : CommandCode). (dispatch ctx p (known_code k)).1)
                (command_code_from-unknown n h)
            ∙ unfold dispatch in refl,
      )

  -- A Set Endpoint ID request cut before its EID is refused with the sizes, and the EID is kept.
  pub set_endpoint_id_truncated :
      (ctx : MctpEndpointContext) (f : Front) (body : List ℕ)
      → length body < 2
      → handle_request ctx (request f 0x01 body)
        ≡ (ctx, returns (err (invalid_payload_size 5 (3 + length body))))
  unfolding handle_request command_code dispatch try_from_payload
  set_endpoint_id_truncated ctx f body h =
      rw
        (
          parse_lem,
          from_u8-as_u8 command_code_repr set_endpoint_id,
          try_from_short SetEid.request_wire (f.first ∷ f.second ∷ 0x01 ∷ body) (omega arith),
        )
        (ap (λ n. (ctx, returns (err (invalid_payload_size 5 n)))) (omega arith))

  -- Bytes that do not hold both headers are refused with their number, and change nothing.
  pub handle_request_short :
      (ctx : MctpEndpointContext) (bytes : List ℕ)
      → length bytes < 7
      → handle_request ctx bytes ≡ (ctx, returns (err (invalid_payload_size 7 (length bytes))))
  unfolding handle_request
  handle_request_short ctx bytes h = rw (parse_short bytes h)
