-- ===== src/Endpoint/Responder/Reference.antt =====
-- The endpoint as a table of answers: what `handle_request` does, read off the bytes of a packet.
use mctp_emu.Prelude.{
  ℕ, ◌+◌, ◌≤◌, ◌<◌, ◌≡◌, ◌≢◌, refl, ap, sym, ◌∙◌, List, [], ◌∷◌, length, true, arith, All, IsByte,
  ltb, ◌==◌, if◌then◌else◌, inl, inr,
}
use mctp_emu.Crates.{Crates}
use mctp_emu.Base.Errors.{ok, err, invalid_payload_size}
use mctp_emu.Base.Wire.Conversion.{try_from_short}
use mctp_emu.Control.CommandCode.{
  CommandCode, command_code_as_u8, command_code_from, command_code_repr, unknown, set_endpoint_id,
  get_endpoint_id, discovery_notify, get_routing_table_entries,
}
use mctp_emu.Control.EnumWire.{from_u8-as_u8, from_u8_cases}
use mctp_emu.Control.Payload.{try_from_payload, command_code, known_code}
use mctp_emu.Control.Payload.Parse.{parse_lem}
use mctp_emu.Control.GetRoutingTable
use mctp_emu.Endpoint.Context.{MctpEndpointContext, returns, panics}
use mctp_emu.Endpoint.Responder.{handle_request, dispatch, Handled}
use mctp_emu.Endpoint.Responder.Requests.{
  Front, IsFront, request, answer, set_endpoint_id_answer, get_endpoint_id_answer,
  discovery_notify_answer, get_routing_table_answer, unsupported_answer,
}
use mctp_emu.Endpoint.Responder.Panics.{
  listed-cases, unknown-past, command_code_from-unknown, handle_request_lem,
  set_endpoint_id_truncated, handle_request_short,
}

module _ (ctx : MctpEndpointContext) (f : Front) where
  abbrev pub serve_set_endpoint_id : List ℕ → Handled
  serve_set_endpoint_id (op ∷ eid ∷ rest) =
      (record ctx { assigned_eid = eid }, returns (ok (answer f 0x01 (0 ∷ 0 ∷ eid ∷ 0 ∷ []))))
  serve_set_endpoint_id body = (ctx, returns (err (invalid_payload_size 5 (3 + length body))))

  abbrev pub serve_get_routing_table : List ℕ → Handled
  serve_get_routing_table (handle ∷ rest) = (ctx, returns (ok (answer f 0x0a (0 ∷ 0xff ∷ 0 ∷ []))))
  serve_get_routing_table [] = (ctx, returns (err (invalid_payload_size 4 3)))

  -- The answer to a command code and the bytes behind it.
  abbrev pub serve : (code : ℕ) → List ℕ → Handled
  serve code body =
      if code == 0x01
      then serve_set_endpoint_id body
      else if code == 0x02
      then (ctx, returns (ok (answer f 0x02 (0 ∷ 0 ∷ 0 ∷ 0 ∷ []))))
      else if code == 0x0a
      then serve_get_routing_table body
      else if code == 0x0d
      then (record ctx { perform_discovery = true }, returns (ok (answer f 0x0d (0 ∷ []))))
      else if ltb code 0x15
      then (ctx, returns (ok (answer f code (5 ∷ []))))
      else (ctx, panics)

-- The answer to a packet.
unfoldable pub reference : MctpEndpointContext → List ℕ → Handled
reference ctx (version ∷ dst ∷ src ∷ flags ∷ first ∷ second ∷ code ∷ body) =
    let f : Front = record {
      version = version;
      dst = dst;
      src = src;
      flags = flags;
      first = first;
      second = second;
    } in
    serve ctx f code body
reference ctx bytes = (ctx, returns (err (invalid_payload_size 7 (length bytes))))

module _ ⦃c : Crates⦄ (ctx : MctpEndpointContext) (f : Front) (h : IsFront f) where
  get_routing_table_truncated :
      handle_request ctx (request f 0x0a []) ≡ (ctx, returns (err (invalid_payload_size 4 3)))
  unfolding handle_request command_code dispatch try_from_payload
  get_routing_table_truncated = rw (
    parse_lem,
    from_u8-as_u8 command_code_repr get_routing_table_entries,
    try_from_short GetRoutingTable.request_wire (f.first ∷ f.second ∷ 0x0a ∷ []) (omega arith),
  )

  served-listed :
      (code : CommandCode) (body : List ℕ)
      → code ≢ unknown
      → handle_request ctx (request f (command_code_as_u8 code) body)
        ≡ serve ctx f (command_code_as_u8 code) body
  served-listed unknown body u = absurd (u refl)
  served-listed set_endpoint_id [] u = set_endpoint_id_truncated ctx f [] (omega arith)
  served-listed set_endpoint_id (op ∷ []) u =
      set_endpoint_id_truncated ctx f (op ∷ []) (omega arith)
  served-listed set_endpoint_id (op ∷ eid ∷ rest) u = set_endpoint_id_answer ctx f op eid rest h
  served-listed get_endpoint_id body u = get_endpoint_id_answer ctx f body h
  served-listed discovery_notify body u = discovery_notify_answer ctx f body h
  served-listed get_routing_table_entries [] u = get_routing_table_truncated
  served-listed get_routing_table_entries (handle ∷ rest) u =
      get_routing_table_answer ctx f handle rest h
  served-listed code body u = unsupported_answer ctx f code body h tt

  served-code :
      (code : CommandCode) (n : ℕ) (body : List ℕ)
      → command_code_as_u8 code < 0x15
      → command_code_as_u8 code ≡ n
      → handle_request ctx (request f n body) ≡ serve ctx f n body
  served-code code n body l e =
      rw (← e) (served-listed code body (λ u. omega (arith, l, ap command_code_as_u8 u)))

  serve-past : (n : ℕ) (body : List ℕ) → 0x15 ≤ n → serve ctx f n body ≡ (ctx, panics)
  serve-past n body p = ground arith

  served-past :
      (n : ℕ) (body : List ℕ) → 0x15 ≤ n → handle_request ctx (request f n body) ≡ (ctx, panics)
  unfolding dispatch
  served-past n body p =
      let (q, e) = handle_request_lem ctx f n body in
      e ∙ ap (λ (k : CommandCode). dispatch ctx q (known_code k)) (command_code_from-unknown n p)

  served : (n : ℕ) (body : List ℕ) → handle_request ctx (request f n body) ≡ serve ctx f n body
  served n body = elim (listed-cases (command_code_from n)) [
    | inl u ↦ let p = unknown-past n u in served-past n body p ∙ sym (serve-past n body p)
    | inr l ↦ elim (from_u8_cases command_code_repr n) [
      | inl e ↦ served-code (command_code_from n) n body l e
      | inr (_, d) ↦ absurd (omega (arith, l, ap command_code_as_u8 d))
    ]
  ]

module _ ⦃c : Crates⦄ (ctx : MctpEndpointContext) where
  -- The endpoint does with every packet of bytes what the table of answers says: it refuses a packet
  -- without both headers and a request without its operands, answers a listed command byte for byte and
  -- with the change to its context, and panics at any other command.
  pub handle_request-reference :
      (bytes : List ℕ) → All IsByte bytes → handle_request ctx bytes ≡ reference ctx bytes
  unfolding reference
  handle_request-reference (v ∷ d ∷ s ∷ b ∷ x ∷ y ∷ n ∷ body) h =
      served ctx (record { version = v; dst = d; src = s; flags = b; first = x; second = y })
        (record { flags_byte = h.1.1.1.0; second_byte = h.1.1.1.1.1.0 }) n body
  handle_request-reference [] h = handle_request_short ctx [] (omega arith)
  handle_request-reference (a ∷ []) h = handle_request_short ctx (a ∷ []) (omega arith)
  handle_request-reference (a ∷ b ∷ []) h = handle_request_short ctx (a ∷ b ∷ []) (omega arith)
  handle_request-reference (a ∷ b ∷ d ∷ []) h =
      handle_request_short ctx (a ∷ b ∷ d ∷ []) (omega arith)
  handle_request-reference (a ∷ b ∷ d ∷ e ∷ []) h =
      handle_request_short ctx (a ∷ b ∷ d ∷ e ∷ []) (omega arith)
  handle_request-reference (a ∷ b ∷ d ∷ e ∷ f ∷ []) h =
      handle_request_short ctx (a ∷ b ∷ d ∷ e ∷ f ∷ []) (omega arith)
  handle_request-reference (a ∷ b ∷ d ∷ e ∷ f ∷ g ∷ []) h =
      handle_request_short ctx (a ∷ b ∷ d ∷ e ∷ f ∷ g ∷ []) (omega arith)
