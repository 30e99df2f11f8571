-- ===== src/Endpoint/Responder/Assigned.antt =====
-- Which packets give the endpoint an EID.
use mctp_emu.Prelude.{
  ℕ, ◌≡◌, ◌≢◌, ◌⊎◌, inl, inr, List, [], ◌∷◌, All, IsByte, false, ltb, ◌==◌, if-cases, ==_iff, true,
  Bool-cases,
}
use mctp_emu.Crates.{Crates}
use mctp_emu.Endpoint.Context.{MctpEndpointContext}
use mctp_emu.Endpoint.Responder.{Handled, handle_request}
use mctp_emu.Endpoint.Responder.Requests.{Front}
use mctp_emu.Endpoint.Responder.Reference.{
  serve, serve_get_routing_table, reference, handle_request-reference,
}

-- A packet is no Set Endpoint ID request, or one with an EID of which P holds.
abbrev pub Sets : (ℕ → Type 0) → List ℕ → Type 0
Sets P (version ∷ dst ∷ src ∷ flags ∷ first ∷ second ∷ code ∷ op ∷ eid ∷ rest) =
    (code ≢ 0x01) ⊎ P eid
Sets P _ = Unit {0}

module _ (P : ℕ → Type 0) where
  -- P holds of the endpoint's EID.
  abbrev pub Assigned : MctpEndpointContext → Type 0
  Assigned ctx = P ctx.assigned_eid

  abbrev Leaves : Handled → Type 0
  Leaves (ctx, reply) = Assigned ctx

module _ (P : ℕ → Type 0) (ctx : MctpEndpointContext) (f : Front) (k : Assigned P ctx) where
  -- A command other than Set Endpoint ID.
  other-Leaves :
      (code : ℕ) (body : List ℕ) → (code == 0x01) ≡ false → Leaves P (serve ctx f code body)
  other-Leaves code body e = rw e (
      if-cases (Leaves P) (code == 0x02) _ _ (λ e. k)
        λ e.
          if-cases (Leaves P) (code == 0x0a) _ _ (λ e. routes body)
            λ e.
              if-cases (Leaves P) (code == 0x0d) _ _ (λ e. k)
                (λ e. if-cases (Leaves P) (ltb code 0x15) _ _ (λ e. k) (λ e. k)))
    where
      routes : (body : List ℕ) → Leaves P (serve_get_routing_table ctx f body)
      routes [] = k
      routes (handle ∷ rest) = k

  set-Leaves :
      (op eid code : ℕ) (rest : List ℕ)
      → (code ≢ 0x01) ⊎ P eid
      → (code == 0x01) ≡ true
      → Leaves P (serve ctx f code (op ∷ eid ∷ rest))
  set-Leaves op eid code rest (inl other) e = absurd (other ((==_iff code 0x01).0 e))
  set-Leaves op eid code rest (inr p) e = rw e p

  serve-Leaves :
      (code : ℕ) (body : List ℕ)
      → Sets P (f.version ∷ f.dst ∷ f.src ∷ f.flags ∷ f.first ∷ f.second ∷ code ∷ body)
      → Leaves P (serve ctx f code body)
  serve-Leaves code body h = elim (Bool-cases (code == 0x01)) [
    | inr other ↦ other-Leaves code body other
    | inl e ↦ set body h e
  ]
    where
      set :
          (body : List ℕ)
          → Sets P (f.version ∷ f.dst ∷ f.src ∷ f.flags ∷ f.first ∷ f.second ∷ code ∷ body)
          → (code == 0x01) ≡ true
          → Leaves P (serve ctx f code body)
      set [] h e = rw e k
      set (op ∷ []) h e = rw e k
      set (op ∷ eid ∷ rest) h e = set-Leaves op eid code rest h e

reference-Leaves :
    (P : ℕ → Type 0) (ctx : MctpEndpointContext) (bytes : List ℕ)
    → Assigned P ctx
    → Sets P bytes
    → Leaves P (reference ctx bytes)
unfolding reference
reference-Leaves P ctx (v ∷ d ∷ s ∷ b ∷ x ∷ y ∷ n ∷ body) k h =
    serve-Leaves P ctx (record { version = v; dst = d; src = s; flags = b; first = x; second = y })
      k n body h
reference-Leaves P ctx [] k h = k
reference-Leaves P ctx (a ∷ []) k h = k
reference-Leaves P ctx (a ∷ b ∷ []) k h = k
reference-Leaves P ctx (a ∷ b ∷ d ∷ []) k h = k
reference-Leaves P ctx (a ∷ b ∷ d ∷ e ∷ []) k h = k
reference-Leaves P ctx (a ∷ b ∷ d ∷ e ∷ f ∷ []) k h = k
reference-Leaves P ctx (a ∷ b ∷ d ∷ e ∷ f ∷ g ∷ []) k h = k

-- A packet of bytes changes the EID of the endpoint only if it is a Set Endpoint ID request, and then to the
-- EID in it.
pub handle_request-Assigned :
    ⦃c : Crates⦄
    → (P : ℕ → Type 0) (ctx : MctpEndpointContext) (bytes : List ℕ) → Assigned P ctx
    → All IsByte bytes
    → Sets P bytes
    → Assigned P (handle_request ctx bytes).0
handle_request-Assigned P ctx bytes k w h =
    rw (handle_request-reference ctx bytes w) (reference-Leaves P ctx bytes k h)
