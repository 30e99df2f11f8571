-- ===== src/Endpoint/Transport/Crash.antt =====
-- Which datagrams end the task that owns the socket.
use mctp_emu.Prelude.{
  ℕ, ◌≤◌, ◌<◌, ◌≡◌, ◌≢◌, refl, ap, List, [], ◌∷◌, length, some, none, Option, Bool, true, false,
  All, IsByte, ◌⊎◌, inl, inr, ◌↔◌, arith, Bool-cases, ltb, le→ltb, ◌==◌,
}
use mctp_emu.Crates.{Crates}
use mctp_emu.Base.Errors.{ok, err}
use mctp_emu.Endpoint.Context.{MctpEndpointContext, returns, panics}
use mctp_emu.Endpoint.Responder.{Handled, handle_request}
use mctp_emu.Endpoint.Responder.Reference.{handle_request-reference, reference}
use mctp_emu.Endpoint.Flow.{MsgFlowTag, take_flow, create_tag}
use mctp_emu.Endpoint.Transport.{
  Transport, Done, aborted, receive_msg, handle_cmd, match_flow, answer_request, claim,
  send_cmd_closure,
}
use mctp_emu.Endpoint.Transport.Frames.{transmit_lem}

-- A packet with both headers and a command code past the listed ones.
abbrev pub Unlisted : List ℕ → Type 0
Unlisted (v ∷ d ∷ s ∷ b ∷ x ∷ y ∷ n ∷ body) = 0x15 ≤ n
Unlisted packet = ⊥

-- An answer that is refused or fits in a frame.
abbrev Quiet : Handled → Type 0
Quiet (ctx, returns (ok reply)) = length reply < 255
Quiet (ctx, returns (err e)) = Unit {0}
Quiet (ctx, panics) = ⊥

reference-listed :
    (ctx : MctpEndpointContext) (v d s b x y n : ℕ) (body : List ℕ)
    → n < 0x15
    → Quiet (reference ctx (v ∷ d ∷ s ∷ b ∷ x ∷ y ∷ n ∷ body))
unfolding reference
reference-listed ctx v d s b x y n [] h = ground arith
reference-listed ctx v d s b x y n (op ∷ []) h = ground arith
reference-listed ctx v d s b x y n (op ∷ eid ∷ rest) h = ground arith

reference-unlisted :
    (ctx : MctpEndpointContext) (v d s b x y n : ℕ) (body : List ℕ)
    → 0x15 ≤ n
    → reference ctx (v ∷ d ∷ s ∷ b ∷ x ∷ y ∷ n ∷ body) ≡ (ctx, panics)
unfolding reference
reference-unlisted ctx v d s b x y n body h = ground arith

at_or_past : (n : ℕ) → (0x15 ≤ n) ⊎ (n < 0x15)
at_or_past n = elim (Bool-cases (ltb n 0x15)) [
  | inl e ↦ inr (ground (arith, e))
  | inr e ↦ inl (ground (arith, e))
]

reference-cases :
    (ctx : MctpEndpointContext) (bytes : List ℕ)
    → (Unlisted bytes × (reference ctx bytes ≡ (ctx, panics)))
      ⊎ ((¬ Unlisted bytes) × Quiet (reference ctx bytes))
unfolding reference
reference-cases ctx (v ∷ d ∷ s ∷ b ∷ x ∷ y ∷ n ∷ body) = elim (at_or_past n) [
  | inl h ↦ inl (h, reference-unlisted ctx v d s b x y n body h)
  | inr h ↦ inr ((λ u. omega (arith, u, h)), reference-listed ctx v d s b x y n body h)
]
reference-cases ctx [] = inr ((λ u. u), tt)
reference-cases ctx (a ∷ []) = inr ((λ u. u), tt)
reference-cases ctx (a ∷ b ∷ []) = inr ((λ u. u), tt)
reference-cases ctx (a ∷ b ∷ d ∷ []) = inr ((λ u. u), tt)
reference-cases ctx (a ∷ b ∷ d ∷ e ∷ []) = inr ((λ u. u), tt)
reference-cases ctx (a ∷ b ∷ d ∷ e ∷ f ∷ []) = inr ((λ u. u), tt)
reference-cases ctx (a ∷ b ∷ d ∷ e ∷ f ∷ g ∷ []) = inr ((λ u. u), tt)

module _ ⦃c : Crates⦄ {S : Type 0} (pec : List ℕ → ℕ) where
  answered-alive :
      (t : Transport S) (h : Handled) → Quiet h → (answer_request pec true t h).1 ≢ aborted
  unfolding send_cmd_closure
  answered-alive t (ctx, returns (ok reply)) q e =
      let s =
        ap (λ (r : Transport S × Done S). r.1)
          (transmit_lem pec (record t { ctx = ctx }) reply q) in
      absurd (cc (s, e))
  answered-alive t (ctx, returns (err e)) q d = absurd (cc d)
  answered-alive t (ctx, panics) q d = q

  -- The task lives through a request for this endpoint unless its command is past the listed ones.
  pub request-aborted :
      (t : Transport S) (bytes : List ℕ)
      → All IsByte bytes
      → ((answer_request pec true t (handle_request t.ctx bytes)).1 ≡ aborted) ↔ Unlisted bytes
  request-aborted t bytes h =
      rw (handle_request-reference t.ctx bytes h) (elim (reference-cases t.ctx bytes) [
        | inl (u, e) ↦ ((λ a. u), (λ v. rw e refl))
        | inr (u, q) ↦
            ((λ a. absurd (answered-alive t (reference t.ctx bytes) q a)), (λ v. absurd (u v)))
      ])

module _ ⦃c : Crates⦄ {S : Type 0} (listening : S → Bool) (t : Transport S) where
  -- What a packet must be to end the task: the answer to a flow on whose channel nobody listens, or, as no
  -- flow is answered, a request with a command code past the listed ones.
  abbrev pub Fatal : (packet : List ℕ) → Option ((MsgFlowTag × S) × List (MsgFlowTag × S)) → Type 0
  Fatal packet none = Unlisted packet
  Fatal packet (some ((tag, resp), flows)) = listening resp ≡ false

  -- The same of a datagram, in its frame.
  abbrev pub FatalDatagram : List ℕ → Type 0
  FatalDatagram (a ∷ m ∷ b ∷ d ∷ packet) =
      (m ≡ 0x0f)
      × (tag : MsgFlowTag) × (create_tag packet ≡ some tag)
      × Fatal packet (take_flow tag t.pending_cmd)
  FatalDatagram buf = ⊥

module _ ⦃c : Crates⦄ {S : Type 0} (pec : List ℕ → ℕ) (listening : S → Bool) (t : Transport S) where
  claim-aborted :
      (packet : List ℕ) (o : Option ((MsgFlowTag × S) × List (MsgFlowTag × S)))
      → All IsByte packet
      → ((claim pec true listening t packet o).1 ≡ aborted) ↔ Fatal listening t packet o
  claim-aborted packet none h = request-aborted pec t packet h
  claim-aborted packet (some ((tag, resp), flows)) h = elim (Bool-cases (listening resp)) [
    | inl e ↦ rw e ((λ d. absurd (cc d)), (λ d. absurd (cc d)))
    | inr e ↦ rw e ((λ d. refl), (λ d. refl))
  ]

  match_flow-aborted :
      (packet : List ℕ) (o : Option MsgFlowTag)
      → create_tag packet ≡ o
      → All IsByte packet
      → ((match_flow pec true listening t packet o).1 ≡ aborted) ↔ (
          (tag : MsgFlowTag) × (create_tag packet ≡ some tag)
          × Fatal listening t packet (take_flow tag t.pending_cmd))
  match_flow-aborted packet none e h = ((λ d. absurd (cc d)), (λ (tag, e', f). absurd (cc (e, e'))))
  match_flow-aborted packet (some tag) e h =
      let p = claim-aborted packet (take_flow tag t.pending_cmd) h in
      (
        (λ d. (tag, e, p.0 d)),
        (λ (tag', e', f). let same : tag' ≡ tag = cc (e, e') in p.1 (rw same at f)),
      )

  -- A datagram of bytes ends the task that owns the socket, where the socket takes what is sent, exactly
  -- if behind a frame header with the MCTP command code stands a packet that answers a flow, on whose
  -- channel nobody listens any more, or that answers none and is a request with a command code past the
  -- listed ones; every other datagram leaves the task alive.
  pub handle_cmd-aborted :
      (buf : List ℕ)
      → All IsByte buf
      → ((handle_cmd pec true listening t (receive_msg buf)).1 ≡ aborted)
        ↔ FatalDatagram listening t buf
  unfolding handle_cmd
  handle_cmd-aborted [] h = ((λ d. absurd (cc d)), (λ u. absurd u))
  handle_cmd-aborted (a ∷ []) h = ((λ d. absurd (cc d)), (λ u. absurd u))
  handle_cmd-aborted (a ∷ m ∷ []) h = ((λ d. absurd (cc d)), (λ u. absurd u))
  handle_cmd-aborted (a ∷ m ∷ b ∷ []) h = ((λ d. absurd (cc d)), (λ u. absurd u))
  handle_cmd-aborted (a ∷ m ∷ b ∷ d ∷ packet) h =
      let long = le→ltb (length (a ∷ m ∷ b ∷ d ∷ packet)) 4 (omega arith) in
      let (p, q) = match_flow-aborted packet (create_tag packet) refl h.1.1.1.1 in
      elim (Bool-cases (m == 0x0f)) [
        | inl e ↦
            rw (long, e)
              (
                (λ r. let (tag, i, f) = p r in (ground (arith, e), tag, i, f)),
                (λ (s, tag, i, f). q (tag, i, f)),
              )
        | inr e ↦
            rw (long, e) ((λ r. absurd (cc r)), (λ (s, tag, i, f). absurd (ground (arith, e, s))))
      ]
