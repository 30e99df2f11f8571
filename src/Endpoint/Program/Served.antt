-- ===== src/Endpoint/Program/Served.antt =====
-- examples/basic_bus_owner_loop.rs, run twice, with all its tasks and its channels: the bus owner of the one
-- program sends through it to the other program and back.
use mctp_emu.Prelude.{
  ℕ, ◌+◌, ◌<◌, ◌≤◌, ◌≡◌, refl, List, [], ◌∷◌, ◌++◌, length, length-append, Option, none, some, Bool,
  true, arith,
}
use mctp_emu.Crates.{Crates}
use mctp_emu.Crates.Mpsc.{Mpsc}
use mctp_emu.Base.Errors.{ok}
use mctp_emu.Control.MessageType.{control}
use mctp_emu.Endpoint.Context.{returns}
use mctp_emu.Endpoint.Transport.{Done, transmitted, responded, PhysicalTransportCommands, send_msg}
use mctp_emu.Endpoint.Responder.Requests.{request}
use mctp_emu.Endpoint.Transport.Frames.{datagram}
use mctp_emu.Endpoint.Transport.Exchange.{handle_cmd-handle_cmd}
use mctp_emu.Endpoint.BusOwner.{EndpointContext, Owner, Reply, closed}
use mctp_emu.Endpoint.BusOwner.Discovery.{discover}
use mctp_emu.Endpoint.BusOwner.Serves.{Serves}
use mctp_emu.Endpoint.BusOwner.Answered.{discover-Serves}
use mctp_emu.Endpoint.BusOwner.Tasks.{heard}
use mctp_emu.Endpoint.Program.{Program, capacity, buffer_size, receive, send, handle}
use mctp_emu.Endpoint.Program.Pass.{Awake, send-handle, receive-handle}

-- The datagrams of the socket task are short.
pub datagram-fits :
    (pec : List ℕ → ℕ) (buf : List ℕ)
    → length buf < 255
    → (0 < length (datagram pec buf)) × (length (datagram pec buf) ≤ buffer_size)
datagram-fits pec buf h =
    let framed = 0x60 ∷ 0x0f ∷ (length buf + 1) ∷ 0x21 ∷ buf in
    let n = length-append framed (pec framed ∷ []) in (omega (arith, n), omega (arith, n, h))

module _ ⦃c : Crates⦄ {S Q Q' : Type 0} (m : Mpsc capacity (PhysicalTransportCommands (Unit {0})) Q)
    (m' : Mpsc capacity (PhysicalTransportCommands S) Q') (pec : List ℕ → ℕ)
    (listening : S → Bool) where
  abbrev pub Programs : Type 0
  Programs = Program (Unit {0}) Q × Program S Q'

  abbrev awaited : Unit {0} → Bool
  awaited resp = true

  -- What the bus owner hears of the last command of its program.
  abbrev back :
      Program S Q'
      → Program (Unit {0}) Q × Option (PhysicalTransportCommands (Unit {0}) × Done (Unit {0}))
      → Programs × Reply
  back far (near, some (cmd, d)) = ((near, far), heard d)
  back far (near, none) = ((near, far), closed)

  -- The datagram of the other program comes back.
  abbrev there :
      Program (Unit {0}) Q
      → Program S Q' × Option (PhysicalTransportCommands S × Done S)
      → Programs × Reply
  there near (far, some (cmd, transmitted d)) =
      back far (handle m pec true awaited (receive m near d).0)
  there near (far, _) = ((near, far), closed)

  -- The datagram of the bus owner's program goes out.
  abbrev forth :
      Program S Q'
      → Program (Unit {0}) Q × Option (PhysicalTransportCommands (Unit {0}) × Done (Unit {0}))
      → Programs × Reply
  forth far (near, some (cmd, transmitted d)) =
      there near (handle m' pec true listening (receive m' far d).0)
  forth far (near, _) = ((near, far), closed)

  -- A message of the bus owner, through the tasks and channels of both programs.
  unfoldable pub programs_bus : Programs → List ℕ → Programs × Reply
  programs_bus (near, far) bytes =
      forth far (handle m pec true awaited (send m near (send_msg control bytes (some tt))).0)

  -- All tasks run, no command waits, and no flow is pending.
  abbrev pub Rested : Programs → Type 0
  Rested (near, far) =
      (Awake m near × (near.transport.pending_cmd ≡ []))
      × (Awake m' far × (far.transport.pending_cmd ≡ []))

  pub programs_bus-Serves : Serves programs_bus (λ b. b.1.transport.ctx) Rested
  unfolding programs_bus
  programs_bus-Serves = record {
    serve = λ (near, far) f n body ctx reply ((awake, idle), (awake', idle')) h s s' replied.
        let sum' = pec (0x60 ∷ 0x0f ∷ (length reply + 1) ∷ 0x21 ∷ reply) in
        let (near', e₁, e₂, e₃) =
          handle_cmd-handle_cmd pec awaited near.transport listening far.transport control f n body
            tt ctx reply h.flags_byte (omega arith) s' (replied (_ ∷ [])) (rw idle tt) (rw idle' tt)
            refl in
        let (out, r₁, w₁, t₁) =
          send-handle m pec true awaited near _ _ _ awake e₁ (λ p q t. refl) in
        let (some_bytes, fits) = datagram-fits pec (request f n body) (omega arith) in
        let (far', r₂, w₂, t₂) =
          receive-handle m' pec true listening far _ _ _ awake' some_bytes fits e₂
            (λ p q t. refl) in
        let (some_bytes', fits') = datagram-fits pec reply s' in
        let (near'', r₃, w₃, t₃) =
          receive-handle m pec true awaited out (datagram pec reply) near.transport
            (responded tt (reply ++ (sum' ∷ []))) w₁ some_bytes' fits' (rw t₁ e₃) (λ p q t. refl) in
        (
          (near'', far'),
          sum' ∷ [],
          rw (r₁, r₂, r₃) refl,
          ((w₃, rw t₃ idle), (w₂, rw t₂ idle')),
          rw t₂ refl,
        );
  }

  -- A discovery between two whole programs: where all tasks of both run, no command waits in a channel, no
  -- flow is pending, and the next EID is below 255, what the bus owner of the one program asks goes through
  -- its channel and socket to the reader, the channel and the socket task of the other program, and the
  -- answers come back the same way. The discovery succeeds and gives the other program that next EID, its
  -- context is else as before, the next EID is one further, and both programs are at rest again.
  pub discover-programs_bus :
      (s : Owner Programs)
      → Rested s.bus
      → s.next_eid + 1 < 256
      → (e : EndpointContext) × (s' : Owner Programs) × (discover programs_bus s
          ≡ (s', returns (ok e)))
        × (s'.bus.1.transport.ctx ≡ record s.bus.1.transport.ctx { assigned_eid = s.next_eid })
        × (s'.next_eid ≡ s.next_eid + 1)
        × Rested s'.bus
  discover-programs_bus s rested h =
      let (e, s', d, m, n, rested', _) = discover-Serves programs_bus-Serves s rested h in
      (e, s', d, m, n, rested')
