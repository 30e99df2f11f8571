-- ===== src/Endpoint/BusOwner/Tasks.antt =====
-- examples/basic_bus_owner_loop.rs, run twice: the bus owner of the one endpoint sends through the task that
-- owns its socket, and the task of the other endpoint answers from the far end of the wire.
use mctp_emu.Prelude.{ℕ, ◌+◌, ◌<◌, ◌≡◌, refl, List, [], ◌∷◌, length, Bool, true, some, arith}
use mctp_emu.Crates.{Crates}
use mctp_emu.Base.Errors.{ok}
use mctp_emu.Control.MessageType.{control}
use mctp_emu.Endpoint.Context.{returns}
use mctp_emu.Endpoint.Transport.{
  Transport, Done, transmitted, responded, send_msg, receive_msg, handle_cmd,
}
use mctp_emu.Endpoint.Transport.Exchange.{handle_cmd-handle_cmd}
use mctp_emu.Endpoint.BusOwner.{EndpointContext, Owner, Reply, packet, closed}
use mctp_emu.Endpoint.BusOwner.Discovery.{discover}
use mctp_emu.Endpoint.BusOwner.Serves.{Serves}
use mctp_emu.Endpoint.BusOwner.Answered.{discover-Serves}

-- The two tasks. The bus owner waits on one channel at a time, so its task needs no more.
abbrev pub Tasks : Type 0 → Type 0
Tasks S = Transport (Unit {0}) × Transport S

-- No flow is pending.
abbrev pub Idle : {S : Type 0} → Tasks S → Type 0
Idle b = (b.0.pending_cmd ≡ []) × (b.1.pending_cmd ≡ [])

-- What the bus owner gets of what its task does.
abbrev pub heard : Done (Unit {0}) → Reply
heard (responded resp buf) = packet buf
heard _ = closed

module _ ⦃c : Crates⦄ {S : Type 0} (pec : List ℕ → ℕ) (listening : S → Bool) where
  abbrev back : Transport (Unit {0}) → Transport S × Done S → Tasks S × Reply
  back near (far, transmitted datagram) =
      let (near', d) = handle_cmd pec true (λ resp. true) near (receive_msg datagram) in
      ((near', far), heard d)
  back near (far, _) = ((near, far), closed)

  abbrev forth : Transport S → Transport (Unit {0}) × Done (Unit {0}) → Tasks S × Reply
  forth far (near, transmitted datagram) =
      back near (handle_cmd pec true listening far (receive_msg datagram))
  forth far (near, _) = ((near, far), closed)

  -- A message of the bus owner: its task sends it, the other task handles the datagram, and the first one
  -- the datagram that comes back.
  unfoldable pub tasks_bus : Tasks S → List ℕ → Tasks S × Reply
  tasks_bus (near, far) bytes =
      forth far (handle_cmd pec true (λ resp. true) near (send_msg control bytes (some tt)))

  pub tasks_bus-Serves : Serves tasks_bus (λ b. b.1.ctx) Idle
  unfolding tasks_bus
  tasks_bus-Serves = record {
    serve = λ (near, far) f n body ctx reply idle h s s' replied.
        let sum' = pec (0x60 ∷ 0x0f ∷ (length reply + 1) ∷ 0x21 ∷ reply) in
        let (near', e₁, e₂, e₃) =
          handle_cmd-handle_cmd pec (λ resp. true) near listening far control f n body tt ctx reply
            h.flags_byte (omega arith) s' (replied (_ ∷ [])) (rw (idle.0) tt) (rw (idle.1) tt)
            refl in
        ((near, record far { ctx = ctx }), sum' ∷ [], rw (e₁, e₂, e₃) refl, idle, refl);
  }

  -- A discovery that goes over the SMBus, from the task of the bus owner to that of another endpoint and
  -- back: where no flow is pending at either end and the next EID is below 255, it succeeds, gives that
  -- EID to the other endpoint, whose context is else as before, moves the next EID one further, and leaves
  -- no flow pending.
  pub discover-tasks_bus :
      (s : Owner (Tasks S))
      → Idle s.bus
      → s.next_eid + 1 < 256
      → (e : EndpointContext) × (s' : Owner (Tasks S)) × (discover tasks_bus s
          ≡ (s', returns (ok e)))
        × (s'.bus.1.ctx ≡ record s.bus.1.ctx { assigned_eid = s.next_eid })
        × (s'.next_eid ≡ s.next_eid + 1)
        × Idle s'.bus
  discover-tasks_bus s idle h =
      let (e, s', d, m, n, idle', _) = discover-Serves tasks_bus-Serves s idle h in
      (e, s', d, m, n, idle')
