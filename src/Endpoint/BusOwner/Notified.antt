-- ===== src/Endpoint/BusOwner/Notified.antt =====
-- examples/basic_bus_owner_loop.rs, the Discovery Notify request: the task that owns the socket sets the flag
-- in the context that it shares with `run_bus_owner_loop`, whose next round does the discovery.
use mctp_emu.Prelude.{ℕ, ◌+◌, ◌<◌, ◌≡◌, refl, List, [], ◌∷◌, Bool, true, false, arith}
use mctp_emu.Crates.{Crates}
use mctp_emu.Base.Errors.{ok}
use mctp_emu.Endpoint.Context.{returns}
use mctp_emu.Endpoint.Responder.Requests.{Front, IsFront, request, answer, discovery_notify_answer}
use mctp_emu.Endpoint.Transport.{Transport, Done, transmitted, receive_msg, handle_cmd}
use mctp_emu.Endpoint.Transport.Frames.{datagram, receive_request_lem}
use mctp_emu.Endpoint.Transport.Exchange.{request_tag, create_tag-request}
use mctp_emu.Endpoint.BusOwner.{Owner}
use mctp_emu.Endpoint.BusOwner.Discovery.{round}
use mctp_emu.Endpoint.BusOwner.Tasks.{Tasks, tasks_bus, Idle, tasks_bus-Serves}
use mctp_emu.Endpoint.BusOwner.Rounds.{round-discovers}

module _ ⦃c : Crates⦄ {S : Type 0} (pec : List ℕ → ℕ) (listening : S → Bool) where
  -- What the task of the bus owner does with a request in a frame, when no flow is pending.
  abbrev pub notified : Owner (Tasks S) → List ℕ → Transport (Unit {0}) × Done (Unit {0})
  notified s frame = handle_cmd pec true (λ resp. true) s.bus.0 (receive_msg frame)

  notified_lem :
      (s : Owner (Tasks S)) (a b d : ℕ) (f : Front) (rest : List ℕ)
      → s.bus.0.pending_cmd ≡ []
      → IsFront f
      → notified s (a ∷ 0x0f ∷ b ∷ d ∷ request f 0x0d rest) ≡ (
        record s.bus.0 { ctx = record s.bus.0.ctx { perform_discovery = true } },
        transmitted (datagram pec (answer f 0x0d (0 ∷ []))),
      )
  notified_lem s a b d f rest idle h =
      receive_request_lem pec (λ resp. true) s.bus.0 a b d (request f 0x0d rest) (request_tag f) _
        (answer f 0x0d (0 ∷ [])) (create_tag-request f 0x0d rest h.flags_byte) (rw idle tt)
        (discovery_notify_answer s.bus.0.ctx f rest h) (omega arith)

  -- An endpoint that sends a Discovery Notify request gets an EID by the bus owner's next round: where no
  -- flow is pending at either end, the frame has the command code of MCTP over SMBus and headers of bytes,
  -- and the next EID is below 255, the task that owns the socket answers with success, and the round after
  -- it, which sees the context as that task leaves it, succeeds, gives the endpoint behind the bus the next
  -- EID, moves that one further, and leaves no discovery asked for and no flow pending.
  pub round-notified :
      (ping_eid : ℕ) (s : Owner (Tasks S)) (a b d : ℕ) (f : Front) (rest : List ℕ)
      → Idle s.bus
      → IsFront f
      → s.next_eid + 1 < 256
      → let (near, done) = notified s (a ∷ 0x0f ∷ b ∷ d ∷ request f 0x0d rest) in
        (done ≡ transmitted (datagram pec (answer f 0x0d (0 ∷ []))))
        × (s' : Owner (Tasks S)) × (round
              (tasks_bus pec listening)
              ping_eid
              (record s { ctx = near.ctx; bus = (near, s.bus.1) })
            ≡ (s', returns (ok tt)))
        × (s'.bus.1.ctx.assigned_eid ≡ s.next_eid)
        × (s'.next_eid ≡ s.next_eid + 1)
        × (s'.ctx.perform_discovery ≡ false)
        × Idle s'.bus
  round-notified ping_eid s a b d f rest idle h room =
      let e = notified_lem s a b d f rest idle.0 h in
      let near : Transport (Unit {0}) = record s.bus.0 {
        ctx = record s.bus.0.ctx { perform_discovery = true };
      } in
      let s₀ : Owner (Tasks S) = record s { ctx = near.ctx; bus = (near, s.bus.1) } in
      let (s', r, n, m, idle', quiet) =
        round-discovers (tasks_bus-Serves pec listening) ping_eid s₀ idle room refl in
      rw e (refl, s', r, m, n, quiet, idle')
