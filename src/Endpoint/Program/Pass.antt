-- ===== src/Endpoint/Program/Pass.antt =====
-- A command that goes through a program with an empty channel.
use mctp_emu.Prelude.{
  ℕ, ◌≤◌, ◌<◌, ◌≡◌, refl, ap, ◌∙◌, List, [], ◌∷◌, ◌++◌, take_all, length, some, Bool, true, arith,
}
use mctp_emu.Crates.{Crates}
use mctp_emu.Crates.Mpsc.{Mpsc}
use mctp_emu.Endpoint.Transport.{
  Transport, Done, PhysicalTransportCommands, receive_msg, handle_cmd,
}
use mctp_emu.Endpoint.Program.{Program, capacity, buffer_size, receive, send, handle, after_cmd}
use mctp_emu.Endpoint.Program.Flood.{receive-some}

module _ {S Q : Type 0} (m : Mpsc capacity (PhysicalTransportCommands S) Q) where
  -- All tasks of the program run, and no command waits.
  abbrev pub Awake : Program S Q → Type 0
  Awake p = (p.reader_up ≡ true) × (q : Q) × (p.queue ≡ some q) × (m.contents q ≡ [])

  -- The program with one command in its channel.
  abbrev Loaded : Program S Q → PhysicalTransportCommands S → Program S Q → Type 0
  Loaded p cmd p' = (q : Q) × (p' ≡ record p { queue = some q }) × (m.contents q ≡ cmd ∷ [])

  room :
      (q : Q) (cmd : PhysicalTransportCommands S)
      → m.contents q ≡ []
      → (q' : Q) × (m.try_send q cmd ≡ some q') × (m.contents q' ≡ cmd ∷ [])
  room q cmd empty =
      let (q', s, c) = m.try_send-room q cmd (omega (arith, ap length empty)) in
      (q', s, c ∙ ap (λ (l : List (PhysicalTransportCommands S)). l ++ (cmd ∷ [])) empty)

  pub send-Loaded :
      (p : Program S Q) (cmd : PhysicalTransportCommands S)
      → Awake p
      → Loaded p cmd (send m p cmd).0
  unfolding send
  send-Loaded p cmd (up, q, held, empty) =
      let (q', s, c) = room q cmd empty in (q', rw (held, s) refl, c)

  pub receive-Loaded :
      (p : Program S Q) (d : List ℕ)
      → Awake p
      → 0 < length d
      → length d ≤ buffer_size
      → Loaded p (receive_msg d) (receive m p d).0
  receive-Loaded p d (up, q, held, empty) some_bytes fits =
      let (q', s, c) = room q (receive_msg d) empty in
      (q', rw (receive-some m p d up some_bytes, take_all buffer_size d fits, held, s) refl, c)

module _ ⦃c : Crates⦄ {S Q : Type 0} (m : Mpsc capacity (PhysicalTransportCommands S) Q)
    (pec : List ℕ → ℕ) (socket_up : Bool) (listening : S → Bool) where
  -- The task that owns the socket does not panic.
  abbrev pub Lives : Done S → Type 0
  Lives d =
      (p : Program S Q) (q : Q) (t : Transport S)
      → after_cmd m pec socket_up listening p q (t, d) ≡ record p { transport = t; queue = some q }

  handle-Loaded :
      (p p' : Program S Q) (cmd : PhysicalTransportCommands S) (t : Transport S) (d : Done S)
      → p.reader_up ≡ true
      → Loaded m p cmd p'
      → handle_cmd pec socket_up listening p.transport cmd ≡ (t, d)
      → Lives d
      → (p'' : Program S Q) × (handle m pec socket_up listening p' ≡ (p'', some (cmd, d)))
        × Awake m p''
        × (p''.transport ≡ t)
  unfolding handle
  handle-Loaded p p' cmd t d up (q, held, one) done lives =
      let (q', r, empty) = m.recv-first q cmd [] one in
      (
        record p { transport = t; queue = some q' },
        rw (held, r, done, lives p q' t) refl,
        (up, q', refl, empty),
        refl,
      )

  pub send-handle :
      (p : Program S Q) (cmd : PhysicalTransportCommands S) (t : Transport S) (d : Done S)
      → Awake m p
      → handle_cmd pec socket_up listening p.transport cmd ≡ (t, d)
      → Lives d
      → (p'' : Program S Q) × (handle m pec socket_up listening (send m p cmd).0
          ≡ (p'', some (cmd, d)))
        × Awake m p''
        × (p''.transport ≡ t)
  send-handle p cmd t d awake done lives =
      handle-Loaded p (send m p cmd).0 cmd t d awake.0 (send-Loaded m p cmd awake) done lives

  pub receive-handle :
      (p : Program S Q) (bytes : List ℕ) (t : Transport S) (d : Done S)
      → Awake m p
      → 0 < length bytes
      → length bytes ≤ buffer_size
      → handle_cmd pec socket_up listening p.transport (receive_msg bytes) ≡ (t, d)
      → Lives d
      → (p'' : Program S Q) × (handle m pec socket_up listening (receive m p bytes).0
          ≡ (p'', some (receive_msg bytes, d)))
        × Awake m p''
        × (p''.transport ≡ t)
  receive-handle p bytes t d awake some_bytes fits done lives =
      handle-Loaded p (receive m p bytes).0 (receive_msg bytes) t d awake.0
        (receive-Loaded m p bytes awake some_bytes fits) done lives
