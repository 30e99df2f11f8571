-- ===== src/Endpoint/Program/Closed.antt =====
-- The channel of commands, once its receiver is gone, and what is left in it by a command that is taken out.
use mctp_emu.Prelude.{
  ℕ, ◌≡◌, refl, ap, ap₂, sym, ◌∙◌, List, [], ◌∷◌, ◌++◌, take, Option, none, some, Bool, inl, inr,
  ◌⊎◌, if-cases,
}
use mctp_emu.Crates.{Crates}
use mctp_emu.Crates.Mpsc.{Mpsc}
use mctp_emu.Endpoint.Transport.{
  Transport, Done, nothing, transmitted, responded, aborted, PhysicalTransportCommands, handle_cmd,
  read_socket,
}
use mctp_emu.Endpoint.Program.{
  Program, capacity, buffer_size, receive, send, handle, handle_next, recv, after_cmd, share,
  pass_on, offer, wait_for, try_send,
}
use mctp_emu.Endpoint.Program.Queue.{contents_of, waiting}
use mctp_emu.Endpoint.Program.Runs.{
  Act, commands, handled, arrives, sends, handles, shares, Run, here, next,
}

module _ {S Q : Type 0} (m : Mpsc capacity (PhysicalTransportCommands S) Q) where
  recv-at :
      (q : Q) (cmds : List (PhysicalTransportCommands S))
      → m.contents q ≡ cmds
      → ((m.recv q ≡ none) × (m.contents q ≡ []))
        ⊎ ((cmd : PhysicalTransportCommands S) × (q' : Q) × (m.recv q ≡ some (cmd, q'))
            × (m.contents q ≡ cmd ∷ m.contents q'))
  recv-at q [] e = inl (m.recv-empty q e, e)
  recv-at q (cmd ∷ cmds) e =
      let (q', r, rest) = m.recv-first q cmd cmds e in inr (cmd, q', r, e ∙ ap (◌∷◌ cmd) (sym rest))

  -- A channel that is closed stays so, and nothing enters it.
  abbrev Dead : Program S Q × List (PhysicalTransportCommands S) → Type 0
  Dead r = (r.1 ≡ []) × (r.0.queue ≡ none)

  pass_on-Dead :
      (p : Program S Q) (cmd : PhysicalTransportCommands S) (o : Option Q)
      → p.queue ≡ none
      → o ≡ none
      → Dead (pass_on m p cmd o)
  pass_on-Dead p cmd none e n = (refl, e)
  pass_on-Dead p cmd (some q) e n = absurd (cc n)

  wait_for-Dead :
      (p : Program S Q) (cmd : PhysicalTransportCommands S) (o : Option Q)
      → p.queue ≡ none
      → o ≡ none
      → Dead (wait_for m p cmd o)
  wait_for-Dead p cmd none e n = (refl, e)
  wait_for-Dead p cmd (some q) e n = absurd (cc n)

  offer-Dead :
      (p : Program S Q) (o : Option (PhysicalTransportCommands S))
      → p.queue ≡ none
      → Dead (offer m p o)
  offer-Dead p none e = (refl, e)
  offer-Dead p (some cmd) e = pass_on-Dead p cmd _ e (ap (λ o. try_send m o cmd) e)

  receive-Dead :
      (p : Program S Q) (datagram : List ℕ) → p.queue ≡ none → Dead (receive m p datagram)
  unfolding receive
  receive-Dead p datagram e =
      if-cases Dead p.reader_up _ _ (λ up. offer-Dead p (read_socket (take buffer_size datagram)) e)
        (λ down. (refl, e))

  send-Dead :
      (p : Program S Q) (cmd : PhysicalTransportCommands S) → p.queue ≡ none → Dead (send m p cmd)
  unfolding send
  send-Dead p cmd e = wait_for-Dead p cmd _ e (ap (λ o. try_send m o cmd) e)

module _ ⦃c : Crates⦄ {S Q : Type 0} (m : Mpsc capacity (PhysicalTransportCommands S) Q)
    (pec : List ℕ → ℕ) (socket_up : Bool) (listening : S → Bool) where
  recv-cases :
      (o : Option Q)
      → (recv m pec socket_up listening o ≡ none)
        ⊎ ((cmd : PhysicalTransportCommands S) × (q : Q) × (recv m pec socket_up listening o
              ≡ some (cmd, q))
            × (contents_of m o ≡ cmd ∷ m.contents q))
  recv-cases none = inl refl
  recv-cases (some q) = elim (recv-at m q (m.contents q) refl) [
    | inl (e, _) ↦ inl e
    | inr r ↦ inr r
  ]

  -- A round of the task: nothing waits, or the command that has waited longest is handled.
  pub handle-cases :
      (p : Program S Q)
      → (handle m pec socket_up listening p ≡ (p, none))
        ⊎ ((cmd : PhysicalTransportCommands S) × (q : Q) × (handle m pec socket_up listening p ≡ (
          after_cmd m pec socket_up listening p q
              (handle_cmd pec socket_up listening p.transport cmd),
          some (cmd, (handle_cmd pec socket_up listening p.transport cmd).1),
        ))
            × (waiting m p ≡ cmd ∷ m.contents q))
  unfolding handle
  handle-cases p = elim (recv-cases p.queue) [
    | inl e ↦ inl (ap (handle_next m pec socket_up listening p) e)
    | inr (cmd, q, e, w) ↦ inr (cmd, q, ap (handle_next m pec socket_up listening p) e, w)
  ]

  pub after_cmd-transport :
      (p : Program S Q) (q : Q) (r : Transport S × Done S)
      → (after_cmd m pec socket_up listening p q r).transport ≡ r.0
  after_cmd-transport p q (t, aborted) = refl
  after_cmd-transport p q (t, nothing) = refl
  after_cmd-transport p q (t, transmitted d) = refl
  after_cmd-transport p q (t, responded resp buf) = refl

  pub after_cmd-queue :
      (p : Program S Q) (q : Q) (r : Transport S × Done S)
      → ((after_cmd m pec socket_up listening p q r).queue ≡ none)
        ⊎ ((after_cmd m pec socket_up listening p q r).queue ≡ some q)
  after_cmd-queue p q (t, aborted) = inl refl
  after_cmd-queue p q (t, nothing) = inr refl
  after_cmd-queue p q (t, transmitted d) = inr refl
  after_cmd-queue p q (t, responded resp buf) = inr refl

  handle-dead : (p : Program S Q) → p.queue ≡ none → handle m pec socket_up listening p ≡ (p, none)
  unfolding handle
  handle-dead p e =
      ap (λ o. handle_next m pec socket_up listening p (recv m pec socket_up listening o)) e

  -- No command enters or is handled any more.
  pub Run-dead :
      (p : Program S Q) {es : List (PhysicalTransportCommands S)} {bs : List (Act S)}
      {ds : List (Done S)} {u : Program S Q}
      → p.queue ≡ none
      → Run m pec socket_up listening p es bs ds u
      → (es ≡ []) × (commands bs ≡ []) × (u.queue ≡ none)
  Run-dead p e here = (refl, refl, e)
  Run-dead p e (next (arrives datagram) r) =
      let (n, q) = receive-Dead m p datagram e in
      let (es, bs, u) = Run-dead _ q r in (ap₂ ◌++◌ n es, bs, u)
  Run-dead p e (next (sends cmd) r) =
      let (n, q) = send-Dead m p cmd e in let (es, bs, u) = Run-dead _ q r in (ap₂ ◌++◌ n es, bs, u)
  Run-dead p e (next {bs} handles r) =
      let h = handle-dead p e in
      let (es, b, u) =
        Run-dead _
          (ap (λ (x : Program S Q × Option (PhysicalTransportCommands S × Done S)). x.0.queue) h
            ∙ e)
          r in
      (
        es,
        ap
              (λ (x : Program S Q × Option (PhysicalTransportCommands S × Done S)).
                commands (handled x.1 ++ bs))
              h
            ∙ b,
        u,
      )
  Run-dead p e (next (shares f) r) = Run-dead (share f p) e r
