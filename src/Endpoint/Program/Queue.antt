-- ===== src/Endpoint/Program/Queue.antt =====
-- What happens to the channel of commands, a step at a time.
use mctp_emu.Prelude.{
  ℕ, ◌≤◌, ◌<◌, ◌≡◌, refl, ap, sym, ◌∙◌, List, [], ◌∷◌, ◌++◌, append-nil, take, length,
  length-append, Option, none, some, false, arith, ◌⊎◌, inl, inr, ltb, Bool-cases, ltb→lt, ltb→le,
  if-cases,
}
use mctp_emu.Crates.Mpsc.{Mpsc}
use mctp_emu.Endpoint.Transport.{PhysicalTransportCommands, read_socket}
use mctp_emu.Endpoint.Program.{
  Program, capacity, buffer_size, try_send, pass_on, offer, receive, send,
}

module _ {S Q : Type 0} (m : Mpsc capacity (PhysicalTransportCommands S) Q) where
  -- The commands that wait in a channel: none in a closed one.
  abbrev pub contents_of : Option Q → List (PhysicalTransportCommands S)
  contents_of none = []
  contents_of (some q) = m.contents q

  abbrev pub waiting : Program S Q → List (PhysicalTransportCommands S)
  waiting p = contents_of p.queue

  -- The room of a channel: a command enters it behind the others, or finds it full or closed.
  pub try_send-cases :
      (o : Option Q) (cmd : PhysicalTransportCommands S)
      → ((q : Q) × (try_send m o cmd ≡ some q)
          × (m.contents q ≡ contents_of o ++ (cmd ∷ []))
          × (length (contents_of o) < capacity))
        ⊎ ((try_send m o cmd ≡ none) × ((o ≡ none) ⊎ (capacity ≤ length (contents_of o))))
  try_send-cases none cmd = inr (refl, inl refl)
  try_send-cases (some q) cmd = elim (Bool-cases (ltb (length (m.contents q)) capacity)) [
    | inl e ↦
        let h = ltb→lt (length (m.contents q)) capacity e in
        let (q', s, c) = m.try_send-room q cmd h in inl (q', s, c, h)
    | inr e ↦
        let h = ltb→le (length (m.contents q)) capacity e in inr (m.try_send-full q cmd h, inr h)
  ]

  -- What enters the channel by a step stands behind what was in it, and it is not overfull.
  abbrev pub Grows : Program S Q → Program S Q × List (PhysicalTransportCommands S) → Type 0
  Grows p r =
      (waiting r.0 ≡ waiting p ++ r.1)
      × (r.0.transport ≡ p.transport)
      × (length (waiting p) ≤ capacity → length (waiting r.0) ≤ capacity)

  same-Grows :
      (p p' : Program S Q) → p'.queue ≡ p.queue → p'.transport ≡ p.transport → Grows p (p', [])
  same-Grows p p' e t = (ap contents_of e ∙ sym (append-nil (waiting p)), t, (λ h. rw e h))

  entered-Grows :
      (p : Program S Q) (q : Q) (cmd : PhysicalTransportCommands S)
      → m.contents q ≡ waiting p ++ (cmd ∷ [])
      → length (waiting p) < capacity
      → Grows p (record p { queue = some q }, cmd ∷ [])
  entered-Grows p q cmd c h =
      (c, refl, (λ k. omega (arith, ap length c, length-append (waiting p) (cmd ∷ []), h)))

  pub pass_on-Grows :
      (p : Program S Q) (cmd : PhysicalTransportCommands S)
      → Grows p (pass_on m p cmd (try_send m p.queue cmd))
  pass_on-Grows p cmd = elim (try_send-cases p.queue cmd) [
    | inl (q, s, c, h) ↦ rw s (entered-Grows p q cmd c h)
    | inr (s, _) ↦ rw s (same-Grows p (record p { reader_up = false }) refl refl)
  ]

  offer-Grows : (p : Program S Q) (o : Option (PhysicalTransportCommands S)) → Grows p (offer m p o)
  offer-Grows p none = same-Grows p p refl refl
  offer-Grows p (some cmd) = pass_on-Grows p cmd

  pub receive-Grows : (p : Program S Q) (datagram : List ℕ) → Grows p (receive m p datagram)
  unfolding receive
  receive-Grows p datagram =
      if-cases (Grows p) p.reader_up _ _
        (λ e. offer-Grows p (read_socket (take buffer_size datagram)))
        (λ e. same-Grows p p refl refl)

  pub send-Grows : (p : Program S Q) (cmd : PhysicalTransportCommands S) → Grows p (send m p cmd)
  unfolding send
  send-Grows p cmd = elim (try_send-cases p.queue cmd) [
    | inl (q, s, c, h) ↦ rw s (entered-Grows p q cmd c h)
    | inr (s, _) ↦ rw s (same-Grows p p refl refl)
  ]
