-- ===== src/Endpoint/Program/Order.antt =====
-- The order of the commands: the channel only delays them.
use mctp_emu.Prelude.{
  ◌≡◌, refl, ap, sym, ◌∙◌, List, ◌∷◌, ◌++◌, append-nil, append_assoc, none, Bool, inl, inr, ◌⊎◌, ℕ,
  length, ◌≤◌, arith,
}
use mctp_emu.Crates.{Crates}
use mctp_emu.Crates.Mpsc.{Mpsc}
use mctp_emu.Endpoint.Context.{MctpEndpointContext}
use mctp_emu.Endpoint.Transport.{Transport, Done, PhysicalTransportCommands, handle_cmd}
use mctp_emu.Endpoint.Program.{Program, capacity, start, receive, send, after_cmd}
use mctp_emu.Endpoint.Program.Queue.{contents_of, waiting, Grows, receive-Grows, send-Grows}
use mctp_emu.Endpoint.Program.Runs.{
  Act, command, commands, perform, Step, arrives, sends, handles, shares, Run, here, next,
}
use mctp_emu.Endpoint.Program.Closed.{handle-cases, after_cmd-transport, after_cmd-queue, Run-dead}

module _ ⦃c : Crates⦄ {S Q : Type 0} (m : Mpsc capacity (PhysicalTransportCommands S) Q)
    (pec : List ℕ → ℕ) (socket_up : Bool) (listening : S → Bool) where
  -- What a run from `p` to `u` does, without the channel: the acts, one after the other, on the state of
  -- the task; `rest` are the commands that are not handled.
  pub record Follows (p : Program S Q) (es : List (PhysicalTransportCommands S)) (bs : List (Act S))
      (ds : List (Done S)) (u : Program S Q) : Type 0 where
    pub same : perform m pec socket_up listening bs p.transport ≡ (u.transport, ds)
    pub rest : List (PhysicalTransportCommands S)
    pub order : waiting m p ++ es ≡ commands bs ++ rest
    pub left : (u.queue ≡ none) ⊎ (rest ≡ waiting m u)

  entered-Follows :
      (p : Program S Q) (r : Program S Q × List (PhysicalTransportCommands S))
      {es : List (PhysicalTransportCommands S)} {bs : List (Act S)} {ds : List (Done S)}
      {u : Program S Q}
      → Grows m p r
      → Follows r.0 es bs ds u
      → Follows p (r.1 ++ es) bs ds u
  entered-Follows p r {es} {bs} (w, t, _) f = record {
    same = ap (perform m pec socket_up listening bs) (sym t) ∙ f.same;
    rest = f.rest;
    order = sym (append_assoc (waiting m p) r.1 es) ∙ ap (λ l. l ++ es) (sym w) ∙ f.order;
    left = f.left;
  }

  handled-Follows :
      (p : Program S Q) (cmd : PhysicalTransportCommands S) (q : Q) (r : Transport S × Done S)
      {es : List (PhysicalTransportCommands S)} {bs : List (Act S)} {ds : List (Done S)}
      {u : Program S Q}
      → handle_cmd pec socket_up listening p.transport cmd ≡ r
      → waiting m p ≡ cmd ∷ m.contents q
      → Run m pec socket_up listening (after_cmd m pec socket_up listening p q r) es bs ds u
      → Follows (after_cmd m pec socket_up listening p q r) es bs ds u
      → Follows p es (command cmd ∷ bs) (r.1 ∷ ds) u
  unfolding perform
  handled-Follows p cmd q r {es} {bs} {ds} {u} e w run f =
      let t = after_cmd-transport m pec socket_up listening p q r in
      let same' : perform m pec socket_up listening bs r.0 ≡ (u.transport, ds) =
        ap (perform m pec socket_up listening bs) (sym t) ∙ f.same in
      let same'' : perform m pec socket_up listening (command cmd ∷ bs) p.transport
          ≡ (u.transport, r.1 ∷ ds) =
        rw (e, same') refl in
      elim (after_cmd-queue m pec socket_up listening p q r) [
        | inl dead ↦
            let (_, none_handled, closed) = Run-dead m pec socket_up listening _ dead run in
            record {
              same = same'';
              rest = m.contents q ++ es;
              order =
                  ap (λ l. l ++ es) w
                  ∙ ap (λ l. cmd ∷ (l ++ (m.contents q ++ es))) (sym none_handled);
              left = inl closed;
            }
        | inr alive ↦ record {
          same = same'';
          rest = f.rest;
          order =
              ap (λ l. l ++ es) w
              ∙ ap (λ l. cmd ∷ (l ++ es)) (sym (ap (contents_of m) alive))
              ∙ ap (◌∷◌ cmd) f.order;
          left = f.left;
        }
      ]

  pub Run-Follows :
      {p u : Program S Q} {es : List (PhysicalTransportCommands S)} {bs : List (Act S)}
      {ds : List (Done S)}
      → Run m pec socket_up listening p es bs ds u
      → Follows p es bs ds u
  unfolding perform
  Run-Follows {p} here = record {
    same = refl;
    rest = waiting m p;
    order = append-nil (waiting m p);
    left = inr refl;
  }
  Run-Follows {p} (next (arrives datagram) r) =
      entered-Follows p (receive m p datagram) (receive-Grows m p datagram) (Run-Follows r)
  Run-Follows {p} (next (sends cmd) r) =
      entered-Follows p (send m p cmd) (send-Grows m p cmd) (Run-Follows r)
  Run-Follows {p} (next handles r) = elim (handle-cases m pec socket_up listening p) [
    | inl e ↦ rw e (rw e at (Run-Follows r))
    | inr (cmd, q, e, w) ↦
        rw e (handled-Follows p cmd q _ refl w (rw e at r) (rw e at (Run-Follows r)))
  ]
  Run-Follows {p} (next (shares f) r) =
      let k = Run-Follows r in
      record { same = k.same; rest = k.rest; order = k.order; left = k.left }

  Step-capacity :
      {p t : Program S Q} {es : List (PhysicalTransportCommands S)} {bs : List (Act S)}
      {ds : List (Done S)}
      → length (waiting m p) ≤ capacity
      → Step m pec socket_up listening p es bs ds t
      → length (waiting m t) ≤ capacity
  Step-capacity {p} h (arrives datagram) = (receive-Grows m p datagram).2 h
  Step-capacity {p} h (sends cmd) = (send-Grows m p cmd).2 h
  Step-capacity {p} h handles = elim (handle-cases m pec socket_up listening p) [
    | inl e ↦ rw e h
    | inr (cmd, q, e, w) ↦
        let r = handle_cmd pec socket_up listening p.transport cmd in
        rw e (elim (after_cmd-queue m pec socket_up listening p q r) [
          | inl dead ↦ rw dead (omega arith)
          | inr alive ↦ rw alive (omega (arith, h, ap length w))
        ])
  ]
  Step-capacity h (shares f) = h

  Run-capacity :
      {p u : Program S Q} {es : List (PhysicalTransportCommands S)} {bs : List (Act S)}
      {ds : List (Done S)}
      → length (waiting m p) ≤ capacity
      → Run m pec socket_up listening p es bs ds u
      → length (waiting m u) ≤ capacity
  Run-capacity h here = h
  Run-capacity h (next st r) = Run-capacity (Step-capacity h st) r

  -- The tasks of `main`, in whatever order they run, do what one task does that handles the commands one
  -- after the other as they come in, with the bus owner's changes to the context between them: the state
  -- and the results are the same, no command is lost, doubled or overtaken, those not handled yet wait in
  -- the channel unless a panic has closed it, and never more than 32 wait.
  pub Run-perform :
      (ctx : MctpEndpointContext) (u : Program S Q) (es : List (PhysicalTransportCommands S))
      (bs : List (Act S)) (ds : List (Done S))
      → Run m pec socket_up listening (start m ctx) es bs ds u
      → (perform m pec socket_up listening bs (start m ctx).transport ≡ (u.transport, ds))
        × (rest : List (PhysicalTransportCommands S)) × (es ≡ commands bs ++ rest)
        × ((u.queue ≡ none) ⊎ (rest ≡ waiting m u))
        × (length (waiting m u) ≤ capacity)
  Run-perform ctx u es bs ds r =
      let f = Run-Follows r in
      (
        f.same,
        f.rest,
        ap (λ l. l ++ es) (sym m.contents-channel) ∙ f.order,
        f.left,
        Run-capacity (rw m.contents-channel (omega arith)) r,
      )
