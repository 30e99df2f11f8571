-- ===== src/Endpoint/Program/Flood.antt =====
-- Datagrams that come faster than they are handled.
use mctp_emu.Prelude.{
  ℕ, zero, suc, if-cases, ◌+◌, ◌≤◌, ◌<◌, ◌≡◌, refl, ap, ◌∙◌, List, [], ◌∷◌, take, length,
  length-append, none, some, true, false, arith, ◌⊎◌, inl, inr, ◌↔◌, All,
}
use mctp_emu.Crates.Mpsc.{Mpsc}
use mctp_emu.Endpoint.Transport.{PhysicalTransportCommands, receive_msg, read_socket}
use mctp_emu.Endpoint.Program.{Program, capacity, buffer_size, try_send, pass_on, offer, receive}
use mctp_emu.Endpoint.Program.Queue.{waiting, try_send-cases}

take-pos {ℓ} : {A : Type ℓ} (n : ℕ) (xs : List A) → 0 < n → 0 < length xs → 0 < length (take n xs)
take-pos zero xs h k = absurd (omega arith)
take-pos (suc n) [] h k = absurd (omega arith)
take-pos (suc n) (x ∷ xs) h k = omega arith

take-none {ℓ} : {A : Type ℓ} (n : ℕ) (xs : List A) → length xs ≡ 0 → length (take n xs) ≡ 0
take-none zero xs h = refl
take-none (suc n) [] h = refl
take-none (suc n) (x ∷ xs) h = absurd (omega arith)

zero-or-pos : (n : ℕ) → (n ≡ 0) ⊎ (0 < n)
zero-or-pos zero = inl refl
zero-or-pos (suc n) = inr (omega arith)

read_socket-some :
    {S : Type 0} (buf : List ℕ) → 0 < length buf → read_socket {S = S} buf ≡ some (receive_msg buf)
unfolding read_socket
read_socket-some buf h = ground arith

read_socket-none : {S : Type 0} (buf : List ℕ) → length buf ≡ 0 → read_socket {S = S} buf ≡ none
unfolding read_socket
read_socket-none buf h = rw h refl

module _ {S Q : Type 0} (m : Mpsc capacity (PhysicalTransportCommands S) Q) where
  -- Datagrams one after the other, while the task that owns the socket does not run.
  unfoldable pub receive_all : List (List ℕ) → Program S Q → Program S Q
  receive_all [] p = p
  receive_all (d ∷ ds) p = receive_all ds (receive m p d).0

  pub receive-some :
      (p : Program S Q) (d : List ℕ)
      → p.reader_up ≡ true
      → 0 < length d
      → let cmd = receive_msg (take buffer_size d) in
        receive m p d ≡ pass_on m p cmd (try_send m p.queue cmd)
  unfolding receive
  receive-some p d up h =
      let buf = take buffer_size d in
      if-cases (λ r. r ≡ pass_on m p (receive_msg buf) (try_send m p.queue (receive_msg buf)))
        p.reader_up _ _
        (λ e. ap (offer m p) (read_socket-some buf (take-pos buffer_size d (omega arith) h)))
        (λ e. absurd (cc (up, e)))

  receive-none :
      (p : Program S Q) (d : List ℕ) → length d ≡ 0 → (receive m p d).0.reader_up ≡ p.reader_up
  unfolding receive
  receive-none p d h =
      let buf = take buffer_size d in
      if-cases
        (λ (r : Program S Q × List (PhysicalTransportCommands S)). r.0.reader_up ≡ p.reader_up)
        p.reader_up _ _
        (λ e.
          ap (λ o. (offer m p o).0.reader_up) (read_socket-none buf (take-none buffer_size d h)))
        (λ e. refl)

  -- The reader panics exactly where a datagram that is not empty finds the channel closed, or 32 commands
  -- in it.
  receive-reader_up :
      (p : Program S Q) (datagram : List ℕ)
      → p.reader_up ≡ true
      → ((receive m p datagram).0.reader_up ≡ false)
        ↔ ((0 < length datagram) × ((p.queue ≡ none) ⊎ (capacity ≤ length (waiting m p))))
  receive-reader_up p d up = elim (zero-or-pos (length d)) [
    | inl z ↦
        let e = receive-none p d z in
        ((λ k. absurd (cc (up, e, k))), (λ (k, _). absurd (omega (arith, k, z))))
    | inr h ↦
        let cmd = receive_msg (take buffer_size d) in
        elim (try_send-cases m p.queue cmd) [
          | inl (q, s, c, room) ↦
              let e : (receive m p d).0.reader_up ≡ true =
                rw (receive-some p d up h) (ap (λ o. (pass_on m p cmd o).0.reader_up) s ∙ up) in
              (
                (λ k. absurd (cc (e, k))),
                (λ (_, k). absurd (elim k [
                  | inl n ↦ cc (s, ap (λ o. try_send m o cmd) n)
                  | inr full ↦ omega (arith, room, full)
                ])),
              )
          | inr (s, why) ↦
              let e : (receive m p d).0.reader_up ≡ false =
                rw (receive-some p d up h) (ap (λ o. (pass_on m p cmd o).0.reader_up) s) in
              ((λ k. (h, why)), (λ k. e))
        ]
  ]

  receive-down :
      (p : Program S Q) (d : List ℕ) → p.reader_up ≡ false → (receive m p d).0.reader_up ≡ false
  unfolding receive
  receive-down p d h =
      if-cases (λ (r : Program S Q × List (PhysicalTransportCommands S)). r.0.reader_up ≡ false)
        p.reader_up _ _ (λ e. absurd (cc (h, e))) (λ e. h)

  receive_all-down :
      (ds : List (List ℕ)) (p : Program S Q)
      → p.reader_up ≡ false
      → (receive_all ds p).reader_up ≡ false
  unfolding receive_all
  receive_all-down [] p h = h
  receive_all-down (d ∷ ds) p h = receive_all-down ds (receive m p d).0 (receive-down p d h)

  -- While the task that owns the socket does not run, the reader lives through datagrams that are not
  -- empty exactly if the channel, which is open, has room for all of them; where it has not, the reader is
  -- gone for good.
  pub receive_all-reader_up :
      (ds : List (List ℕ)) (p : Program S Q) (q : Q)
      → p.reader_up ≡ true
      → p.queue ≡ some q
      → length (m.contents q) ≤ capacity
      → All (λ d. 0 < length d) ds
      → ((receive_all ds p).reader_up ≡ true) ↔ (length (m.contents q) + length ds ≤ capacity)
  unfolding receive_all
  receive_all-reader_up [] p q up held fits h = ((λ e. omega (arith, fits)), (λ e. up))
  receive_all-reader_up (d ∷ ds) p q up held fits h =
      let cmd = receive_msg (take buffer_size d) in
      let r = receive-some p d up h.0 ∙ ap (λ o. pass_on m p cmd (try_send m o cmd)) held in
      elim (try_send-cases m (some q) cmd) [
        | inl (q', s, c, room) ↦
            let n = ap length c ∙ length-append (m.contents q) (cmd ∷ []) in
            let p' = record p { queue = some q' } in
            let e : receive m p d ≡ (p', cmd ∷ []) = r ∙ ap (pass_on m p cmd) s in
            let (x, y) = receive_all-reader_up ds p' q' up refl (omega (arith, n, room)) h.1 in
            rw (receive_all, e) ((λ k. omega (arith, n, x k)), (λ k. y (omega (arith, n, k))))
        | inr (s, why) ↦
            let full : capacity ≤ length (m.contents q) = elim why [
              | inl z ↦ absurd (cc z)
              | inr k ↦ k
            ] in
            let down : (receive_all ds (receive m p d).0).reader_up ≡ false =
              receive_all-down ds (receive m p d).0 (
                ap (λ (x : Program S Q × List (PhysicalTransportCommands S)). x.0.reader_up)
                  (r ∙ ap (pass_on m p cmd) s)) in
            ((λ k. absurd (cc (down, k))), (λ k. absurd (omega (arith, k, full))))
      ]
