-- ===== src/Network/Clients/Sockets.antt =====
-- Which sockets can be bound.
use mctp_emu.Prelude.{
  ℕ, suc, ap, le→ltb, ◌∙◌, ◌+◌, ◌^◌, ◌==◌, false, refl, ◌≤◌, ◌<◌, ◌≡◌, arith, if◌then◌else◌, ◌⊎◌,
  inl, inr, Bool-cases, ltb, ltb→lt,
}
use mctp_emu.Prelude.Int.{ℤ, pos, eq_int}
use mctp_emu.Emu.{ok, err, network, invalid_socket_error}
use mctp_emu.Network.Types.{Client}
use mctp_emu.Network.Clients.{Clients, socket, bind, get_client, insert}

-- A bound socket's client is found, and the clients of the other sockets are as they were.
pub get_client-bind :
    (t t' : Clients) (sd other : ℤ) (address msg_type tag : ℕ)
    → bind t sd address msg_type tag ≡ ok t'
    → get_client t' other ≡ (
        if eq_int other sd
        then ok (record { address = address; msg_type = msg_type; tag = tag })
        else get_client t other)
unfolding bind get_client
get_client-bind t t' sd other address msg_type tag h = ground arith

-- With n + 1 sockets handed out, a socket before the last one cannot be bound any more.
bind_old_socket :
    (t : Clients) (n k : ℕ) (address msg_type tag : ℕ)
    → t.num_clients ≡ pos (suc n)
    → k < n
    → bind t (pos k) address msg_type tag ≡ err (network (invalid_socket_error (pos k)))
unfolding bind
bind_old_socket t n k address msg_type tag e h = ground arith

-- The last socket handed out can be bound, and so can any that was never handed out.
bind_new_socket :
    (t : Clients) (n k : ℕ) (address msg_type tag : ℕ)
    → t.num_clients ≡ pos (suc n)
    → n ≤ k
    → (t' : Clients) × (bind t (pos k) address msg_type tag ≡ ok t')
unfolding bind
bind_new_socket t n k address msg_type tag e h =
    (insert (pos k) (record { address = address; msg_type = msg_type; tag = tag }) t, ground arith)

-- With n + 1 sockets handed out, the number of a socket can be bound if it is that of the last one or one
-- that was never handed out: its client is found then, and the other sockets have the clients that they
-- had. It is refused as invalid otherwise.
pub bind_cases :
    (t : Clients) (n k : ℕ) (address msg_type tag : ℕ)
    → t.num_clients ≡ pos (suc n)
    → ((k < n)
        × (bind t (pos k) address msg_type tag ≡ err (network (invalid_socket_error (pos k)))))
      ⊎ ((n ≤ k)
          × (t' : Clients) × (bind t (pos k) address msg_type tag ≡ ok t')
          × ((other : ℤ)
              → get_client t' other ≡ (
                  if eq_int other (pos k)
                  then ok (record { address = address; msg_type = msg_type; tag = tag })
                  else get_client t other)))
bind_cases t n k address msg_type tag e = elim (Bool-cases (ltb k n)) [
  | inl below ↦ let h = ltb→lt k n below in inl (h, bind_old_socket t n k address msg_type tag e h)
  | inr above ↦
      let h : n ≤ k = ground (arith, above) in
      let (t', bound) = bind_new_socket t n k address msg_type tag e h in
      inr (h, t', bound, λ other. get_client-bind t t' (pos k) other address msg_type tag bound)
]

bind_last :
    (t : Clients) (n : ℕ) (address msg_type tag : ℕ)
    → t.num_clients ≡ pos (n + 1)
    → bind t (pos n) address msg_type tag
      ≡ ok (insert (pos n) (record { address = address; msg_type = msg_type; tag = tag }) t)
unfolding bind
bind_last t n address msg_type tag e =
    let next : n + 1 ≡ suc n = omega arith in rw (e ∙ ap pos next, le→ltb n n (omega arith)) refl

-- A socket that is handed out, and bound at once.
pub bind-socket :
    (t : Clients) (n : ℕ) (address msg_type tag : ℕ)
    → t.num_clients ≡ pos n
    → n + 1 < 2 ^ 31
    → (t' : Clients) × (bind (socket t).0 (socket t).1 address msg_type tag ≡ ok t')
      × ((socket t).1 ≡ pos n)
      × (t'.num_clients ≡ pos (n + 1))
      × ((other : ℤ) → get_client (socket t).0 other ≡ get_client t other)
unfolding socket get_client insert
bind-socket t n address msg_type tag e h =
    let client : Client = record { address = address; msg_type = msg_type; tag = tag } in
    let room : (n + 1 == 2 ^ 31) ≡ false = ground (arith, h) in
    let count : (socket t).0.num_clients ≡ pos (n + 1) = rw (e, room) refl in
    (
      insert (pos n) client (socket t).0,
      ap (λ sd. bind (socket t).0 sd address msg_type tag) e
          ∙ bind_last (socket t).0 n address msg_type tag count,
      e,
      count,
      (λ other. refl),
    )
