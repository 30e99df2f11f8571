-- ===== src/Phys/Smbus/Polled.antt =====
-- What `poll_socket` hands to the network.
use mctp_emu.Prelude.{
  ℕ, zero, suc, ◌<◌, ◌≤◌, ◌≡◌, refl, List, [], ◌∷◌, take, length, All, arith, ◌==◌, Bool-cases, inl,
  inr, false, take_all,
}
use mctp_emu.Phys.Smbus.{NetworkBindingCallbackMsg, receive, poll_socket}

-- A message of the binding with the given id, with some bytes and no more than the buffer holds.
abbrev pub IsPolled : ℕ → NetworkBindingCallbackMsg → Type 0
IsPolled network_id (receive id buf) = (id ≡ network_id) × (0 < length buf) × (length buf ≤ 4096)

length-take-le {ℓ} : {A : Type ℓ} (n : ℕ) (xs : List A) → length (take n xs) ≤ n
length-take-le zero xs = omega arith
length-take-le (suc n) [] = omega arith
length-take-le (suc n) (x ∷ xs) = omega (arith, length-take-le n xs)

-- Whatever comes on the socket, every message has the id of the binding, some bytes, and at most 4096.
pub poll_socket-IsPolled :
    (network_id : ℕ) (datagrams : List (List ℕ))
    → All (IsPolled network_id) (poll_socket network_id datagrams)
unfolding poll_socket
poll_socket-IsPolled network_id [] = tt
poll_socket-IsPolled network_id (d ∷ ds) =
    let buf = take 4096 d in
    elim (Bool-cases (length buf == 0)) [
      | inl e ↦ rw e (poll_socket-IsPolled network_id ds)
      | inr e ↦
          rw e
            ((refl, ground (arith, e), length-take-le 4096 d), poll_socket-IsPolled network_id ds)
    ]

-- A datagram that is not empty and fits in the buffer is passed on whole.
pub poll_socket_short :
    (network_id : ℕ) (datagram : List ℕ) (datagrams : List (List ℕ))
    → 0 < length datagram
    → length datagram ≤ 4096
    → poll_socket network_id (datagram ∷ datagrams)
      ≡ receive network_id datagram ∷ poll_socket network_id datagrams
unfolding poll_socket
poll_socket_short network_id datagram datagrams some_bytes fits =
    let full : (length datagram == 0) ≡ false = ground (arith, some_bytes) in
    rw (take_all 4096 datagram fits, full) refl
