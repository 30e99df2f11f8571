-- ===== src/Network/Interface.antt =====
-- src/network/types.rs, the trait `MctpNetwork`, and the two networks that implement it: its operations on
-- sockets, with what a client of either network can rely on.
use mctp_emu.Prelude.{ℕ, ◌+◌, ◌<◌, ◌^◌, ◌≡◌, refl, ap, ◌∙◌, if◌then◌else◌}
use mctp_emu.Prelude.Int.{ℤ, pos, eq_int}
use mctp_emu.Emu.{MctpEmuResult, ok}
use mctp_emu.Network.Types.{Client}
use mctp_emu.Network.Clients
use mctp_emu.Network.Clients.{Clients, get_client}
use mctp_emu.Network.Clients.Sockets.{get_client-bind, bind-socket}
use mctp_emu.Network.Simple
use mctp_emu.Network.Simple.{SimpleNetwork}
use mctp_emu.Network.Virtual
use mctp_emu.Network.Virtual.{VirtualNetwork}

-- `sockets_of` is the table behind the operations.
pub record MctpNetwork (N : Type 0) : Type 0 where
  pub sockets_of : N → Clients
  pub socket : N → N × ℤ
  pub bind : N → ℤ → (address msg_type tag : ℕ) → N × MctpEmuResult (Unit {0})
  pub socket-sockets_of :
      (net : N)
      → (sockets_of (socket net).0 ≡ (Clients.socket (sockets_of net)).0)
        × ((socket net).1 ≡ (Clients.socket (sockets_of net)).1)
  pub bind-sockets_of :
      (net : N) (sd : ℤ) (address msg_type tag : ℕ) (t : Clients)
      → Clients.bind (sockets_of net) sd address msg_type tag ≡ ok t
      → (sockets_of (bind net sd address msg_type tag).0 ≡ t)
        × ((bind net sd address msg_type tag).1 ≡ ok tt)

module _ {S J : Type 0} where
  pub simple_socket :
      (net : SimpleNetwork S J)
      → ((Simple.socket net).0.sockets ≡ (Clients.socket net.sockets).0)
        × ((Simple.socket net).1 ≡ (Clients.socket net.sockets).1)
  unfolding Simple.socket
  simple_socket net = (refl, refl)

  pub simple_bind :
      (net : SimpleNetwork S J) (sd : ℤ) (address msg_type tag : ℕ) (t : Clients)
      → Clients.bind net.sockets sd address msg_type tag ≡ ok t
      → ((Simple.bind net sd address msg_type tag).0.sockets ≡ t)
        × ((Simple.bind net sd address msg_type tag).1 ≡ ok tt)
  simple_bind net sd address msg_type tag t e =
      unfold Simple.bind in rw (Simple.bind, e) (refl, refl)

  abbrev pub simple_network : MctpNetwork (SimpleNetwork S J)
  simple_network = record {
    sockets_of = λ net. net.sockets;
    socket = Simple.socket;
    bind = Simple.bind;
    socket-sockets_of = simple_socket;
    bind-sockets_of = simple_bind;
  }

  pub virtual_socket :
      (net : VirtualNetwork S J)
      → ((Virtual.socket net).0.sockets ≡ (Clients.socket net.sockets).0)
        × ((Virtual.socket net).1 ≡ (Clients.socket net.sockets).1)
  unfolding Virtual.socket
  virtual_socket net = (refl, refl)

  pub virtual_bind :
      (net : VirtualNetwork S J) (sd : ℤ) (address msg_type tag : ℕ) (t : Clients)
      → Clients.bind net.sockets sd address msg_type tag ≡ ok t
      → ((Virtual.bind net sd address msg_type tag).0.sockets ≡ t)
        × ((Virtual.bind net sd address msg_type tag).1 ≡ ok tt)
  virtual_bind net sd address msg_type tag t e =
      unfold Virtual.bind in rw (Virtual.bind, e) (refl, refl)

  abbrev pub virtual_network : MctpNetwork (VirtualNetwork S J)
  virtual_network = record {
    sockets_of = λ net. net.sockets;
    socket = Virtual.socket;
    bind = Virtual.bind;
    socket-sockets_of = virtual_socket;
    bind-sockets_of = virtual_bind;
  }

module _ {N : Type 0} (v : MctpNetwork N) where
  -- A client that asks any of the networks for a socket and binds it at once: where fewer than 2 ^ 31 - 1
  -- sockets were handed out, the socket is the next number, binding it succeeds, what it was bound to is
  -- found under it, and every other socket has the client that it had.
  pub get_client-bind-socket :
      (net : N) (n : ℕ) (address msg_type tag : ℕ)
      → (v.sockets_of net).num_clients ≡ pos n
      → n + 1 < 2 ^ 31
      → let (net', sd) = v.socket net in
        let (net'', bound) = v.bind net' sd address msg_type tag in
        (sd ≡ pos n)
        × (bound ≡ ok tt)
        × ((v.sockets_of net'').num_clients ≡ pos (n + 1))
        × ((other : ℤ)
            → get_client (v.sockets_of net'') other ≡ (
                if eq_int other (pos n)
                then ok (record { address = address; msg_type = msg_type; tag = tag })
                else get_client (v.sockets_of net) other))
  get_client-bind-socket net n address msg_type tag e h =
      let t = v.sockets_of net in
      let (t', b, sd, next, same) = bind-socket t n address msg_type tag e h in
      let (s, d) = v.socket-sockets_of net in
      let here : Clients.bind (v.sockets_of (v.socket net).0) (v.socket net).1 address msg_type tag
          ≡ ok t' =
        rw (s, d) b in
      let (after, bound) =
        v.bind-sockets_of (v.socket net).0 (v.socket net).1 address msg_type tag t' here in
      (
        d ∙ sd,
        bound,
        ap (λ (c : Clients). c.num_clients) after ∙ next,
        (λ other.
            ap (λ (c : Clients). get_client c other) after
            ∙ get_client-bind (Clients.socket t).0 t' (pos n) other address msg_type tag
                (rw sd at b)
            ∙ ap
                (λ (r : MctpEmuResult Client).
                  if eq_int other (pos n)
                  then ok (record { address = address; msg_type = msg_type; tag = tag })
                  else r)
                (same other)),
      )
